-- ===== src/Ctap/Parse/Cose/Sound.antt =====
-- What the bytes of an accepted key are.
use mathlib.Core.List.{Perm, perm_middle}
use mathlib.Core.List.Perm
use zerofido.Base.{
  ℕ, zero, suc, ◌+◌, ◌≡◌, refl, sym, ap, ap₂, subst, ◌∙◌, Bool, true, false, ◌&&◌, none, some,
  Option, List, [], ◌∷◌, ◌++◌, append_assoc, arith, if◌then◌else◌, length, All, IsByte,
}
use zerofido.Base.Partial.{>>=-eq-some}
use zerofido.Cbor.Encode.{head_bytes}
use zerofido.Cbor.Decode.{Cursor, read_int, read_map_start}
use zerofido.Ctap.Parse.Cose.Inverse.{read_int-Took, read_map_start-Took}
use zerofido.Ctap.Parse.Cose.{CoseKey, cose_pair, cose_pairs, no_key, parse_cose_p256_key_agreement}
use zerofido.Ctap.Parse.Cose.Entry.{
  Entry, kty, alg, crv, x_coordinate, y_coordinate, entry_bytes, entries_bytes, Adds, adds_kty,
  adds_alg, adds_crv, adds_x, adds_y, Value, cose_value-Value, pair_parts,
}

-- What is seen in `k'` and not in `k`.
fresh : Bool → Bool → Entry → List Entry
fresh before after entry = if before then [] else if after then entry ∷ [] else []

added : CoseKey → CoseKey → List Entry
added k k' =
    fresh k.saw_kty k'.saw_kty kty
    ++ (fresh k.saw_alg k'.saw_alg alg
        ++ (fresh k.saw_crv k'.saw_crv crv
            ++ (fresh k.saw_x k'.saw_x (x_coordinate k'.x)
                ++ fresh k.saw_y k'.saw_y (y_coordinate k'.y))))

-- What was seen stays, with its coordinates, which have 32 bytes.
record Extends (k k' : CoseKey) : Type 0 where
  keeps_kty : k.saw_kty ≡ true → k'.saw_kty ≡ true
  keeps_alg : k.saw_alg ≡ true → k'.saw_alg ≡ true
  keeps_crv : k.saw_crv ≡ true → k'.saw_crv ≡ true
  keeps_x : k.saw_x ≡ true → (k'.saw_x ≡ true) × (k'.x ≡ k.x)
  keeps_y : k.saw_y ≡ true → (k'.saw_y ≡ true) × (k'.y ≡ k.y)

Extends-trans : (a b c : CoseKey) → Extends a b → Extends b c → Extends a c
Extends-trans a b c h k = record {
  keeps_kty = λ s. k.keeps_kty (h.keeps_kty s);
  keeps_alg = λ s. k.keeps_alg (h.keeps_alg s);
  keeps_crv = λ s. k.keeps_crv (h.keeps_crv s);
  keeps_x = λ s. let (t, e) = h.keeps_x s in let (u, f) = k.keeps_x t in (u, f ∙ e);
  keeps_y = λ s. let (t, e) = h.keeps_y s in let (u, f) = k.keeps_y t in (u, f ∙ e);
}

Adds-Extends : (k : CoseKey) (entry : Entry) (k' : CoseKey) → Adds k entry k' → Extends k k'
Adds-Extends k entry k' (adds_kty n) = record {
  keeps_kty = λ s. refl;
  keeps_alg = λ s. s;
  keeps_crv = λ s. s;
  keeps_x = λ s. (s, refl);
  keeps_y = λ s. (s, refl);
}
Adds-Extends k entry k' (adds_alg n) = record {
  keeps_kty = λ s. s;
  keeps_alg = λ s. refl;
  keeps_crv = λ s. s;
  keeps_x = λ s. (s, refl);
  keeps_y = λ s. (s, refl);
}
Adds-Extends k entry k' (adds_crv n) = record {
  keeps_kty = λ s. s;
  keeps_alg = λ s. s;
  keeps_crv = λ s. refl;
  keeps_x = λ s. (s, refl);
  keeps_y = λ s. (s, refl);
}
Adds-Extends k entry k' (adds_x x n l) = record {
  keeps_kty = λ s. s;
  keeps_alg = λ s. s;
  keeps_crv = λ s. s;
  keeps_x = λ s. absurd (ground arith);
  keeps_y = λ s. (s, refl);
}
Adds-Extends k entry k' (adds_y y n l) = record {
  keeps_kty = λ s. s;
  keeps_alg = λ s. s;
  keeps_crv = λ s. s;
  keeps_x = λ s. (s, refl);
  keeps_y = λ s. absurd (ground arith);
}

lift : (a b c : List Entry) (entry : Entry) → Perm b (entry ∷ c) → Perm (a ++ b) (entry ∷ (a ++ c))
lift a b c entry p = Perm.trans (Perm.append_left a p) (perm_middle {a = entry} a c)

added-Perm :
    (k : CoseKey) (entry : Entry) (k₁ k' : CoseKey)
    → Adds k entry k₁
    → Extends k₁ k'
    → Perm (added k k') (entry ∷ added k₁ k')
unfolding added fresh
added-Perm k entry k₁ k' (adds_kty n) h = let m = h.keeps_kty refl in rw (n, m) (Perm.refl _)
added-Perm k entry k₁ k' (adds_alg n) h =
    let m = h.keeps_alg refl in
    rw (n, m) (lift (fresh k.saw_kty k'.saw_kty kty) _ _ alg (Perm.refl _))
added-Perm k entry k₁ k' (adds_crv n) h =
    let m = h.keeps_crv refl in
    rw (n, m)
      (lift (fresh k.saw_kty k'.saw_kty kty) _ _ crv
        (lift (fresh k.saw_alg k'.saw_alg alg) _ _ crv (Perm.refl _)))
added-Perm k entry k₁ k' (adds_x x n l) h =
    let (m, same) = h.keeps_x refl in
    rw (n, m, same)
      (lift (fresh k.saw_kty k'.saw_kty kty) _ _ (x_coordinate x) (
        lift (fresh k.saw_alg k'.saw_alg alg) _ _ (x_coordinate x) (
          lift (fresh k.saw_crv k'.saw_crv crv) _ _ (x_coordinate x)
            (Perm.refl (x_coordinate x ∷ fresh k.saw_y k'.saw_y (y_coordinate k'.y))))))
added-Perm k entry k₁ k' (adds_y y n l) h =
    let (m, same) = h.keeps_y refl in
    rw (n, m, same)
      (lift (fresh k.saw_kty k'.saw_kty kty) _ _ (y_coordinate y) (
        lift (fresh k.saw_alg k'.saw_alg alg) _ _ (y_coordinate y) (
          lift (fresh k.saw_crv k'.saw_crv crv) _ _ (y_coordinate y) (
            lift (fresh k.saw_x k'.saw_x (x_coordinate k'.x)) _ _ (y_coordinate y)
              (Perm.refl (y_coordinate y ∷ []))))))

fresh_same : (b : Bool) (entry : Entry) → fresh b b entry ≡ []
unfolding fresh
fresh_same true entry = refl
fresh_same false entry = refl

added_same : (k : CoseKey) → added k k ≡ []
unfolding added
added_same k =
    rw
      (
        fresh_same k.saw_kty kty,
        fresh_same k.saw_alg alg,
        fresh_same k.saw_crv crv,
        fresh_same k.saw_x (x_coordinate k.x),
        fresh_same k.saw_y (y_coordinate k.y),
      )
      refl

-- How many keys were seen.
flag : Bool → ℕ
flag b = if b then 1 else 0

seen : CoseKey → ℕ
seen k = flag k.saw_kty + flag k.saw_alg + flag k.saw_crv + flag k.saw_x + flag k.saw_y

-- The coordinates that were seen have 32 bytes.
Sized : CoseKey → Type 0
Sized k = (k.saw_x ≡ true → length k.x ≡ 32) × (k.saw_y ≡ true → length k.y ≡ 32)

Adds-seen : (k : CoseKey) (entry : Entry) (k' : CoseKey) → Adds k entry k' → seen k' ≡ seen k + 1
unfolding seen flag
Adds-seen k entry k' (adds_kty n) = rw n (ground arith)
Adds-seen k entry k' (adds_alg n) = rw n (ground arith)
Adds-seen k entry k' (adds_crv n) = rw n (ground arith)
Adds-seen k entry k' (adds_x x n l) = rw n (ground arith)
Adds-seen k entry k' (adds_y y n l) = rw n (ground arith)

Adds-Sized : (k : CoseKey) (entry : Entry) (k' : CoseKey) → Adds k entry k' → Sized k → Sized k'
unfolding Sized
Adds-Sized k entry k' (adds_kty n) s = s
Adds-Sized k entry k' (adds_alg n) s = s
Adds-Sized k entry k' (adds_crv n) s = s
Adds-Sized k entry k' (adds_x x n l) s = (λ _. l, s.1)
Adds-Sized k entry k' (adds_y y n l) s = (s.0, λ _. l)

-- What the pairs of a cursor are.
record Pairs (pairs : ℕ) (k : CoseKey) (c : Cursor) (k' : CoseKey) (rest : Cursor) : Type 0 where
  entries : List Entry
  perm : Perm (added k k') entries
  counted : seen k' ≡ seen k + pairs
  extends : Extends k k'
  sized : Sized k'
  whole : c ≡ entries_bytes entries ++ rest

cose_pairs-Pairs :
    (pairs : ℕ) (k : CoseKey) (c : Cursor) (k' : CoseKey) (rest : Cursor)
    → All IsByte c
    → Sized k
    → cose_pairs pairs k c ≡ some (k', rest)
    → Pairs pairs k c k' rest
unfolding cose_pairs cose_pair Value
cose_pairs-Pairs zero k c k' rest bytes sized e =
    let (same, left) = pair_parts k k' c rest e in
    subst (λ t. Pairs zero k c t rest) same
      (record {
        entries = [];
        perm = rw (added_same k) (Perm.refl []);
        counted = omega arith;
        extends = record {
          keeps_kty = λ s. s;
          keeps_alg = λ s. s;
          keeps_crv = λ s. s;
          keeps_x = λ s. (s, refl);
          keeps_y = λ s. (s, refl);
        };
        sized = sized;
        whole = left;
      })
cose_pairs-Pairs (suc pairs) k c k' rest bytes sized e =
    let (p, paired, after) = >>=-eq-some (cose_pair k c) _ e in
    let (v, read, valued) = >>=-eq-some (read_int c) _ paired in
    let (front, behind) = read_int-Took c v.0 v.1 bytes read in
    let (entry, adds, bytes_of, left) = cose_value-Value v.0 k v.1 behind p.0 p.1 valued in
    let more =
      cose_pairs-Pairs pairs p.0 p.1 k' rest left (Adds-Sized k entry p.0 adds sized) after in
    record {
      entries = entry ∷ more.entries;
      perm = Perm.trans (added-Perm k entry p.0 k' adds more.extends) (Perm.cons entry more.perm);
      counted = omega (arith, more.counted, Adds-seen k entry p.0 adds);
      extends = Extends-trans k p.0 k' (Adds-Extends k entry p.0 adds) more.extends;
      sized = more.sized;
      whole =
          front
          ∙ bytes_of
          ∙ ap (λ t. entry_bytes entry ++ t) more.whole
          ∙ sym (append_assoc (entry_bytes entry) (entries_bytes more.entries) rest);
    }

abbrev AllSeen : CoseKey → Type 0
AllSeen k =
    (k.saw_kty ≡ true)
    × (k.saw_alg ≡ true)
    × (k.saw_crv ≡ true)
    × (k.saw_x ≡ true)
    × (k.saw_y ≡ true)

all_added :
    (k : CoseKey)
    → AllSeen k
    → added no_key k ≡ kty ∷ alg ∷ crv ∷ x_coordinate k.x ∷ y_coordinate k.y ∷ []
unfolding added fresh
all_added k (a, b, c, d, e) = rw (a, b, c, d, e) refl

-- With all keys seen there were five pairs.
five_pairs : (k : CoseKey) (n : ℕ) → AllSeen k → seen k ≡ seen no_key + n → n ≡ 5
unfolding seen flag
five_pairs k n (a, b, c, d, e) h = ground arith

-- A map of bytes that is accepted as a key is, byte for byte and in some order, the five pairs of a key:
-- the type 2, the algorithm -25, the curve 1 and the coordinates `x` and `y` of 32 bytes each. None of
-- them is missing and none comes twice.
pub accepted_key_form :
    (c : Cursor) {x y : List ℕ} {rest : Cursor}
    → All IsByte c
    → parse_cose_p256_key_agreement c ≡ some (x, y, rest)
    → (entries : List Entry) × Perm (kty ∷ alg ∷ crv ∷ x_coordinate x ∷ y_coordinate y ∷ []) entries
      × (c ≡ head_bytes 5 5 ++ (entries_bytes entries ++ rest))
      × (length x ≡ 32)
      × (length y ≡ 32)
unfolding parse_cose_p256_key_agreement Sized
accepted_key_form c {x} {y} {rest} bytes e =
    let (m, mapped, after) = >>=-eq-some (read_map_start c) _ e in
    let (k, paired, last) = >>=-eq-some (cose_pairs m.0 no_key m.1) _ after in
    let (front, left) = read_map_start-Took c m.0 m.1 bytes mapped in
    let pairs = cose_pairs-Pairs m.0 no_key m.1 k.0 k.1 left (λ s. cc, λ s. cc) paired in
    let (flags, same_x, same_y, end) = accepted k.0 k.1 last in
    let five = five_pairs k.0 m.0 flags pairs.counted in
    let (size_x, size_y) = pairs.sized in
    (
      pairs.entries,
      subst (λ l. Perm l pairs.entries)
          (all_added k.0 flags
            ∙ ap₂ (λ u v. kty ∷ alg ∷ crv ∷ x_coordinate u ∷ y_coordinate v ∷ []) same_x same_y)
          pairs.perm,
      front
          ∙ ap₂ ◌++◌ (ap (head_bytes 5) five)
              (pairs.whole ∙ ap (λ t. entries_bytes pairs.entries ++ t) end),
      sym (ap length same_x) ∙ size_x flags.3,
      sym (ap length same_y) ∙ size_y flags.4,
    )
  where
    accepted :
        (k : CoseKey) (d : Cursor)
        → if◌then◌else◌ {A = Option (List ℕ × List ℕ × Cursor)}
            (k.saw_kty && k.saw_alg && k.saw_crv && k.saw_x && k.saw_y)
            (some (k.x, k.y, d))
            none
          ≡ some (x, y, rest)
        → AllSeen k × (k.x ≡ x) × (k.y ≡ y) × (d ≡ rest)
    accepted k d h = (
      (ground arith, ground arith, ground arith, ground arith, ground arith),
      ground arith,
      ground arith,
      ground arith,
    )
