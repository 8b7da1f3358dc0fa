-- ===== src/Ctap/Parse/Cose/Entry.antt =====
-- The five pairs of a key, and what a pair that is accepted is.
use zerofido.Base.{
  ℕ, ◌≡◌, sym, ap, ap₂, subst, ◌∙◌, true, false, none, some, Option, List, [], ◌∷◌, ◌++◌,
  append_assoc, arith, if◌then◌else◌, if_cases, length, All, IsByte,
}
use zerofido.Base.Partial.{◌>>=◌, >>=-eq-some}
use zerofido.Base.Int.{ℤ, pos, negsuc}
use zerofido.Cbor.Encode.Writes.{int_bytes, string_bytes}
use zerofido.Cbor.Decode.{Cursor, read_int}
use zerofido.Ctap.Parse.Cose.Inverse.{read_int-Took, read_coordinate-Took}
use zerofido.Ctap.Parse.Cose.{CoseKey, is_int, expect_int, read_coordinate, cose_value}

-- The five pairs of a key.
pub data Entry : Type 0 where
  kty : Entry
  alg : Entry
  crv : Entry
  x_coordinate : List ℕ → Entry
  y_coordinate : List ℕ → Entry

abbrev pub entry_bytes : Entry → List ℕ
entry_bytes kty = int_bytes (pos 1) ++ int_bytes (pos 2)
entry_bytes alg = int_bytes (pos 3) ++ int_bytes (negsuc 24)
entry_bytes crv = int_bytes (negsuc 0) ++ int_bytes (pos 1)
entry_bytes (x_coordinate x) = int_bytes (negsuc 1) ++ string_bytes 2 x
entry_bytes (y_coordinate y) = int_bytes (negsuc 2) ++ string_bytes 2 y

abbrev pub entries_bytes : List Entry → List ℕ
entries_bytes [] = []
entries_bytes (entry ∷ entries) = entry_bytes entry ++ entries_bytes entries

-- Whether a pair adds its key to what was seen, which it was not part of.
pub data Adds (k : CoseKey) : Entry → CoseKey → Type 0 where
  adds_kty : k.saw_kty ≡ false → Adds k kty (record k { saw_kty = true })
  adds_alg : k.saw_alg ≡ false → Adds k alg (record k { saw_alg = true })
  adds_crv : k.saw_crv ≡ false → Adds k crv (record k { saw_crv = true })
  adds_x :
      (x : List ℕ)
      → k.saw_x ≡ false
      → length x ≡ 32
      → Adds k (x_coordinate x) (record k { saw_x = true; x = x })
  adds_y :
      (y : List ℕ)
      → k.saw_y ≡ false
      → length y ≡ 32
      → Adds k (y_coordinate y) (record k { saw_y = true; y = y })

-- What a pair that is accepted is.
unfoldable pub Value : ℤ → CoseKey → Cursor → Option (CoseKey × Cursor) → Type 0
Value key k c o =
    (k' : CoseKey) (rest : Cursor)
    → o ≡ some (k', rest)
    → (entry : Entry) × Adds k entry k'
      × (int_bytes key ++ c ≡ entry_bytes entry ++ rest)
      × All IsByte rest

none-Value : (key : ℤ) (k : CoseKey) (c : Cursor) → Value key k c none
unfolding Value
none-Value key k c k' rest e = cc

is_int-eq : (a b : ℤ) → is_int a b ≡ true → a ≡ b
is_int-eq (pos m) (pos n) e = ground arith
is_int-eq (pos m) (negsuc n) e = cc
is_int-eq (negsuc m) (pos n) e = cc
is_int-eq (negsuc m) (negsuc n) e = ground arith

tested_int :
    (z wanted : ℤ) (c d : Cursor)
    → if◌then◌else◌ {A = Option Cursor} (is_int z wanted) (some c) none ≡ some d
    → (z ≡ wanted) × (c ≡ d)
tested_int z wanted c d h = (is_int-eq z wanted (ground arith), ground arith)

pub pair_parts :
    (a b : CoseKey) (c d : Cursor)
    → ◌≡◌ {A = Option (CoseKey × Cursor)} (some (a, c)) (some (b, d))
    → (a ≡ b) × (c ≡ d)
pair_parts a b c d h = (ground arith, ground arith)

-- A pair with a fixed integer as its value.
fixed-Value :
    (key wanted : ℤ) (k k₁ : CoseKey) (c : Cursor) (entry : Entry)
    → All IsByte c
    → Adds k entry k₁
    → int_bytes key ++ int_bytes wanted ≡ entry_bytes entry
    → Value key k c (do rest ← expect_int wanted c; some (k₁, rest))
unfolding Value expect_int
fixed-Value key wanted k k₁ c entry bytes adds is k' rest e =
    let (d, expected, after) = >>=-eq-some (expect_int wanted c) _ e in
    let (v, read, tested) = >>=-eq-some (read_int c) _ expected in
    let (whole, left) = read_int-Took c v.0 v.1 bytes read in
    let (same, behind) = tested_int v.0 wanted v.1 d tested in
    let (kept, last) = pair_parts k₁ k' d rest after in
    (
      entry,
      subst (Adds k entry) kept adds,
      ap (λ t. int_bytes key ++ t) (whole ∙ ap₂ ◌++◌ (ap int_bytes same) (behind ∙ last))
          ∙ sym (append_assoc (int_bytes key) (int_bytes wanted) rest)
          ∙ ap (λ t. t ++ rest) is,
      subst (All IsByte) (behind ∙ last) left,
    )

-- A pair with a coordinate as its value.
coordinate-Value :
    (key : ℤ) (k : CoseKey) (put : List ℕ → CoseKey) (named : List ℕ → Entry) (c : Cursor)
    → All IsByte c
    → ((content : List ℕ) → length content ≡ 32 → Adds k (named content) (put content))
    → ((content : List ℕ) → int_bytes key ++ string_bytes 2 content ≡ entry_bytes (named content))
    → Value key k c (do (content, rest) ← read_coordinate c; some (put content, rest))
unfolding Value
coordinate-Value key k put named c bytes adds is k' rest e =
    let (v, read, after) = >>=-eq-some (read_coordinate c) _ e in
    let ((whole, left), long) = read_coordinate-Took c v.0 v.1 bytes read in
    let (kept, last) = pair_parts (put v.0) k' v.1 rest after in
    (
      named v.0,
      subst (Adds k (named v.0)) kept (adds v.0 long),
      ap (λ t. int_bytes key ++ t) (whole ∙ ap (λ t. string_bytes 2 v.0 ++ t) last)
          ∙ sym (append_assoc (int_bytes key) (string_bytes 2 v.0) rest)
          ∙ ap (λ t. t ++ rest) (is v.0),
      subst (All IsByte) last left,
    )

pub cose_value-Value :
    (key : ℤ) (k : CoseKey) (c : Cursor) → All IsByte c → Value key k c (cose_value key k c)
unfolding cose_value
cose_value-Value key k c bytes =
    let P = Value key k c in
    if_cases P (is_int key (pos 1))
      (λ one.
        if_cases P k.saw_kty (λ _. none-Value key k c)
          (λ new.
            fixed-Value key (pos 2) k (record k { saw_kty = true }) c kty bytes (adds_kty new)
              (ap (λ z. int_bytes z ++ int_bytes (pos 2)) (is_int-eq key (pos 1) one))))
      (λ _.
        if_cases P (is_int key (pos 3))
          (λ three.
            if_cases P k.saw_alg (λ _. none-Value key k c)
              (λ new.
                fixed-Value key (negsuc 24) k (record k { saw_alg = true }) c alg bytes
                  (adds_alg new)
                  (ap (λ z. int_bytes z ++ int_bytes (negsuc 24)) (is_int-eq key (pos 3) three))))
          (λ _.
            if_cases P (is_int key (negsuc 0))
              (λ minus_one.
                if_cases P k.saw_crv (λ _. none-Value key k c)
                  (λ new.
                    fixed-Value key (pos 1) k (record k { saw_crv = true }) c crv bytes
                      (adds_crv new)
                      (ap (λ z. int_bytes z ++ int_bytes (pos 1))
                        (is_int-eq key (negsuc 0) minus_one))))
              (λ _.
                if_cases P (is_int key (negsuc 1))
                  (λ minus_two.
                    if_cases P k.saw_x (λ _. none-Value key k c)
                      (λ new.
                        coordinate-Value key k (λ x. record k { saw_x = true; x = x })
                          (λ x. x_coordinate x) c bytes (λ x long. adds_x x new long)
                          (λ x.
                            ap (λ z. int_bytes z ++ string_bytes 2 x)
                              (is_int-eq key (negsuc 1) minus_two))))
                  (λ _.
                    if_cases P (is_int key (negsuc 2))
                      (λ minus_three.
                        if_cases P k.saw_y (λ _. none-Value key k c)
                          (λ new.
                            coordinate-Value key k (λ y. record k { saw_y = true; y = y })
                              (λ y. y_coordinate y) c bytes (λ y long. adds_y y new long)
                              (λ y.
                                ap (λ z. int_bytes z ++ string_bytes 2 y)
                                  (is_int-eq key (negsuc 2) minus_three))))
                      (λ _. none-Value key k c)))))
