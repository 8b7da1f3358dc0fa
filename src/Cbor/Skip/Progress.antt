-- ===== src/Cbor/Skip/Progress.antt =====
-- Skipping takes a whole item off the front of the input: no byte behind the item has a part in it.
use zerofido.Base.{
  ℕ, zero, suc, ◌%◌, ◌/◌, ◌<◌, ◌≡◌, refl, sym, ap, ◌∙◌, Bool, true, false, none, some, Option, List,
  [], ◌∷◌, ◌++◌, append_assoc, arith, length, take, drop, take-append-drop, drop-append,
  length-append, length-take, read_be, ltb, ltb_false→le, ◌==◌, if_false, if_cases, if◌then◌else◌,
}
use zerofido.Base.Partial.{◌>>=◌, >>=-eq-some}
use mathlib.Core.Bool.{◌||◌}
use zerofido.Cbor.Decode.{Cursor}
use zerofido.Cbor.Skip.{skip_argument, skip_read_head, repeat, skip_body, skip_inner, skip}

-- A reader of values and a cursor takes a front off its input, and takes the same front, with the same
-- value, whatever stands behind it; if nothing does, there is nothing left.
abbrev Takes {ℓ} : {A : Type ℓ} → (Cursor → Option (A × Cursor)) → Type ℓ
Takes {A = A} f =
    (c : Cursor) (a : A) (rest : Cursor)
    → f c ≡ some (a, rest)
    → (p : List ℕ) × (c ≡ p ++ rest) × ((r : List ℕ) → f (p ++ r) ≡ some (a, r))

read_be-Takes : (width acc : ℕ) → Takes (read_be width acc)
unfolding read_be
read_be-Takes zero acc c v rest e = ([], ground arith, λ r. ground arith)
read_be-Takes (suc width) acc [] v rest e = cc
read_be-Takes (suc width) acc (b ∷ c) v rest e =
    let (p, split, again) = read_be-Takes width _ c v rest e in
    (b ∷ p, ap (λ t. b ∷ t) split, again)

-- The same of a reader that has only a cursor to return.
abbrev IsLocal : (Cursor → Option Cursor) → Type 0
IsLocal f =
    (c rest : Cursor)
    → f c ≡ some rest
    → (p : List ℕ) × (c ≡ p ++ rest) × ((r : List ℕ) → f (p ++ r) ≡ some r)

some-IsLocal : IsLocal (λ c. some c)
some-IsLocal c rest e = ([], ground arith, λ r. refl)

none-IsLocal : IsLocal (λ c. none)
none-IsLocal c rest e = cc

if-IsLocal :
    (b : Bool) {f g : Cursor → Option Cursor}
    → IsLocal f
    → IsLocal g
    → IsLocal (λ c. if b then f c else g c)
if-IsLocal true h k = h
if-IsLocal false h k = k

>>=-IsLocal : (f g : Cursor → Option Cursor) → IsLocal f → IsLocal g → IsLocal (λ c. f c >>= g)
>>=-IsLocal f g h k c rest e =
    let (d, eq, after) = >>=-eq-some (f c) g e in
    let (p, split, again) = h c d eq in
    let (q, split', again') = k d rest after in
    (
      p ++ q,
      split ∙ ap (λ t. p ++ t) split' ∙ sym (append_assoc p q rest),
      λ r. rw (append_assoc p q r) (rw (again (q ++ r)) (again' r)),
    )

bytes-IsLocal : (raw : ℕ) → IsLocal (λ c. if ltb (length c) raw then none else some (drop raw c))
bytes-IsLocal raw c rest =
    if_cases
      (λ o.
        o ≡ some rest
        → (p : List ℕ) × (c ≡ p ++ rest)
          × ((r : List ℕ)
              → (if ltb (length (p ++ r)) raw then none else some (drop raw (p ++ r))) ≡ some r))
      (ltb (length c) raw) (λ _ e. cc)
      (λ enough e.
        let left : drop raw c ≡ rest = ground arith in
        let long : length (take raw c) ≡ raw =
          omega (arith, length-take raw c, ltb_false→le _ _ enough) in
        (
          take raw c,
          sym (take-append-drop raw c) ∙ ap (λ t. take raw c ++ t) left,
          λ r.
              let fits : ltb (length (take raw c ++ r)) raw ≡ false =
                ground (arith, length-append (take raw c) r) in
              if_false none (ltb (length (take raw c ++ r)) raw) fits (
                ap some
                  (ap (λ n. drop n (take raw c ++ r)) (sym long) ∙ drop-append (take raw c) r)),
        ))

module _ (item : Cursor → Option Cursor) (local : IsLocal item) where
  repeat-IsLocal : (raw : ℕ) → IsLocal (repeat item raw)
  unfolding repeat
  repeat-IsLocal zero = some-IsLocal
  repeat-IsLocal (suc raw) = >>=-IsLocal item (repeat item raw) local (repeat-IsLocal raw)

module _ (item : Cursor → Option Cursor) (local : IsLocal item) where
  skip_body-IsLocal : (major raw : ℕ) → IsLocal (skip_body item major raw)
  unfolding skip_body
  skip_body-IsLocal major raw = if-IsLocal (major == 0 || major == 1) some-IsLocal (
      if-IsLocal (major == 7) (if-IsLocal (raw == 31) none-IsLocal some-IsLocal) (
        if-IsLocal (major == 2 || major == 3) (bytes-IsLocal raw) (
          if-IsLocal (major == 4) (repeat-IsLocal item local raw) (
            if-IsLocal (major == 5)
              (repeat-IsLocal (λ c. item c >>= item) (>>=-IsLocal item item local local) raw)
              none-IsLocal))))

-- The same of the readers of a head.
abbrev HeadIsLocal : (Cursor → Option (ℕ × ℕ × Cursor)) → Type 0
HeadIsLocal f =
    (c : Cursor) (major raw : ℕ) (rest : Cursor)
    → f c ≡ some (major, raw, rest)
    → (p : List ℕ) × (c ≡ p ++ rest) × ((r : List ℕ) → f (p ++ r) ≡ some (major, raw, r))

if-HeadIsLocal :
    (b : Bool) {f g : Cursor → Option (ℕ × ℕ × Cursor)}
    → HeadIsLocal f
    → HeadIsLocal g
    → HeadIsLocal (λ c. if b then f c else g c)
if-HeadIsLocal true h k = h
if-HeadIsLocal false h k = k

argument-HeadIsLocal : (width m : ℕ) → HeadIsLocal (skip_argument width m)
argument-HeadIsLocal width m c major raw rest e =
    let (v, eq, after) = >>=-eq-some (read_be width 0 c) _ e in
    let (p, split, again) = read_be-Takes width 0 c v.0 v.1 eq in
    let (left, same) = parts v after in
    (p, split ∙ ap (λ t. p ++ t) left, λ r. rw (again r) (same r))
  where
    parts :
        (v : ℕ × Cursor)
        → ◌≡◌ {A = Option (ℕ × ℕ × Cursor)} (some (m, v.0, v.1)) (some (major, raw, rest))
        → (v.1 ≡ rest)
          × ((r : List ℕ)
              → ◌≡◌ {A = Option (ℕ × ℕ × Cursor)} (some (m, v.0, r)) (some (major, raw, r)))
    parts v after = (ground arith, λ r. ground arith)

head-HeadIsLocal : (b : ℕ) → HeadIsLocal (λ c. skip_read_head (b ∷ c))
unfolding skip_read_head
head-HeadIsLocal b =
    if-HeadIsLocal (ltb (b % 32) 24) (λ c major raw rest e. ([], ground arith, λ r. ground arith))
      (if-HeadIsLocal (b % 32 == 24) (argument-HeadIsLocal 1 (b / 32)) (
        if-HeadIsLocal (b % 32 == 25) (argument-HeadIsLocal 2 (b / 32)) (
          if-HeadIsLocal (b % 32 == 26) (argument-HeadIsLocal 4 (b / 32)) (
            if-HeadIsLocal (b % 32 == 27) (argument-HeadIsLocal 8 (b / 32))
              (λ c major raw rest e. cc)))))

-- What a successful call takes: at least a byte, and the same whatever stands behind it.
TakesItem : (Cursor → Option Cursor) → Type 0
TakesItem f =
    (c rest : Cursor)
    → f c ≡ some rest
    → (p : List ℕ) × (c ≡ p ++ rest) × (0 < length p) × ((r : List ℕ) → f (p ++ r) ≡ some r)

TakesItem-IsLocal : (f : Cursor → Option Cursor) → TakesItem f → IsLocal f
unfolding TakesItem
TakesItem-IsLocal f h c rest e = let (p, split, _, again) = h c rest e in (p, split, again)

skip_inner-TakesItem : (room : ℕ) → TakesItem (skip_inner room)
unfolding skip_inner TakesItem
skip_inner-TakesItem zero c rest e = cc
skip_inner-TakesItem (suc room) [] rest e = unfold skip_read_head in cc
skip_inner-TakesItem (suc room) (b ∷ c) rest e =
    let (h, eq, after) = >>=-eq-some (skip_read_head (b ∷ c)) _ e in
    let (p, split, again) = head-HeadIsLocal b c h.0 h.1 h.2 eq in
    let local = TakesItem-IsLocal (skip_inner room) (skip_inner-TakesItem room) in
    let (q, split', again') = skip_body-IsLocal (skip_inner room) local h.0 h.1 h.2 rest after in
    (
      b ∷ (p ++ q),
      ap (λ t. b ∷ t) (split ∙ ap (λ t. p ++ t) split' ∙ sym (append_assoc p q rest)),
      omega arith,
      λ r. rw (append_assoc p q r) (rw (again (q ++ r)) (again' r)),
    )

-- `zf_cbor_skip` takes a front of at least one byte off the input, and this front alone decides the
-- call: with any other bytes `r` behind it, or none, the call takes the same front and leaves `r`. So an
-- item that the input ends in the middle of is not accepted.
pub skip_front :
    (c r : Cursor) {rest : Cursor}
    → skip c ≡ some rest
    → (p : List ℕ) × (c ≡ p ++ rest) × (0 < length p) × (skip (p ++ r) ≡ some r)
unfolding skip TakesItem
skip_front c r {rest} e =
    let (p, split, some_byte, again) = skip_inner-TakesItem 17 c rest e in
    (p, split, some_byte, again r)
