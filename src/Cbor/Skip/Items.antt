-- ===== src/Cbor/Skip/Items.antt =====
-- `zf_cbor_skip` on well-formed data items: it steps over those that are nested at most 16 levels
-- deep, and refuses the others.
use zerofido.Base.{
  ℕ, zero, suc, ◌^◌, ◌<◌, ◌≤◌, ◌≡◌, refl, sym, ap, ◌∙◌, none, some, Option, [], ◌∷◌, ◌++◌,
  append_assoc, arith, length, length-append, drop-append, leb, if◌then◌else◌,
}
use Prim.Native.Nat.{max}
use native.Mathlib.Decide.{dec_le}
use mathlib.Core.Logic.{◌≢◌}
use zerofido.Base.Partial.{◌>>=◌}
use zerofido.Cbor.Encode.{head_bytes}
use zerofido.Cbor.Decode.{Cursor, read_head}
use zerofido.Cbor.Head.{read_head-head_bytes}
use zerofido.Cbor.Item.{
  Item, uint, negint, bytes, text, array, map, simple, Items, nil, cons, Pairs, empty, pair, count,
  pairs, item_bytes, items_bytes, pairs_bytes, depth, height, height_pairs, IsEncodable,
  IsEncodableItems, IsEncodablePairs,
}
use zerofido.Cbor.Skip.{skip_read_head, repeat, skip_body, skip_inner, skip}

-- Where the strict reader succeeds, the lenient one reads the same.
skip_read_head-read_head :
    (c : Cursor) {m v : ℕ} {rest : Cursor}
    → read_head c ≡ some (m, v, rest)
    → skip_read_head c ≡ some (m, v, rest)
unfolding skip_read_head read_head
skip_read_head-read_head [] e = cc
skip_read_head-read_head (b ∷ c) e = ground arith

skip_head :
    (m v : ℕ) (rest : Cursor)
    → m < 8
    → v < 2 ^ 64
    → skip_read_head (head_bytes m v ++ rest) ≡ some (m, v, rest)
skip_head m v rest h k = skip_read_head-read_head _ (read_head-head_bytes m v rest h k)

-- One step of the recursion, on a head that the encoder writes.
skip_inner-head :
    (room m v : ℕ) (c : Cursor)
    → m < 8
    → v < 2 ^ 64
    → skip_inner (suc room) (head_bytes m v ++ c) ≡ skip_body (skip_inner room) m v c
unfolding skip_inner
skip_inner-head room m v c h k = rw (skip_head m v c h k)

-- `some rest` if the item's nesting leaves room, and `none` if it is too deep.
outcome : ℕ → ℕ → Cursor → Option Cursor
outcome levels room rest = if leb levels room then some rest else none

-- An item of one head and what its body reads, where the body's outcome is known at every level.
headed :
    (m v levels : ℕ) (c rest : Cursor)
    → m < 8
    → v < 2 ^ 64
    → ((r : ℕ) → skip_body (skip_inner r) m v c ≡ outcome levels r rest)
    → (room : ℕ) → skip_inner room (head_bytes m v ++ c) ≡ outcome (suc levels) room rest
unfolding outcome
headed m v levels c rest h k body zero = unfold skip_inner in ground arith
headed m v levels c rest h k body (suc room) =
    skip_inner-head room m v c h k ∙ body room ∙ ground arith

body_scalar :
    (m v : ℕ) (rest : Cursor)
    → m < 2
    → (r : ℕ) → skip_body (skip_inner r) m v rest ≡ outcome 0 r rest
unfolding skip_body outcome
body_scalar m v rest h r = ground arith

body_simple :
    (v : ℕ) (rest : Cursor)
    → v ≢ 31
    → (r : ℕ) → skip_body (skip_inner r) 7 v rest ≡ outcome 0 r rest
unfolding skip_body outcome
body_simple v rest h r = ground arith

body_content :
    (m : ℕ) (s rest : Cursor)
    → 2 ≤ m
    → m < 4
    → (r : ℕ) → skip_body (skip_inner r) m (length s) (s ++ rest) ≡ outcome 0 r rest
unfolding skip_body outcome
body_content m s rest h k r = ground (arith, length-append s rest, drop-append s rest)

outcome-some : (levels room : ℕ) (c : Cursor) → levels ≤ room → outcome levels room c ≡ some c
unfolding outcome
outcome-some levels room c h = ground arith

outcome-none : (levels room : ℕ) (c : Cursor) → room < levels → outcome levels room c ≡ none
unfolding outcome
outcome-none levels room c h = ground arith

outcome-max : (a b room : ℕ) (c : Cursor) → a ≤ room → outcome b room c ≡ outcome (max a b) room c
unfolding outcome
outcome-max a b room c h = ground arith

-- One item, then the rest of the loop.
next :
    (o : Option Cursor) (f : Cursor → Option Cursor) (a b room : ℕ) (c rest : Cursor)
    → o ≡ outcome a room c
    → f c ≡ outcome b room rest
    → (o >>= f) ≡ outcome (max a b) room rest
next o f a b room c rest h k = elim (dec_le a room) [
  | yes p ↦ rw (h, outcome-some a room c p) (k ∙ outcome-max a b room rest p)
  | no p ↦
      rw (h, outcome-none a room c (omega arith))
        (sym (outcome-none (max a b) room rest (omega arith)))
]

array_round :
    (item : Cursor → Option Cursor) (n : ℕ) (c : Cursor)
    → skip_body item 4 (suc n) c ≡ (item c >>= skip_body item 4 n)
unfolding skip_body repeat
array_round item n c = refl

map_round :
    (item : Cursor → Option Cursor) (n : ℕ) (c : Cursor)
    → skip_body item 5 (suc n) c ≡ ((item c >>= item) >>= skip_body item 5 n)
unfolding skip_body repeat
map_round item n c = refl

no_rounds :
    (item : Cursor → Option Cursor) (rest : Cursor)
    → (skip_body item 4 0 rest ≡ some rest) × (skip_body item 5 0 rest ≡ some rest)
unfolding skip_body repeat
no_rounds item rest = (refl, refl)

regroup :
    (a b c room : ℕ) (rest : Cursor) {o : Option Cursor}
    → o ≡ outcome (max (max a b) c) room rest
    → o ≡ outcome (max a (max b c)) room rest
unfolding outcome
regroup a b c room rest e = e ∙ ap (λ t. outcome t room rest) (omega arith)

mutual
  unfolding item_bytes items_bytes pairs_bytes depth height height_pairs IsEncodable
      IsEncodableItems IsEncodablePairs count pairs

  skip_item :
      (x : Item) (room : ℕ) (rest : Cursor)
      → IsEncodable x
      → skip_inner room (item_bytes x ++ rest) ≡ outcome (suc (depth x)) room rest
  skip_item (uint n) room rest h =
      headed 0 n 0 rest rest (omega arith) h (body_scalar 0 n rest (omega arith)) room
  skip_item (negint n) room rest h =
      headed 1 n 0 rest rest (omega arith) h (body_scalar 1 n rest (omega arith)) room
  skip_item (bytes s) room rest h = rw append_assoc (
      headed 2 (length s) 0 (s ++ rest) rest (omega arith) h
        (body_content 2 s rest (omega arith) (omega arith)) room)
  skip_item (text s) room rest h = rw append_assoc (
      headed 3 (length s) 0 (s ++ rest) rest (omega arith) h
        (body_content 3 s rest (omega arith) (omega arith)) room)
  skip_item (array xs) room rest h = rw append_assoc (
      headed 4 (count xs) (height xs) (items_bytes xs ++ rest) rest (omega arith) h.0
        (λ r. skip_items xs r rest h.1) room)
  skip_item (map ps) room rest h = rw append_assoc (
      headed 5 (pairs ps) (height_pairs ps) (pairs_bytes ps ++ rest) rest (omega arith) h.0
        (λ r. skip_pairs ps r rest h.1) room)
  skip_item (simple n) room rest h =
      headed 7 n 0 rest rest (omega arith) h.0 (body_simple n rest h.1) room

  skip_items :
      (xs : Items) (room : ℕ) (rest : Cursor)
      → IsEncodableItems xs
      → skip_body (skip_inner room) 4 (count xs) (items_bytes xs ++ rest)
        ≡ outcome (height xs) room rest
  skip_items nil room rest h = (no_rounds _ rest).0 ∙ sym (outcome-some 0 room rest (omega arith))
  skip_items (cons x xs) room rest h =
      array_round (skip_inner room) (count xs) _
      ∙ rw append_assoc (
          next _ _ (suc (depth x)) (height xs) room (items_bytes xs ++ rest) rest
            (skip_item x room (items_bytes xs ++ rest) h.0) (skip_items xs room rest h.1))

  skip_pairs :
      (ps : Pairs) (room : ℕ) (rest : Cursor)
      → IsEncodablePairs ps
      → skip_body (skip_inner room) 5 (pairs ps) (pairs_bytes ps ++ rest)
        ≡ outcome (height_pairs ps) room rest
  skip_pairs empty room rest h = (no_rounds _ rest).1 ∙ sym (outcome-some 0 room rest (omega arith))
  skip_pairs (pair k v ps) room rest h =
      map_round (skip_inner room) (pairs ps) _
      ∙ rw (append_assoc, append_assoc)
          (regroup (suc (depth k)) (suc (depth v)) (height_pairs ps) room rest (
            next _ _ (max (suc (depth k)) (suc (depth v))) (height_pairs ps) room
              (pairs_bytes ps ++ rest) rest
              (next _ _ (suc (depth k)) (suc (depth v)) room
                (item_bytes v ++ (pairs_bytes ps ++ rest)) (pairs_bytes ps ++ rest)
                (skip_item k room (item_bytes v ++ (pairs_bytes ps ++ rest)) h.0)
                (skip_item v room (pairs_bytes ps ++ rest) h.1))
              (skip_pairs ps room rest h.2)))

-- `zf_cbor_skip` on an item that the encoder can write, whatever follows it: the item is stepped
-- over exactly, if its arrays and maps nest at most 16 levels deep, and refused if they nest deeper.
pub skip-item_bytes :
    (x : Item) (rest : Cursor)
    → IsEncodable x
    → skip (item_bytes x ++ rest) ≡ (if leb (depth x) 16 then some rest else none)
unfolding skip outcome
skip-item_bytes x rest h = skip_item x 17 rest h ∙ ground arith
