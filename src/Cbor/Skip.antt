-- ===== src/Cbor/Skip.antt =====
-- `zf_cbor_skip`: steps over one data item without a look at its contents.
pub mod Items
pub mod Lenient
pub mod Progress
use zerofido.Base.{
  ℕ, zero, suc, ◌/◌, ◌%◌, Bool, true, false, ◌||◌, Option, none, some, List, [], ◌∷◌, ltb, ◌==◌,
  if◌then◌else◌, length, drop, read_be,
}
use zerofido.Base.Partial.{◌>>=◌}
use zerofido.Cbor.Decode.{Cursor}

abbrev pub skip_argument : ℕ → ℕ → Cursor → Option (ℕ × ℕ × Cursor)
skip_argument width major c = do (value, rest) ← read_be width 0 c; some (major, value, rest)

unfoldable pub skip_read_head : Cursor → Option (ℕ × ℕ × Cursor)
skip_read_head [] = none
skip_read_head (byte ∷ c) =
    let info = byte % 32 in
    let major = byte / 32 in
    if ltb info 24
    then some (major, info, c)
    else if info == 24
    then skip_argument 1 major c
    else if info == 25
    then skip_argument 2 major c
    else if info == 26
    then skip_argument 4 major c
    else if info == 27
    then skip_argument 8 major c
    else none

-- `for (i = 0; i < raw; ++i) if (!item(cursor)) return false;`. The loop stops at the first item
-- that fails, so a count beyond the input costs no more than the input.
unfoldable pub repeat : (Cursor → Option Cursor) → ℕ → Cursor → Option Cursor
repeat item zero c = some c
repeat item (suc raw) c = item c >>= repeat item raw

-- The `switch` on the major type; `item` is the recursive call at `depth + 1`.
unfoldable pub skip_body : (Cursor → Option Cursor) → ℕ → ℕ → Cursor → Option Cursor
skip_body item major raw c =
    if major == 0 || major == 1
    then some c
    else if major == 7
    then (if raw == 31 then none else some c)
    else if major == 2 || major == 3
    then (if ltb (length c) raw then none else some (drop raw c))
    else if major == 4
    then repeat item raw c
    else if major == 5
    then repeat (λ c'. item c' >>= item) raw c
    else none

-- The first argument is the number of levels left, 17 - depth: at 0 the depth is beyond
-- ZF_CBOR_SKIP_DEPTH_LIMIT, which is 16.
unfoldable pub skip_inner : ℕ → Cursor → Option Cursor
skip_inner zero c = none
skip_inner (suc room) c = do
  (major, raw, rest) ← skip_read_head c
  skip_body (skip_inner room) major raw rest

unfoldable pub skip : Cursor → Option Cursor
skip c = skip_inner 17 c
