-- ===== src/Cbor/Decode.antt =====
-- The readers of zerofido_cbor.c. A cursor is the list of the bytes between `ptr` and `end`. A
-- reader returns its value and the cursor behind it, or `none` where the code returns false.
use zerofido.Base.{
  ℕ, ◌+◌, ◌*◌, ◌/◌, ◌%◌, Bool, true, false, Option, none, some, List, [], ◌∷◌, ltb, leb, ◌==◌,
  if◌then◌else◌, length, take, drop, read_be,
}
use zerofido.Base.Partial.{◌>>=◌}
use zerofido.Base.Int.{ℤ, pos, negsuc}
use zerofido.Cbor.Utf8.{utf8_is_valid}

abbrev pub Cursor : Type 0
Cursor = List ℕ

-- `remaining < n`, the big-endian number, and the test for its shortest form.
abbrev pub read_argument : (ℕ → Bool) → ℕ → ℕ → Cursor → Option (ℕ × ℕ × Cursor)
read_argument shortest width major c = do
  (value, rest) ← read_be width 0 c
  if shortest value then some (major, value, rest) else none

-- The lead byte's top three bits are the major type; the low five say where the argument is.
unfoldable pub read_head : Cursor → Option (ℕ × ℕ × Cursor)
read_head [] = none
read_head (byte ∷ c) =
    let major = byte / 32 in
    let info = byte % 32 in
    if ltb info 24
    then some (major, info, c)
    else if info == 24
    then read_argument (λ v. leb 24 v) 1 major c
    else if info == 25
    then read_argument (λ v. ltb 0xff v) 2 major c
    else if info == 26
    then read_argument (λ v. ltb 0xffff v) 4 major c
    else if info == 27
    then read_argument (λ v. ltb 0xffff_ffff v) 8 major c
    else none

abbrev pub int64_max : ℕ
int64_max = 0x7fff_ffff_ffff_ffff

-- `size_t` of the 64-bit host build; the Flipper's is 32 bits wide, which only narrows the readers.
abbrev pub size_max : ℕ
size_max = 0xffff_ffff_ffff_ffff

unfoldable pub read_uint : Cursor → Option (ℕ × Cursor)
read_uint cursor = do
  (major, value, c) ← read_head cursor
  if major == 0 then some (value, c) else none

unfoldable pub read_int : Cursor → Option (ℤ × Cursor)
read_int cursor = do
  (major, raw, c) ← read_head cursor
  if major == 0
      then (if ltb int64_max raw then none else some (pos raw, c))
      else if major == 1
      then (if ltb int64_max raw then none else some (negsuc raw, c))
      else none

unfoldable pub read_bool : Cursor → Option (Bool × Cursor)
read_bool [] = none
read_bool (byte ∷ c) =
    if byte == 7 * 32 + 20
    then some (false, c)
    else if byte == 7 * 32 + 21
    then some (true, c)
    else none

-- The pointer and the size that the code returns are the bytes that they delimit.
unfoldable pub read_bytes_ptr : Cursor → Option (List ℕ × Cursor)
read_bytes_ptr cursor = do
  (major, raw, c) ← read_head cursor
  if major == 2 then (if ltb (length c) raw then none else some (take raw c, drop raw c)) else none

unfoldable pub read_text_ptr : Cursor → Option (List ℕ × Cursor)
read_text_ptr cursor = do
  (major, raw, c) ← read_head cursor
  if major == 3
      then (if ltb (length c) raw
          then none
          else if utf8_is_valid (take raw c)
          then some (take raw c, drop raw c)
          else none)
      else none

unfoldable pub read_map_start : Cursor → Option (ℕ × Cursor)
read_map_start cursor = do
  (major, raw, c) ← read_head cursor
  if major == 5 then (if ltb size_max raw then none else some (raw, c)) else none

unfoldable pub read_array_start : Cursor → Option (ℕ × Cursor)
read_array_start cursor = do
  (major, raw, c) ← read_head cursor
  if major == 4 then (if ltb size_max raw then none else some (raw, c)) else none
