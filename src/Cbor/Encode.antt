-- ===== src/Cbor/Encode.antt =====
-- The encoder of zerofido_cbor.c. `buf[0 .. offset)` is the list `written`, so `offset` is its
-- length; the bytes of the buffer behind it are never read. The pointers are taken to be non-null,
-- so the null guards have no counterpart. A `size_t` length is a number below 2 ^ 64.

pub mod Writes
pub mod Calls
use zerofido.Base.{
  ℕ, zero, suc, ◌+◌, ◌-◌, ◌*◌, ◌≤◌, Bool, true, false, ◌||◌, Option, none, some, List, [], ◌∷◌,
  ◌++◌, ltb, leb, ◌==◌, if◌then◌else◌, length, u8, be_bytes,
}
use zerofido.Base.Int.{ℤ, pos, negsuc}

pub record Encoder : Type 0 where
  pub capacity : ℕ
  pub written : List ℕ

abbrev pub offset : Encoder → ℕ
offset enc = length enc.written

unfoldable pub encoder_init : ℕ → Option Encoder
encoder_init capacity =
    if capacity == 0 then none else some (record { capacity = capacity; written = [] })

abbrev pub encoder_size : Encoder → ℕ
encoder_size enc = offset enc

-- `a && b` on calls that change the encoder: `b` runs only if `a` succeeded.
infixr 35 ◌&&>◌
abbrev pub ◌&&>◌ :
    (Encoder → Bool × Encoder) → (Encoder → Bool × Encoder) → Encoder → Bool × Encoder
◌&&>◌ a b enc = let (done, enc') = a enc in if done then b enc' else (false, enc')

unfoldable pub append : List ℕ → Encoder → Bool × Encoder
append chunk enc =
    if ltb enc.capacity (offset enc) || ltb (enc.capacity - offset enc) (length chunk)
    then (false, enc)
    else (true, record enc { written = enc.written ++ chunk })

-- The bytes that `zf_cbor_encode_head` collects in `head`.
unfoldable pub head_bytes : ℕ → ℕ → List ℕ
head_bytes major value =
    if ltb value 24
    then u8 (major * 32 + value) ∷ []
    else if leb value 0xff
    then u8 (major * 32 + 24) ∷ be_bytes 1 value
    else if leb value 0xffff
    then u8 (major * 32 + 25) ∷ be_bytes 2 value
    else if leb value 0xffff_ffff
    then u8 (major * 32 + 26) ∷ be_bytes 4 value
    else u8 (major * 32 + 27) ∷ be_bytes 8 value

unfoldable pub encode_head : ℕ → ℕ → Encoder → Bool × Encoder
encode_head major value = append (head_bytes major value)

unfoldable pub encode_uint : ℕ → Encoder → Bool × Encoder
encode_uint value = encode_head 0 value

-- `-1 - value` is `n` where `value` is -(n + 1).
unfoldable pub encode_int : ℤ → Encoder → Bool × Encoder
encode_int (pos n) = encode_head 0 n
encode_int (negsuc n) = encode_head 1 n

unfoldable pub encode_bool : Bool → Encoder → Bool × Encoder
encode_bool value = append ((7 * 32 + (if value then 21 else 20)) ∷ [])

-- `size == 0 || zf_cbor_append(enc, data, size)`
unfoldable pub append_content : List ℕ → Encoder → Bool × Encoder
append_content content enc = if length content == 0 then (true, enc) else append content enc

unfoldable pub encode_bytes : List ℕ → Encoder → Bool × Encoder
encode_bytes content = encode_head 2 (length content) &&> append_content content

unfoldable pub encode_text_n : List ℕ → Encoder → Bool × Encoder
encode_text_n content = encode_head 3 (length content) &&> append_content content

-- `strlen`: the bytes in front of the first zero.
unfoldable pub c_string : List ℕ → List ℕ
c_string [] = []
c_string (c ∷ s) = if c == 0 then [] else c ∷ c_string s

unfoldable pub encode_text : List ℕ → Encoder → Bool × Encoder
encode_text text = encode_text_n (c_string text)

-- `filling` is what the caller writes through `*out`; its length is `size`.
unfoldable pub reserve_bytes : List ℕ → Encoder → Bool × Encoder
reserve_bytes filling enc =
    let (done, enc') = encode_head 2 (length filling) enc in
    if done
    then (if ltb enc'.capacity (offset enc') || ltb (enc'.capacity - offset enc') (length filling)
        then (false, record enc' { written = enc.written })
        else (true, record enc' { written = enc'.written ++ filling }))
    else (false, enc')

unfoldable pub encode_map : ℕ → Encoder → Bool × Encoder
encode_map pairs = encode_head 5 pairs

unfoldable pub encode_array : ℕ → Encoder → Bool × Encoder
encode_array items = encode_head 4 items

unfoldable pub encode_p256_cose_key : ℤ → List ℕ → List ℕ → Encoder → Bool × Encoder
encode_p256_cose_key alg x y =
    encode_map 5
    &&> encode_int (pos 1)
    &&> encode_int (pos 2)
    &&> encode_int (pos 3)
    &&> encode_int alg
    &&> encode_int (negsuc 0)
    &&> encode_int (pos 1)
    &&> encode_int (negsuc 1)
    &&> encode_bytes x
    &&> encode_int (negsuc 2)
    &&> encode_bytes y
