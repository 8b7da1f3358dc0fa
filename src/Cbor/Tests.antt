-- ===== src/Cbor/Tests.antt =====
-- Runs of the codec of zerofido_cbor.c on small inputs.
use zerofido.Base.{
  ℕ, ◌^◌, ◌<◌, ◌≡◌, ◌↔◌, refl, true, false, none, some, List, [], ◌∷◌, ◌++◌, arith, length, All,
  leb, if◌then◌else◌, ◌+◌, ◌-◌, read_be,
}
use zerofido.Base.Int.{negsuc}
use zerofido.Cbor.Utf8.{utf8_step, utf8_loop, utf8_is_valid, utf8_of, utf8_text, IsScalar}
use zerofido.Cbor.Utf8.Scalars.{utf8_is_valid_iff}
use zerofido.Cbor.Encode.{Encoder, offset, head_bytes, reserve_bytes, c_string}
use zerofido.Cbor.Encode.Writes.{push, int_bytes, string_bytes}
use zerofido.Cbor.Encode.Calls.{
  Call, uint, int, text, map, perform_all, calls_bytes, AppendsOrFails, perform_all-AppendsOrFails,
  reserve_bytes_all_or_nothing,
}
use zerofido.Cbor.Decode.{read_bool, read_bytes_ptr}
use zerofido.Cbor.Decode.{read_head, read_int, read_text_ptr}
use zerofido.Cbor.Head.{read_head-head_bytes, read_head_canonical}
use zerofido.Cbor.RoundTrip.{readers-encodings}
use zerofido.Cbor.Item
use zerofido.Cbor.Item.{
  Item, item_bytes, IsEncodable, IsEncodableItems, IsEncodablePairs, count, pairs, depth,
}
use zerofido.Cbor.Skip.{skip, skip_inner, skip_read_head, skip_body, repeat}
use zerofido.Cbor.Skip.Items.{skip-item_bytes}
use zerofido.Cbor.Skip.Progress.{skip_front}
use zerofido.Cbor.Skip.Lenient.{form_bytes, skip_accepts_non_minimal}

-- "é€𝄞", in two, three and four bytes
abbrev code_points : List ℕ
code_points = 0xe9 ∷ 0x20ac ∷ 0x1_d11e ∷ []

abbrev in_utf8 : List ℕ
in_utf8 = 0xc3 ∷ 0xa9 ∷ 0xe2 ∷ 0x82 ∷ 0xac ∷ 0xf0 ∷ 0x9d ∷ 0x84 ∷ 0x9e ∷ []

utf8_text_is : utf8_text code_points ≡ in_utf8
unfolding utf8_text utf8_of
utf8_text_is = refl

-- an overlong slash and a surrogate
utf8_refuses :
    (utf8_is_valid (0xc0 ∷ 0xaf ∷ []) ≡ false) × (utf8_is_valid (0xed ∷ 0xa0 ∷ 0x80 ∷ []) ≡ false)
unfolding utf8_is_valid utf8_loop utf8_step
utf8_refuses = (refl, refl)

in_utf8_is_valid : utf8_is_valid in_utf8 ≡ true
unfolding utf8_is_valid utf8_loop utf8_step
in_utf8_is_valid = refl

utf8_is_valid_iff_example :
    (utf8_is_valid in_utf8 ≡ true) ↔ ((cs : List ℕ) × All IsScalar cs × (in_utf8 ≡ utf8_text cs))
utf8_is_valid_iff_example = utf8_is_valid_iff in_utf8

read_head-head_bytes_example : read_head (head_bytes 2 300 ++ 7 ∷ []) ≡ some (2, 300, 7 ∷ [])
read_head-head_bytes_example = read_head-head_bytes 2 300 (7 ∷ []) (omega arith) (omega arith)

-- the byte string head of 300, and a byte behind it
abbrev head_300 : List ℕ
head_300 = 0x59 ∷ 0x01 ∷ 0x2c ∷ 7 ∷ []

read_head-300 : read_head head_300 ≡ some (2, 300, 7 ∷ [])
unfolding read_head read_be
read_head-300 = refl

read_head_canonical_example : (2 < 8) × (300 < 2 ^ 64) × (head_300 ≡ head_bytes 2 300 ++ 7 ∷ [])
read_head_canonical_example = read_head_canonical head_300 (omega arith) read_head-300

abbrev buffer : ℕ → Encoder
buffer capacity = record { capacity = capacity; written = [] }

-- {1: "ok", 2: -7}
abbrev response : List Call
response = map 2 ∷ uint 1 ∷ text (0x6f ∷ 0x6b ∷ []) ∷ uint 2 ∷ int (negsuc 6) ∷ []

response_bytes : calls_bytes response ≡ 0xa2 ∷ 0x01 ∷ 0x62 ∷ 0x6f ∷ 0x6b ∷ 0x02 ∷ 0x26 ∷ []
unfolding head_bytes c_string
response_bytes = refl

response-length : length (calls_bytes response) ≡ 7
unfolding head_bytes c_string
response-length = refl

perform_all-AppendsOrFails_example :
    AppendsOrFails (buffer 6) (calls_bytes response) (perform_all response (buffer 6))
perform_all-AppendsOrFails_example = perform_all-AppendsOrFails response (buffer 6) (omega arith)

response_fits : perform_all response (buffer 7) ≡ (true, push (buffer 7) (calls_bytes response))
unfolding head_bytes c_string
response_fits = perform_all-AppendsOrFails response (buffer 7) (omega arith)

-- two bytes do not fit behind their head in a buffer of two
reserve_bytes_all_or_nothing_example : reserve_bytes (1 ∷ 2 ∷ []) (buffer 2) ≡ (
    if leb (offset (buffer 2) + length (string_bytes 2 (1 ∷ 2 ∷ []))) 2
    then (true, push (buffer 2) (string_bytes 2 (1 ∷ 2 ∷ [])))
    else (false, buffer 2))
reserve_bytes_all_or_nothing_example = reserve_bytes_all_or_nothing (1 ∷ 2 ∷ []) (buffer 2)

readers-encodings_example :
    (read_int (int_bytes (negsuc (2 ^ 63 - 1)) ++ 0 ∷ []) ≡ some (negsuc (2 ^ 63 - 1), 0 ∷ []))
    × (read_bool (0xf5 ∷ 0 ∷ []) ≡ some (true, 0 ∷ []))
    × (read_bytes_ptr (string_bytes 2 in_utf8 ++ 0 ∷ []) ≡ some (in_utf8, 0 ∷ []))
    × (read_text_ptr (string_bytes 3 in_utf8 ++ 0 ∷ [])
        ≡ (if utf8_is_valid in_utf8 then some (in_utf8, 0 ∷ []) else none))
readers-encodings_example =
    readers-encodings (negsuc (2 ^ 63 - 1)) true in_utf8 (0 ∷ []) (omega arith) (omega arith)

-- {1: [h'0a0b', true]}
abbrev nested : Item
nested = Item.map (
    Item.pair (Item.uint 1)
      (Item.array (Item.cons (Item.bytes (0x0a ∷ 0x0b ∷ [])) (Item.cons (Item.simple 21) Item.nil)))
      Item.empty)

nested-IsEncodable : IsEncodable nested
unfolding IsEncodable IsEncodableItems IsEncodablePairs count pairs
nested-IsEncodable = ground arith

skip-item_bytes_example :
    skip (item_bytes nested ++ 9 ∷ []) ≡ (if leb (depth nested) 16 then some (9 ∷ []) else none)
skip-item_bytes_example = skip-item_bytes nested (9 ∷ []) nested-IsEncodable

-- an array of two bytes strings, and a byte behind it
abbrev two_strings : List ℕ
two_strings = 0x82 ∷ 0x41 ∷ 0x0a ∷ 0x40 ∷ 9 ∷ []

skip-two_strings : skip two_strings ≡ some (9 ∷ [])
unfolding skip skip_inner skip_read_head skip_body repeat
skip-two_strings = refl

skip_front_example :
    (p : List ℕ) × (two_strings ≡ p ++ 9 ∷ []) × (0 < length p) × (skip (p ++ []) ≡ some [])
skip_front_example = skip_front two_strings [] skip-two_strings

skip_accepts_non_minimal_example :
    (read_head (form_bytes 1 1 5 ++ 9 ∷ []) ≡ none)
    × (skip (form_bytes 1 1 5 ++ 9 ∷ []) ≡ some (9 ∷ []))
skip_accepts_non_minimal_example =
    skip_accepts_non_minimal 1 1 5 (9 ∷ []) (omega arith) (omega arith) (omega arith)
