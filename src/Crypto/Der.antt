-- ===== src/Crypto/Der.antt =====
-- crypto/ecdsa_der.c: ECDSA signatures as DER sequences of two integers, there and back.
pub mod RoundTrip
use zerofido.Base.{
  ℕ, zero, suc, ◌+◌, ◌-◌, ◌*◌, ◌/◌, ◌%◌, ◌^◌, Bool, true, false, ◌&&◌, ◌||◌, Option, none, some,
  List, [], ◌∷◌, ◌++◌, ltb, leb, ◌==◌, ◌!=◌, if◌then◌else◌, length, take, drop, replicate, u8,
}
use zerofido.Base.Partial.{◌>>=◌}

abbrev pub public_key_len : ℕ
public_key_len = 32

-- `value & 0x80`
abbrev pub high_bit : ℕ → Bool
high_bit byte = byte / 0x80 % 2 == 1

-- The leading zeros go, but for the last byte.
unfoldable pub skip_zeros : List ℕ → List ℕ
skip_zeros [] = []
skip_zeros (byte ∷ []) = byte ∷ []
skip_zeros (byte ∷ next ∷ value) =
    if byte == 0 then skip_zeros (next ∷ value) else byte ∷ next ∷ value

-- The content of an integer: a zero in front of a first byte with its high bit set.
abbrev pub int_content : List ℕ → List ℕ
int_content [] = []
int_content (byte ∷ value) = if high_bit byte then 0 ∷ byte ∷ value else byte ∷ value

unfoldable pub der_encode_int : List ℕ → List ℕ
der_encode_int value =
    let content = int_content (skip_zeros value) in 0x02 ∷ u8 (length content) ∷ content

-- `none` where the code returns 0.
unfoldable pub encode_signature : ℕ → List ℕ → List ℕ → Option (List ℕ)
encode_signature capacity r s =
    let tmp = der_encode_int r ++ der_encode_int s in
    if ltb capacity (2 + length tmp) then none else some (0x30 ∷ u8 (length tmp) ∷ tmp)

abbrev size_mod : ℕ
size_mod = 2 ^ 64

unfoldable pub read_length : ℕ → ℕ → List ℕ → ℕ
read_length zero acc input = acc
read_length (suc octets) acc [] = acc
read_length (suc octets) acc (byte ∷ input) =
    read_length octets ((acc * 256 + byte) % size_mod) input

-- The lengths of the header and of the value.
unfoldable pub der_decode_length : List ℕ → Option (ℕ × ℕ)
der_decode_length [] = none
der_decode_length (tag ∷ []) = none
der_decode_length (tag ∷ first ∷ input) =
    if high_bit first
    then (let octets = first % 0x80 in
        let len = read_length octets 0 input in
        if octets == 0 || ltb 8 octets || ltb (length input) octets
        then none
        else if leb len (length input - octets)
        then some (2 + octets, len)
        else none)
    else if leb first (length input)
    then some (2, first)
    else none

-- Leading zeros of a value that is too long go.
unfoldable pub trim : List ℕ → List ℕ
trim [] = []
trim (byte ∷ value) =
    if ltb public_key_len (length (byte ∷ value)) && byte == 0 then trim value else byte ∷ value

-- The number of bytes that are consumed, and the integer in 32 bytes.
unfoldable pub der_decode_int_fixed : List ℕ → Option (ℕ × List ℕ)
der_decode_int_fixed [] = none
der_decode_int_fixed (tag ∷ input) = do
  (header_len, value_len) ← if tag == 0x02 then der_decode_length (tag ∷ input) else none
  let value = trim (take value_len (drop header_len (tag ∷ input)))
  if value_len == 0 || ltb public_key_len (length value)
      then none
      else some (header_len + value_len, replicate (public_key_len - length value) 0 ++ value)

unfoldable pub decode_signature : List ℕ → Option (List ℕ)
decode_signature [] = none
decode_signature (tag ∷ signature) = do
  (seq_header_len, seq_len) ← if tag == 0x30 then der_decode_length (tag ∷ signature) else none
  let offset = seq_header_len
  (consumed, r) ← der_decode_int_fixed (drop offset (tag ∷ signature))
  let offset = offset + consumed
  (consumed, s) ← der_decode_int_fixed (drop offset (tag ∷ signature))
  let offset = offset + consumed
  if offset == seq_header_len + seq_len then some (r ++ s) else none
