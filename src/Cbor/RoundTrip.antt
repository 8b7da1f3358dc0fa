-- ===== src/Cbor/RoundTrip.antt =====
-- What the encoder's calls write, the readers read back.
use zerofido.Base.{
  ℕ, ◌^◌, ◌<◌, ◌≡◌, refl, Bool, true, false, none, some, List, ◌∷◌, ◌++◌, append_assoc, arith,
  length, length-append, take-append, drop-append, if◌then◌else◌,
}
use zerofido.Base.Int.{ℤ, pos, negsuc, IsI64}
use zerofido.Cbor.Utf8.{utf8_is_valid}
use zerofido.Cbor.Encode.{head_bytes}
use zerofido.Cbor.Encode.Writes.{int_bytes, string_bytes}
use zerofido.Cbor.Decode.{
  read_uint, read_int, read_bool, read_bytes_ptr, read_text_ptr, read_map_start, read_array_start,
}
use zerofido.Cbor.Head.{read_head-head_bytes}

pub read_uint-head_bytes :
    (n : ℕ) (rest : List ℕ) → n < 2 ^ 64 → read_uint (head_bytes 0 n ++ rest) ≡ some (n, rest)
unfolding read_uint
read_uint-head_bytes n rest h = rw (read_head-head_bytes 0 n rest (omega arith) h)

-- Every `int64_t` that is written reads back.
pub read_int-int_bytes :
    (z : ℤ) (rest : List ℕ) → IsI64 z → read_int (int_bytes z ++ rest) ≡ some (z, rest)
unfolding read_int
read_int-int_bytes (pos n) rest h =
    rw (read_head-head_bytes 0 n rest (omega arith) (omega arith)) (ground arith)
read_int-int_bytes (negsuc n) rest h =
    rw (read_head-head_bytes 1 n rest (omega arith) (omega arith)) (ground arith)

pub read_bool-bool_byte :
    (b : Bool) (rest : List ℕ) → read_bool ((if b then 0xf5 else 0xf4) ∷ rest) ≡ some (b, rest)
unfolding read_bool
read_bool-bool_byte true rest = refl
read_bool-bool_byte false rest = refl

pub read_map_start-head_bytes :
    (n : ℕ) (rest : List ℕ) → n < 2 ^ 64 → read_map_start (head_bytes 5 n ++ rest) ≡ some (n, rest)
unfolding read_map_start
read_map_start-head_bytes n rest h =
    rw (read_head-head_bytes 5 n rest (omega arith) h) (ground arith)

pub read_array_start-head_bytes :
    (n : ℕ) (rest : List ℕ)
    → n < 2 ^ 64
    → read_array_start (head_bytes 4 n ++ rest) ≡ some (n, rest)
unfolding read_array_start
read_array_start-head_bytes n rest h =
    rw (read_head-head_bytes 4 n rest (omega arith) h) (ground arith)

pub read_bytes_ptr-string_bytes :
    (s rest : List ℕ)
    → length s < 2 ^ 64
    → read_bytes_ptr (string_bytes 2 s ++ rest) ≡ some (s, rest)
unfolding read_bytes_ptr
read_bytes_ptr-string_bytes s rest h =
    rw (append_assoc, read_head-head_bytes 2 (length s) (s ++ rest) (omega arith) h)
      (ground (arith, length-append s rest, take-append s rest, drop-append s rest))

-- A text reads back exactly when it is valid UTF-8.
pub read_text_ptr-string_bytes :
    (s rest : List ℕ)
    → length s < 2 ^ 64
    → read_text_ptr (string_bytes 3 s ++ rest) ≡ (if utf8_is_valid s then some (s, rest) else none)
unfolding read_text_ptr
read_text_ptr-string_bytes s rest h =
    rw (append_assoc, read_head-head_bytes 3 (length s) (s ++ rest) (omega arith) h)
      (ground (arith, length-append s rest, take-append s rest, drop-append s rest))

-- An int64_t, a Boolean, a byte string and a text shorter than 2^64 that are written read back, and
-- what stands behind them is left; the text exactly if it is valid UTF-8.
pub readers-encodings :
    (z : ℤ) (b : Bool) (s rest : List ℕ)
    → IsI64 z
    → length s < 2 ^ 64
    → (read_int (int_bytes z ++ rest) ≡ some (z, rest))
      × (read_bool ((if b then 0xf5 else 0xf4) ∷ rest) ≡ some (b, rest))
      × (read_bytes_ptr (string_bytes 2 s ++ rest) ≡ some (s, rest))
      × (read_text_ptr (string_bytes 3 s ++ rest)
          ≡ (if utf8_is_valid s then some (s, rest) else none))
readers-encodings z b s rest small short = (
  read_int-int_bytes z rest small,
  read_bool-bool_byte b rest,
  read_bytes_ptr-string_bytes s rest short,
  read_text_ptr-string_bytes s rest short,
)
