-- ===== src/Ctap/Parse/Cose.antt =====
-- `zf_ctap_cbor_read_bytes_copy` and `zf_ctap_parse_cose_p256_key_agreement` of ctap/parse/shared.c.
pub mod RoundTrip
pub mod Inverse
pub mod Entry
pub mod Sound
use zerofido.Base.{
  ℕ, zero, suc, Bool, true, false, not, ◌&&◌, ◌||◌, Option, none, some, List, ltb, ◌==◌, ◌!=◌,
  if◌then◌else◌, length, replicate,
}
use zerofido.Base.Partial.{◌>>=◌}
use zerofido.Base.Int.{ℤ, pos, negsuc}
use zerofido.Cbor.Decode.{Cursor, read_int, read_bytes_ptr, read_map_start}

abbrev pub public_key_len : ℕ
public_key_len = 32

abbrev pub is_int : ℤ → ℤ → Bool
is_int (pos m) (pos n) = m == n
is_int (pos m) (negsuc n) = false
is_int (negsuc m) (pos n) = false
is_int (negsuc m) (negsuc n) = m == n

unfoldable pub read_bytes_copy : ℕ → Cursor → Option (List ℕ × Cursor)
read_bytes_copy out_capacity cursor = do
  (content, c) ← read_bytes_ptr cursor
  if ltb out_capacity (length content) then none else some (content, c)

-- The variables of the function: what was seen, and the coordinates.
pub record CoseKey : Type 0 where
  pub saw_kty : Bool
  pub saw_alg : Bool
  pub saw_crv : Bool
  pub saw_x : Bool
  pub saw_y : Bool
  pub x : List ℕ
  pub y : List ℕ

-- The next integer, if it is the one that is asked for.
unfoldable pub expect_int : ℤ → Cursor → Option Cursor
expect_int wanted cursor = do
  (value, c) ← read_int cursor
  if is_int value wanted then some c else none

unfoldable pub read_coordinate : Cursor → Option (List ℕ × Cursor)
read_coordinate cursor = do
  (content, c) ← read_bytes_copy public_key_len cursor
  if length content != public_key_len then none else some (content, c)

-- The `switch` on the key of a pair.
unfoldable pub cose_value : ℤ → CoseKey → Cursor → Option (CoseKey × Cursor)
cose_value key k cursor =
    if is_int key (pos 1)
    then (if k.saw_kty
        then none
        else do c ← expect_int (pos 2) cursor; some (record k { saw_kty = true }, c))
    else if is_int key (pos 3)
    then (if k.saw_alg
        then none
        else do c ← expect_int (negsuc 24) cursor; some (record k { saw_alg = true }, c))
    else if is_int key (negsuc 0)
    then (if k.saw_crv
        then none
        else do c ← expect_int (pos 1) cursor; some (record k { saw_crv = true }, c))
    else if is_int key (negsuc 1)
    then (if k.saw_x then none else do
      (content, c) ← read_coordinate cursor
      some (record k { saw_x = true; x = content }, c))
    else if is_int key (negsuc 2)
    then (if k.saw_y then none else do
      (content, c) ← read_coordinate cursor
      some (record k { saw_y = true; y = content }, c))
    else none

unfoldable pub cose_pair : CoseKey → Cursor → Option (CoseKey × Cursor)
cose_pair k cursor = do (key, c) ← read_int cursor; cose_value key k c

unfoldable pub cose_pairs : ℕ → CoseKey → Cursor → Option (CoseKey × Cursor)
cose_pairs zero k c = some (k, c)
cose_pairs (suc pairs) k c = do (k', c') ← cose_pair k c; cose_pairs pairs k' c'

abbrev pub no_key : CoseKey
no_key = record {
  saw_kty = false;
  saw_alg = false;
  saw_crv = false;
  saw_x = false;
  saw_y = false;
  x = replicate public_key_len 0;
  y = replicate public_key_len 0;
}

-- The coordinates and the cursor behind the key, or `none` where the code returns false; what it has
-- written to the coordinates by then is not used.
unfoldable pub parse_cose_p256_key_agreement : Cursor → Option (List ℕ × List ℕ × Cursor)
parse_cose_p256_key_agreement cursor = do
  (pairs, c) ← read_map_start cursor
  (k, c') ← cose_pairs pairs no_key c
  if k.saw_kty && k.saw_alg && k.saw_crv && k.saw_x && k.saw_y then some (k.x, k.y, c') else none
