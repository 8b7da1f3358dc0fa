-- ===== src/Ctap/Parse/Cose/RoundTrip.antt =====
-- The key that `zf_cbor_encode_p256_cose_key` writes is the key that the parser reads.
use zerofido.Base.{
  ℕ, suc, ◌+◌, ◌≤◌, be_bytes, length-append, ◌≡◌, refl, ◌∙◌, true, false, some, List, ◌++◌,
  append_assoc, arith, length, ltb, ◌!=◌,
}
use zerofido.Base.Int.{ℤ, pos, negsuc, IsI64}
use zerofido.Cbor.Encode.{Encoder, offset, head_bytes, encode_p256_cose_key}
use zerofido.Cbor.Encode.Writes.{
  push, int_bytes, string_bytes, cose_key_bytes, encode_p256_cose_key-Writes,
}
use zerofido.Cbor.Decode.{Cursor}
use zerofido.Cbor.RoundTrip.{
  read_int-int_bytes, read_bytes_ptr-string_bytes, read_map_start-head_bytes,
}
use zerofido.Ctap.Parse.Cose.{
  CoseKey, is_int, read_bytes_copy, expect_int, read_coordinate, cose_value, cose_pair, cose_pairs,
  no_key, parse_cose_p256_key_agreement, public_key_len,
}

pairs_step :
    (pairs : ℕ) (k k' : CoseKey) (c c' : Cursor)
    → cose_pair k c ≡ some (k', c')
    → cose_pairs (suc pairs) k c ≡ cose_pairs pairs k' c'
unfolding cose_pairs
pairs_step pairs k k' c c' e = rw e refl

pair_value :
    (key : ℤ) (k : CoseKey) (c : Cursor)
    → IsI64 key
    → cose_pair k (int_bytes key ++ c) ≡ cose_value key k c
unfolding cose_pair
pair_value key k c h = rw (read_int-int_bytes key c h) refl

expects :
    (wanted : ℤ) (c : Cursor)
    → IsI64 wanted
    → is_int wanted wanted ≡ true
    → expect_int wanted (int_bytes wanted ++ c) ≡ some c
unfolding expect_int
expects wanted c h e = rw (read_int-int_bytes wanted c h, e) refl

copies :
    (content : List ℕ) (c : Cursor)
    → length content ≡ 32
    → read_bytes_copy public_key_len (string_bytes 2 content ++ c) ≡ some (content, c)
unfolding read_bytes_copy
copies content c e =
    let fits : ltb public_key_len (length content) ≡ false = ground arith in
    rw (read_bytes_ptr-string_bytes content c (omega arith), fits) refl

coordinate :
    (content : List ℕ) (c : Cursor)
    → length content ≡ 32
    → read_coordinate (string_bytes 2 content ++ c) ≡ some (content, c)
unfolding read_coordinate
coordinate content c e =
    let exact : (length content != public_key_len) ≡ false = ground arith in
    rw (copies content c e, exact) refl

-- The five pairs of a key.
kty_pair :
    (k : CoseKey) (c : Cursor)
    → k.saw_kty ≡ false
    → cose_pair k (int_bytes (pos 1) ++ (int_bytes (pos 2) ++ c))
      ≡ some (record k { saw_kty = true }, c)
unfolding cose_value
kty_pair k c h =
    pair_value (pos 1) k _ (omega arith) ∙ rw (h, expects (pos 2) c (omega arith) refl) refl

alg_pair :
    (k : CoseKey) (c : Cursor)
    → k.saw_alg ≡ false
    → cose_pair k (int_bytes (pos 3) ++ (int_bytes (negsuc 24) ++ c))
      ≡ some (record k { saw_alg = true }, c)
unfolding cose_value
alg_pair k c h =
    pair_value (pos 3) k _ (omega arith) ∙ rw (h, expects (negsuc 24) c (omega arith) refl) refl

crv_pair :
    (k : CoseKey) (c : Cursor)
    → k.saw_crv ≡ false
    → cose_pair k (int_bytes (negsuc 0) ++ (int_bytes (pos 1) ++ c))
      ≡ some (record k { saw_crv = true }, c)
unfolding cose_value
crv_pair k c h =
    pair_value (negsuc 0) k _ (omega arith) ∙ rw (h, expects (pos 1) c (omega arith) refl) refl

x_pair :
    (k : CoseKey) (x : List ℕ) (c : Cursor)
    → k.saw_x ≡ false
    → length x ≡ 32
    → cose_pair k (int_bytes (negsuc 1) ++ (string_bytes 2 x ++ c))
      ≡ some (record k { saw_x = true; x = x }, c)
unfolding cose_value
x_pair k x c h e = pair_value (negsuc 1) k _ (omega arith) ∙ rw (h, coordinate x c e) refl

y_pair :
    (k : CoseKey) (y : List ℕ) (c : Cursor)
    → k.saw_y ≡ false
    → length y ≡ 32
    → cose_pair k (int_bytes (negsuc 2) ++ (string_bytes 2 y ++ c))
      ≡ some (record k { saw_y = true; y = y }, c)
unfolding cose_value
y_pair k y c h e = pair_value (negsuc 2) k _ (omega arith) ∙ rw (h, coordinate y c e) refl

-- What is behind the head of the map.
abbrev from_pairs : List ℕ → List ℕ → Cursor → Cursor
from_pairs x y rest =
    int_bytes (pos 1)
    ++ (int_bytes (pos 2)
        ++ (int_bytes (pos 3)
            ++ (int_bytes (negsuc 24)
                ++ (int_bytes (negsuc 0)
                    ++ (int_bytes (pos 1)
                        ++ (int_bytes (negsuc 1)
                            ++ (string_bytes 2 x
                                ++ (int_bytes (negsuc 2) ++ (string_bytes 2 y ++ rest)))))))))

cose_key_bytes-split :
    (x y : List ℕ) (rest : Cursor)
    → cose_key_bytes (negsuc 24) x y ++ rest ≡ head_bytes 5 5 ++ from_pairs x y rest
cose_key_bytes-split x y rest = simp append_assoc

all_pairs :
    (x y : List ℕ) (rest : Cursor)
    → length x ≡ 32
    → length y ≡ 32
    → cose_pairs 5 no_key (from_pairs x y rest)
      ≡ some (
        record {
          saw_kty = true;
          saw_alg = true;
          saw_crv = true;
          saw_x = true;
          saw_y = true;
          x = x;
          y = y;
        },
        rest,
      )
all_pairs x y rest h e =
    let k1 = record no_key { saw_kty = true } in
    let k2 = record k1 { saw_alg = true } in
    let k3 = record k2 { saw_crv = true } in
    let k4 = record k3 { saw_x = true; x = x } in
    pairs_step 4 no_key k1 _ _ (kty_pair no_key _ refl)
    ∙ pairs_step 3 k1 k2 _ _ (alg_pair k1 _ refl)
    ∙ pairs_step 2 k2 k3 _ _ (crv_pair k2 _ refl)
    ∙ pairs_step 1 k3 k4 _ _ (x_pair k3 x _ refl h)
    ∙ pairs_step 0 k4 (record k4 { saw_y = true; y = y }) _ rest (y_pair k4 y rest refl e)
    ∙ (unfold cose_pairs in refl)

parse-cose_key_bytes :
    (x y : List ℕ) (rest : Cursor)
    → length x ≡ 32
    → length y ≡ 32
    → parse_cose_p256_key_agreement (cose_key_bytes (negsuc 24) x y ++ rest) ≡ some (x, y, rest)
unfolding parse_cose_p256_key_agreement
parse-cose_key_bytes x y rest h e = rw (cose_key_bytes-split x y rest) (
    rw (read_map_start-head_bytes 5 (from_pairs x y rest) (omega arith), all_pairs x y rest h e)
      refl)

length-string_bytes : (s : List ℕ) → length s ≡ 32 → length (string_bytes 2 s) ≡ 34
unfolding head_bytes be_bytes
length-string_bytes s e =
    let head : length (head_bytes 2 (length s)) ≡ 2 = rw e refl in
    omega (arith, length-append (head_bytes 2 (length s)) s)

-- The bytes between the coordinates are few and fixed.
length-cose_key_bytes :
    (x y : List ℕ) → length x ≡ 32 → length y ≡ 32 → length (cose_key_bytes (negsuc 24) x y) ≡ 78
unfolding head_bytes be_bytes
length-cose_key_bytes x y h e =
    let first = length-string_bytes x h in
    let second = length-string_bytes y e in
    let tail = int_bytes (negsuc 2) ++ string_bytes 2 y in
    let both = length-append (string_bytes 2 x) tail in omega arith

-- The key-agreement key that `zf_cbor_encode_p256_cose_key` writes for the algorithm -25 and
-- coordinates of 32 bytes, where 78 bytes are left in the buffer, is what the parser reads, whatever
-- follows it.
pub encoded_key_parses :
    (x y : List ℕ) (rest : Cursor) (enc : Encoder)
    → length x ≡ 32
    → length y ≡ 32
    → offset enc + 78 ≤ enc.capacity
    → (bs : List ℕ) × (encode_p256_cose_key (negsuc 24) x y enc ≡ (true, push enc bs))
      × (parse_cose_p256_key_agreement (bs ++ rest) ≡ some (x, y, rest))
encoded_key_parses x y rest enc h e room = (
  cose_key_bytes (negsuc 24) x y,
  (encode_p256_cose_key-Writes (negsuc 24) x y).fits enc
      (omega (arith, length-cose_key_bytes x y h e)),
  parse-cose_key_bytes x y rest h e,
)
