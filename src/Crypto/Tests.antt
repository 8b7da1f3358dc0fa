-- ===== src/Crypto/Tests.antt =====
-- Published vectors, and the theorems at small inputs.
use zerofido.Base.{ℕ, ◌≡◌, ◌≤◌, refl, some, List, [], ◌∷◌, ◌++◌, arith, replicate, length, be_bytes}
use zerofido.Base.Memory.{write_at}
use zerofido.Crypto.Sha256.{
  rotr, load_be32, extend, load_words, round, rounds, compress, first_working, add_working,
  transform, take_chunk, update_loop, init, update, finish, store_words,
}
use zerofido.Crypto.Standard.{digest}
use zerofido.Crypto.Sha256.Finish.{update_all, concat, finish-update_all}
use zerofido.Crypto.Hmac.{key_block, hmac_sha256_parts, hmac, hmac_sha256_parts-hmac}
use zerofido.Crypto.Der.{encode_signature, decode_signature}
use zerofido.Crypto.Der.RoundTrip.{decode_signature-encode_signature}

-- "abc"
abbrev abc : List ℕ
abc = 0x61 ∷ 0x62 ∷ 0x63 ∷ []

-- FIPS 180-2, appendix B.1
sha256_abc :
    finish (update init abc)
    ≡ be_bytes 4 0xba7816bf
      ++ (be_bytes 4 0x8f01cfea
          ++ (be_bytes 4 0x414140de
              ++ (be_bytes 4 0x5dae2223
                  ++ (be_bytes 4 0xb00361a3
                      ++ (be_bytes 4 0x96177a9c
                          ++ (be_bytes 4 0xb410ff61 ++ be_bytes 4 0xf20015ad))))))
unfolding finish update update_loop take_chunk transform compress first_working add_working rounds
    round load_words load_be32 extend rotr store_words write_at be_bytes
sha256_abc = refl

-- RFC 4231, test case 1: "Hi There" in two parts
hmac_hi_there :
    hmac_sha256_parts
      (replicate 20 0x0b)
      (0x48 ∷ 0x69 ∷ [])
      (0x20 ∷ 0x54 ∷ 0x68 ∷ 0x65 ∷ 0x72 ∷ 0x65 ∷ [])
    ≡ be_bytes 4 0xb0344c61
      ++ (be_bytes 4 0xd8db3853
          ++ (be_bytes 4 0x5ca8afce
              ++ (be_bytes 4 0xaf0bf12b
                  ++ (be_bytes 4 0x881dc200
                      ++ (be_bytes 4 0xc9833da7
                          ++ (be_bytes 4 0x26e9376c ++ be_bytes 4 0x2e32cff7))))))
unfolding hmac_sha256_parts key_block finish update update_loop take_chunk transform compress
    first_working add_working rounds round load_words load_be32 extend rotr store_words write_at
    be_bytes
hmac_hi_there = refl

abbrev pieces : List (List ℕ)
pieces = replicate 60 7 ∷ abc ∷ [] ∷ replicate 130 9 ∷ []

finish-update_all_example : finish (update_all init pieces) ≡ digest (concat pieces)
finish-update_all_example = finish-update_all pieces

hmac_sha256_parts-hmac_example :
    hmac_sha256_parts (replicate 70 1) abc (2 ∷ []) ≡ hmac (replicate 70 1) (abc ++ 2 ∷ [])
hmac_sha256_parts-hmac_example = hmac_sha256_parts-hmac (replicate 70 1) abc (2 ∷ [])

-- One number with its high bit set, one with zeros in front.
abbrev some_r : List ℕ
some_r = replicate 32 0x91

abbrev some_s : List ℕ
some_s = replicate 3 0 ++ replicate 29 0x42

decode_signature-encode_signature_example :
    (out : List ℕ) × (encode_signature 72 some_r some_s ≡ some out)
    × (length out ≤ 72)
    × (decode_signature (out ++ 5 ∷ []) ≡ some (some_r ++ some_s))
decode_signature-encode_signature_example =
    decode_signature-encode_signature 72 some_r some_s (5 ∷ []) refl refl (omega arith)
