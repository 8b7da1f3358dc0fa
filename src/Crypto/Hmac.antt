-- ===== src/Crypto/Hmac.antt =====
-- crypto/hmac_sha256.c, against HMAC and the first block of HKDF as their standards define them.
use zerofido.Base.{
  ℕ, zero, suc, ◌+◌, ◌-◌, ◌≡◌, refl, ap, ◌∙◌, true, Option, none, some, List, [], ◌∷◌, ◌++◌, arith,
  append_assoc, append-nil, ltb, inl, inr, Bool-cases, if◌then◌else◌, if_true, length, drop,
  replicate,
}
use zerofido.Base.Memory.{write_at}
use zerofido.Crypto.Sha256.{Context, block_len, init, update, finish}
use zerofido.Crypto.Standard.{digest}
use zerofido.Crypto.Sha256.Digest.{Holds, Holds-init, update-Holds}
use zerofido.Crypto.Sha256.Finish.{finish-Holds}
use Prim.Native.Nat.{bit_xor}
use mathlib.Core.List.{map}

-- The key, hashed if it is longer than a block, at the front of a block of zeros.
unfoldable pub key_block : List ℕ → List ℕ
key_block key =
    if ltb block_len (length key)
    then write_at 0 (finish (update init key)) (replicate block_len 0)
    else if ltb 0 (length key)
    then write_at 0 key (replicate block_len 0)
    else replicate block_len 0

abbrev pub xor_all : ℕ → List ℕ → List ℕ
xor_all mask = map (λ b. bit_xor b mask)

-- `if (size > 0) zf_sha256_update(sha, part, size)`
abbrev pub update_part : Context → List ℕ → Context
update_part sha part = if ltb 0 (length part) then update sha part else sha

unfoldable pub hmac_sha256_parts : List ℕ → List ℕ → List ℕ → List ℕ
hmac_sha256_parts key first second =
    let block = key_block key in
    let inner = update init (xor_all 0x36 block) in
    let inner_hash = finish (update_part (update_part inner first) second) in
    finish (update (update init (xor_all 0x5c block)) inner_hash)

unfoldable pub hmac_sha256 : List ℕ → List ℕ → List ℕ
hmac_sha256 key message = hmac_sha256_parts key message []

-- `none` where the info and its counter do not fit the buffer.
unfoldable pub hkdf_sha256 : List ℕ → List ℕ → List ℕ → Option (List ℕ)
hkdf_sha256 salt ikm info =
    if ltb 64 (length info + 1)
    then none
    else (let prk = hmac_sha256 salt ikm in some (hmac_sha256 prk (info ++ 1 ∷ [])))

-- The key of HMAC, filled up with zeros to a block.
abbrev padded_key : List ℕ → List ℕ
padded_key key =
    let short = if ltb block_len (length key) then digest key else key in
    short ++ replicate (block_len - length short) 0

-- HMAC: H((K ⊕ opad) ‖ H((K ⊕ ipad) ‖ message)).
unfoldable pub hmac : List ℕ → List ℕ → List ℕ
hmac key message =
    digest (xor_all 0x5c (padded_key key) ++ digest (xor_all 0x36 (padded_key key) ++ message))

hash_one : (message : List ℕ) → finish (update init message) ≡ digest message
hash_one message =
    finish-Holds (update init message) message (update-Holds init [] message Holds-init)

hash_two : (a b : List ℕ) → finish (update (update init a) b) ≡ digest (a ++ b)
hash_two a b =
    finish-Holds (update (update init a) b) (a ++ b)
      (update-Holds (update init a) a b (update-Holds init [] a Holds-init))

pub update_part-Holds :
    (ctx : Context) (message part : List ℕ)
    → Holds ctx message
    → Holds (update_part ctx part) (message ++ part)
update_part-Holds ctx message [] h = rw (append-nil message) h
update_part-Holds ctx message (b ∷ part) h =
    let on : ltb 0 (length (b ∷ part)) ≡ true = ground arith in
    rw on (update-Holds ctx message (b ∷ part) h)

drop-replicate : (n k j x : ℕ) → j ≡ k - n → drop n (replicate k x) ≡ replicate j x
drop-replicate zero k j x h = let e : k ≡ j = omega arith in ap (λ t. replicate t x) e
drop-replicate (suc n) zero zero x h = refl
drop-replicate (suc n) zero (suc j) x h = absurd (omega arith)
drop-replicate (suc n) (suc k) j x h = drop-replicate n k j x (omega arith)

placed :
    (k : List ℕ) → write_at 0 k (replicate block_len 0) ≡ k ++ replicate (block_len - length k) 0
unfolding write_at
placed k =
    ap (λ t. k ++ t)
      (drop-replicate (0 + length k) block_len (block_len - length k) 0 (omega arith))

placed_short :
    (key : List ℕ)
    → (if ltb 0 (length key) then write_at 0 key (replicate block_len 0) else replicate block_len 0)
      ≡ key ++ replicate (block_len - length key) 0
placed_short [] = refl
placed_short (b ∷ key) =
    if_true (replicate block_len 0) (ltb 0 (length (b ∷ key))) (ground arith) (placed (b ∷ key))

key_block_lem : (key : List ℕ) → key_block key ≡ padded_key key
unfolding key_block
key_block_lem key = elim (Bool-cases (ltb block_len (length key))) [
  | inl long ↦ rw long (rw (hash_one key) (placed (digest key)))
  | inr short ↦ rw short (placed_short key)
]

-- The keyed hash of a message in two parts is HMAC-SHA-256 of the whole, whatever the key's length.
pub hmac_sha256_parts-hmac :
    (key first second : List ℕ) → hmac_sha256_parts key first second ≡ hmac key (first ++ second)
unfolding hmac_sha256_parts hmac
hmac_sha256_parts-hmac key first second =
    let block = key_block key in
    let inner = xor_all 0x36 block in
    let started = update-Holds init [] inner Holds-init in
    let one = update_part-Holds (update init inner) inner first started in
    let two =
      update_part-Holds (update_part (update init inner) first) (inner ++ first) second one in
    hash_two (xor_all 0x5c block) _
    ∙ ap (λ t. digest (xor_all 0x5c block ++ t))
        (finish-Holds _ ((inner ++ first) ++ second) two
          ∙ ap digest (append_assoc inner first second))
    ∙ ap (λ t. digest (xor_all 0x5c t ++ digest (xor_all 0x36 t ++ (first ++ second))))
        (key_block_lem key)

-- A key is derived exactly if the info has at most 63 bytes; it is the first block of HKDF-SHA-256.
pub hkdf_sha256-hkdf :
    (salt ikm info : List ℕ)
    → hkdf_sha256 salt ikm info
      ≡ (if ltb 63 (length info) then none else some (hmac (hmac salt ikm) (info ++ 1 ∷ [])))
unfolding hkdf_sha256 hmac_sha256
hkdf_sha256-hkdf salt ikm info =
    let t : ltb 64 (length info + 1) ≡ ltb 63 (length info) = ground arith in
    rw
      (
        t,
        hmac_sha256_parts-hmac salt ikm [],
        append-nil ikm,
        hmac_sha256_parts-hmac (hmac salt ikm) (info ++ 1 ∷ []) [],
        append-nil (info ++ 1 ∷ []),
      )
      refl
