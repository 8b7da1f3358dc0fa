-- ===== src/Crypto/Sha256/Finish.antt =====
-- `zf_sha256_finish`: the padding, with and without a block of its own.
use zerofido.Base.{
  ℕ, zero, suc, ◌+◌, ◌-◌, ◌*◌, ◌/◌, ◌%◌, ◌^◌, ◌≤◌, ◌<◌, ◌≡◌, refl, sym, ap, ap₂, ◌∙◌, true, false,
  List, [], ◌∷◌, ◌++◌, arith, ltb, length, take, drop, replicate, length-append, length-drop,
  length-replicate, length-be_bytes, append_assoc, append-nil, be_bytes, be_bytes_mod,
}
use zerofido.Base.Memory.{take-front}
use zerofido.Base.Cuts.{drop-append_add, drop-append_le, take_all, take-replicate, replicate-append}
use native.Mathlib.Decide.{dec_lt}
use zerofido.Crypto.Sha256.{
  Context, block_len, initial_state, init, compress, update, store_words, finish,
}
use zerofido.Crypto.Sha256.Update.{blocks, View, length_pending}
use zerofido.Crypto.Sha256.Block.{
  initial_state-initial_hash, blocks-message_hash, store_words-output,
}
use zerofido.Crypto.Standard.{padding, digest}
use zerofido.Crypto.Sha256.Digest.{
  Holds, Holds-init, blocks_add, blocks-append, Absorbed-none, Absorbed-one, update-Absorbed,
  update-Holds, last_block,
}

-- A one bit and k.
abbrev marked : ℕ → List ℕ
marked k = 0x80 ∷ replicate k 0

length-marked : (k : ℕ) → length (marked k) ≡ suc k
length-marked k = ap suc (length-replicate k 0)

padding_short : (n r : ℕ) → n % 64 ≡ r → r < 56 → padding n ≡ marked (55 - r) ++ be_bytes 8 (n * 8)
unfolding padding
padding_short n r e h = let z : (119 - n % 64) % 64 ≡ 55 - r = omega arith in rw z refl

padding_long :
    (n r : ℕ)
    → n % 64 ≡ r
    → 55 < r
    → padding n ≡ marked (63 - r) ++ (replicate 56 0 ++ be_bytes 8 (n * 8))
unfolding padding
padding_long n r e h =
    let z : (119 - n % 64) % 64 ≡ 119 - r = omega arith in
    rw z (
      ap (λ t. 0x80 ∷ t)
        (ap (λ t. t ++ be_bytes 8 (n * 8))
            (sym (replicate-append (63 - r) 56 (119 - r) 0 (omega arith)))
          ∙ append_assoc (replicate (63 - r) 0) (replicate 56 0) _))

-- The digest, computed with the compression of the code.
digest-blocks :
    (message : List ℕ)
    → digest message
      ≡ store_words (
          blocks
            ((length message + 8) / 64 + 1)
            initial_state
            (message ++ padding (length message)))
unfolding digest
digest-blocks message =
    rw
      (
        ← initial_state-initial_hash,
        ← blocks-message_hash ((length message + 8) / 64 + 1) initial_state
            (message ++ padding (length message)),
      )
      (sym (store_words-output _))

-- What is left of the digest when whole blocks are taken off.
digest_rest :
    (message : List ℕ) (k j : ℕ)
    → block_len * k ≤ length message
    → (length message + 8) / 64 + 1 ≡ k + j
    → digest message
      ≡ store_words (
          blocks j
            (blocks k initial_state message)
            (drop (block_len * k) message ++ padding (length message)))
digest_rest message k j h e =
    digest-blocks message
    ∙ ap store_words (
        blocks_add k j _ initial_state (message ++ padding (length message)) e
        ∙ ap₂ (blocks j) (blocks-append k initial_state message _ h)
            (drop-append_le (block_len * k) message _ h))

take-marked : (n k : ℕ) → n ≡ suc k → k ≤ 63 → take n (marked 63) ≡ marked k
take-marked zero k h l = absurd (omega arith)
take-marked (suc n) k h l =
    let e : n ≡ k = omega arith in
    ap (λ t. 0x80 ∷ t) (take-replicate n 63 0 (omega arith) ∙ ap (λ t. replicate t 0) e)

module _ (ctx : Context) (state pending : List ℕ) (v : View ctx state pending) (n : ℕ)
    (counted : ctx.bit_count ≡ n * 8 % 2 ^ 64) (r : ℕ) (r_is : r ≡ length pending)
    (rem : n % 64 ≡ r) where
  bits : be_bytes 8 ctx.bit_count ≡ be_bytes 8 (n * 8)
  bits = ap (be_bytes 8) counted ∙ be_bytes_mod 8 (n * 8)

  finish_short : r < 56 → finish ctx ≡ store_words (blocks 1 state (pending ++ padding n))
  unfolding finish blocks
  finish_short h =
      let off : ltb 55 ctx.buffer_len ≡ false = ground (arith, length_pending v) in
      let cut : take (56 - ctx.buffer_len) (marked 63) ≡ marked (55 - r) =
        take-marked (56 - ctx.buffer_len) (55 - r) (omega (arith, length_pending v))
          (omega arith) in
      let size : length (pending ++ marked (55 - r)) ≡ 56 =
        omega (arith, length-append pending (marked (55 - r)), length-marked (55 - r)) in
      let filled : View (update ctx (marked (55 - r))) state (pending ++ marked (55 - r)) =
        Absorbed-none (update-Absorbed ctx state pending (marked (55 - r)) v) (omega arith) in
      let whole : take block_len (pending ++ padding n)
          ≡ (pending ++ marked (55 - r)) ++ be_bytes 8 (n * 8) =
        rw (padding_short n r rem h, ← append_assoc pending (marked (55 - r)) (be_bytes 8 (n * 8)))
          (take_all block_len _ (
            omega (
              arith,
              size,
              length-be_bytes 8 (n * 8),
              length-append (pending ++ marked (55 - r)) (be_bytes 8 (n * 8)),
            ))) in
      rw (off, cut, whole)
        (ap store_words (
          last_block ctx.bit_count filled size
          ∙ ap (λ t. compress state ((pending ++ marked (55 - r)) ++ t)) bits))

  finish_long : 55 < r → finish ctx ≡ store_words (blocks 2 state (pending ++ padding n))
  unfolding finish blocks
  finish_long h =
      let on : ltb 55 ctx.buffer_len ≡ true = ground (arith, length_pending v) in
      let cut : take (block_len - ctx.buffer_len) (marked 63) ≡ marked (63 - r) =
        take-marked (block_len - ctx.buffer_len) (63 - r) (omega (arith, length_pending v, v.short))
          (omega arith) in
      let size : length (pending ++ marked (63 - r)) ≡ block_len = omega (
        arith,
        length-append pending (marked (63 - r)),
        length-marked (63 - r),
        length_pending v,
        v.short,
      ) in
      let filled : View (update ctx (marked (63 - r))) (compress state (pending ++ marked (63 - r)))
          [] =
        Absorbed-one (update-Absorbed ctx state pending (marked (63 - r)) v) size in
      let empty : (update ctx (marked (63 - r))).buffer_len ≡ 0 = sym (length_pending filled) in
      let zeros : List ℕ = replicate 56 0 in
      let cut_again : take (56 - (update ctx (marked (63 - r))).buffer_len) (replicate block_len 0)
          ≡ zeros =
        ap (λ t. take (56 - t) (replicate block_len 0)) empty in
      let spaced : View (update (update ctx (marked (63 - r))) zeros)
          (compress state (pending ++ marked (63 - r))) zeros =
        Absorbed-none (update-Absorbed _ _ [] zeros filled)
          (omega (arith, length-replicate {A = ℕ} 56 0)) in
      let split : pending ++ padding n
          ≡ (pending ++ marked (63 - r)) ++ (zeros ++ be_bytes 8 (n * 8)) =
        rw (padding_long n r rem h)
          (sym (append_assoc pending (marked (63 - r)) (zeros ++ be_bytes 8 (n * 8)))) in
      let front : take block_len (pending ++ padding n) ≡ pending ++ marked (63 - r) =
        rw split (take-front _ block_len (sym size)) in
      let behind : drop block_len (pending ++ padding n) ≡ zeros ++ be_bytes 8 (n * 8) =
        rw split
          (drop-append_add block_len 0 (pending ++ marked (63 - r)) _ (omega (arith, size))) in
      let last : take block_len (zeros ++ be_bytes 8 (n * 8)) ≡ zeros ++ be_bytes 8 (n * 8) =
        take_all block_len _
          (omega (arith, length-append zeros (be_bytes 8 (n * 8)), length-be_bytes 8 (n * 8))) in
      rw (on, cut, cut_again, front, behind, last)
        (ap store_words (
          last_block ctx.bit_count spaced refl
          ∙ ap (λ t. compress (compress state (pending ++ marked (63 - r))) (zeros ++ t)) bits))

-- The digest of what the context stands for.
pub finish-Holds :
    (ctx : Context) (message : List ℕ) → Holds ctx message → finish ctx ≡ digest message
finish-Holds ctx message h =
    let k = h.absorbed.count in
    let v = h.absorbed.view in
    let n = length message in
    let pending = drop (block_len * k) message in
    let len : length pending ≡ n - block_len * k = length-drop (block_len * k) message in
    elim (dec_lt (length pending) 56) [
      | yes a ↦
          finish_short ctx _ pending v n h.counted (length pending) refl
            (omega (arith, length_pending v, v.short, h.absorbed.within, len)) a
          ∙ sym (digest_rest message k 1 h.absorbed.within (omega (arith, h.absorbed.within, len)))
      | no a ↦
          finish_long ctx _ pending v n h.counted (length pending) refl
            (omega (arith, length_pending v, v.short, h.absorbed.within, len)) (omega arith)
          ∙ sym (
              digest_rest message k 2 h.absorbed.within
                (omega (arith, length_pending v, v.short, h.absorbed.within, len)))
    ]

-- The pieces of a message, one call of `zf_sha256_update` for each.
abbrev pub update_all : Context → List (List ℕ) → Context
update_all ctx [] = ctx
update_all ctx (piece ∷ pieces) = update_all (update ctx piece) pieces

abbrev pub concat : List (List ℕ) → List ℕ
concat [] = []
concat (piece ∷ pieces) = piece ++ concat pieces

update_all-Holds :
    (ctx : Context) (message : List ℕ) (pieces : List (List ℕ))
    → Holds ctx message
    → Holds (update_all ctx pieces) (message ++ concat pieces)
update_all-Holds ctx message [] h = rw (append-nil message) h
update_all-Holds ctx message (piece ∷ pieces) h =
    rw (← append_assoc message piece (concat pieces)) (
      update_all-Holds (update ctx piece) (message ++ piece) pieces
        (update-Holds ctx message piece h))

-- Whatever pieces a message is hashed in, the result is the SHA-256 digest of the whole message, as
-- FIPS 180-4 defines it (`Crypto.Standard`): its constants from the roots of primes, its functions,
-- message schedule and steps, and its padding with the bit count modulo 2 ^ 64.
pub finish-update_all :
    (pieces : List (List ℕ)) → finish (update_all init pieces) ≡ digest (concat pieces)
finish-update_all pieces =
    finish-Holds (update_all init pieces) (concat pieces)
      (update_all-Holds init [] pieces Holds-init)
