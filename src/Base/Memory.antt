-- ===== src/Base/Memory.antt =====
-- `memcpy` into a buffer.
use zerofido.Base.Lists.{length, take, drop, length-append, length-take, length-drop, take-append}
use Prim.Native.Nat.{ℕ, ◌+◌, ◌≤◌}
use mathlib.Core.Path.{◌≡◌, sym, ap, ◌∙◌}
use mathlib.Core.List.{List, ◌++◌, append_assoc}
use native.Mathlib.Omega.{arith}

-- `memcpy(&payload[offset], chunk, size)`
unfoldable pub write_at : ℕ → List ℕ → List ℕ → List ℕ
write_at offset chunk payload =
    take offset payload ++ (chunk ++ drop (offset + length chunk) payload)

pub length-write_at :
    (offset : ℕ) (chunk payload : List ℕ)
    → offset + length chunk ≤ length payload
    → length (write_at offset chunk payload) ≡ length payload
unfolding write_at
length-write_at offset chunk payload h = omega (
  arith,
  length-append (take offset payload) (chunk ++ drop (offset + length chunk) payload),
  length-append chunk (drop (offset + length chunk) payload),
  length-take offset payload,
  length-drop (offset + length chunk) payload,
)

pub take-front : {a : List ℕ} (b : List ℕ) (n : ℕ) → n ≡ length a → take n (a ++ b) ≡ a
take-front {a} b n e = ap (λ t. take t (a ++ b)) e ∙ take-append a b

-- Behind a front of length `offset`, a chunk extends the front.
pub take-write_at :
    (offset : ℕ) (chunk buffer front : List ℕ)
    → take offset buffer ≡ front
    → offset ≤ length buffer
    → take (offset + length chunk) (write_at offset chunk buffer) ≡ front ++ chunk
unfolding write_at
take-write_at offset chunk buffer front e h =
    let len : offset ≡ length front = omega (arith, length-take offset buffer, ap length e) in
    rw e (
      ap (λ t. take (offset + length chunk) t) (sym (append_assoc front chunk _))
      ∙ take-front _ (offset + length chunk) (omega (arith, length-append front chunk)))
