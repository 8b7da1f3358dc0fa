-- ===== src/Pin/Equal.antt =====
-- `zf_crypto_constant_time_equal` decides the equality of the first `size` bytes.
use zerofido.Base.{
  ℕ, zero, suc, ◌+◌, ◌*◌, ◌/◌, ◌%◌, ◌<◌, ◌≤◌, ◌≡◌, ◌↔◌, refl, ap₂, subst, Bool, true, ◌&&◌, not,
  List, [], ◌∷◌, arith, ◌==◌, ==_iff, ltb, length, take, All, IsByte, if◌then◌else◌,
}
use zerofido.Base.Table.{holds_below, holds_below-at}
use Prim.Native.Nat.{bit_or, bit_xor}
use zerofido.Pin.State.{byte_diff, constant_time_equal}

agree : Bool → Bool → Bool
agree p q = if p then q else not q

-- Two bytes, as one number below 65536.
or_is_zero : ℕ → ℕ → Bool
unfolding agree
or_is_zero a b = ltb (bit_or a b) 256 && agree (bit_or a b == 0) (a == 0 && b == 0)

or_table : holds_below (λ n. or_is_zero (n / 256) (n % 256)) 65536 ≡ true
unfolding holds_below or_is_zero
or_table = refl

xor_is_zero : ℕ → ℕ → Bool
unfolding agree
xor_is_zero a b = ltb (bit_xor a b) 256 && agree (bit_xor a b == 0) (a == b)

xor_table : holds_below (λ n. xor_is_zero (n / 256) (n % 256)) 65536 ≡ true
unfolding holds_below xor_is_zero
xor_table = refl

bytes_index :
    (a b : ℕ)
    → a < 256
    → b < 256
    → (a * 256 + b < 65536) × ((a * 256 + b) / 256 ≡ a) × ((a * 256 + b) % 256 ≡ b)
bytes_index a b h k = (omega arith, omega arith, omega arith)

on_bytes :
    (p : ℕ → ℕ → Bool)
    → holds_below (λ n. p (n / 256) (n % 256)) 65536 ≡ true
    → (a b : ℕ) → a < 256
    → b < 256
    → p a b ≡ true
on_bytes p table a b h k =
    let (lt, hi, lo) = bytes_index a b h k in
    subst (λ t. p t b ≡ true) hi
      (subst (λ t. p ((a * 256 + b) / 256) t ≡ true) lo (holds_below-at _ 65536 lt table))

or_zero :
    (a b : ℕ) → a < 256 → b < 256 → (bit_or a b < 256) × ((bit_or a b ≡ 0) ↔ ((a ≡ 0) × (b ≡ 0)))
unfolding or_is_zero
or_zero a b h k =
    let e = on_bytes or_is_zero or_table a b h k in
    (ground arith, (λ z. ground arith, λ z. ground arith))

xor_zero : (a b : ℕ) → a < 256 → b < 256 → (bit_xor a b < 256) × ((bit_xor a b ≡ 0) ↔ (a ≡ b))
unfolding xor_is_zero
xor_zero a b h k =
    let e = on_bytes xor_is_zero xor_table a b h k in
    (ground arith, (λ z. ground arith, λ z. ground arith))

byte_diff-zero :
    (size diff : ℕ) (left right : List ℕ)
    → diff < 256
    → All IsByte left
    → All IsByte right
    → size ≤ length left
    → size ≤ length right
    → (byte_diff size diff left right ≡ 0) ↔ ((diff ≡ 0) × (take size left ≡ take size right))
unfolding byte_diff
byte_diff-zero zero diff left right d l r h k = (λ e. (e, refl), λ p. p.0)
byte_diff-zero (suc size) diff [] right d l r h k = absurd (omega arith)
byte_diff-zero (suc size) diff (a ∷ left) [] d l r h k = absurd (omega arith)
byte_diff-zero (suc size) diff (a ∷ left) (b ∷ right) d l r h k =
    let x = xor_zero a b l.0 r.0 in
    let o = or_zero diff (bit_xor a b) d x.0 in
    let ih =
      byte_diff-zero size (bit_or diff (bit_xor a b)) left right o.0 l.1 r.1 (omega arith)
        (omega arith) in
    (
      λ e. let (z, t) = ih.0 e in let (dz, xz) = o.1.0 z in (dz, ap₂ ◌∷◌ (x.1.0 xz) t),
      λ p. ih.1 (o.1.1 (p.0, x.1.1 (cc (p.1))), cc (p.1)),
    )

-- On sequences of bytes that are long enough the comparison decides whether they agree in their
-- first `size` bytes.
pub constant_time_equal_iff :
    (size : ℕ) (left right : List ℕ)
    → All IsByte left
    → All IsByte right
    → size ≤ length left
    → size ≤ length right
    → (constant_time_equal size left right ≡ true) ↔ (take size left ≡ take size right)
unfolding constant_time_equal
constant_time_equal_iff size left right l r h k =
    let (to, from) = byte_diff-zero size 0 left right (omega arith) l r h k in
    (λ e. (to ((==_iff _ 0).0 e)).1, λ e. (==_iff _ 0).1 (from (refl, e)))
