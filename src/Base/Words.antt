-- ===== src/Base/Words.antt =====
-- Machine words as numbers with their range, and big-endian byte sequences.
use Prim.Native.Nat.{ℕ, zero, suc, ◌+◌, ◌*◌, ◌/◌, ◌%◌, ◌^◌, ◌<◌}
use mathlib.Core.Path.{◌≡◌, refl, sym, ap, ap₂, ◌∙◌}
use mathlib.Core.Option.{Option, none, some}
use mathlib.Core.List.{List, [], ◌∷◌, ◌++◌}
use native.Mathlib.Omega.{arith}
use native.Mathlib.Nat.{
  pow-suc, div-add-mod, div-div-eq-div-mul, mul-add-div_right, one-le-pow, div-eq_of_lt,
}
use zerofido.Base.Lists.{All, length}

abbrev pub IsByte : ℕ → Type 0
IsByte b = b < 256

abbrev pub u8 : ℕ → ℕ
u8 x = x % 256

-- `value >> 8 * (n - 1)`, …, `value >> 8`, `value`, each cut to a byte.
unfoldable pub be_bytes : ℕ → ℕ → List ℕ
be_bytes zero v = []
be_bytes (suc n) v = u8 (v / 256 ^ n) ∷ be_bytes n v

-- The next `n` bytes as one big-endian number, in front of which `acc` was read.
unfoldable pub read_be : ℕ → ℕ → List ℕ → Option (ℕ × List ℕ)
read_be zero acc c = some (acc, c)
read_be (suc n) acc [] = none
read_be (suc n) acc (b ∷ c) = read_be n (acc * 256 + b) c

pub length-be_bytes : (n v : ℕ) → length (be_bytes n v) ≡ n
unfolding be_bytes
length-be_bytes zero v = refl
length-be_bytes (suc n) v = ap suc (length-be_bytes n v)

pub be_bytes-IsByte : (n v : ℕ) → All IsByte (be_bytes n v)
unfolding be_bytes
be_bytes-IsByte zero v = tt
be_bytes-IsByte (suc n) v = (omega arith, be_bytes-IsByte n v)

digit_sum :
    (p q a b v r s : ℕ) → p * q + r ≡ v → 256 * a + b ≡ q → p * 256 * a + s ≡ v → s ≡ b * p + r
digit_sum p q a b v r s h k l = omega (arith, ap (λ (t : ℕ). p * t) k)

-- The digit at place `n` splits off the front of the number below it.
split_digit : (n v : ℕ) → v % 256 ^ suc n ≡ u8 (v / 256 ^ n) * 256 ^ n + v % 256 ^ n
split_digit n v = rw (pow-suc 256 n) (
    digit_sum (256 ^ n) (v / 256 ^ n) (v / 256 ^ n / 256) _ v _ _ (div-add-mod v (256 ^ n))
      (div-add-mod (v / 256 ^ n) 256)
      (rw (div-div-eq-div-mul v (256 ^ n) 256) (div-add-mod v (256 ^ n * 256))))

pub read_be-be_bytes :
    (n acc v : ℕ) (rest : List ℕ)
    → read_be n acc (be_bytes n v ++ rest) ≡ some (acc * 256 ^ n + v % 256 ^ n, rest)
unfolding be_bytes read_be
read_be-be_bytes zero acc v rest = ap (λ t. some (t, rest)) (omega arith)
read_be-be_bytes (suc n) acc v rest =
    read_be-be_bytes n (acc * 256 + u8 (v / 256 ^ n)) v rest
    ∙ ap (λ t. some (t, rest))
        (omega (arith, split_digit n v, ap (λ (t : ℕ). acc * t) (pow-suc 256 n)))

div_shift : (n k v : ℕ) → (k * 256 ^ n + v) / 256 ^ n ≡ k + v / 256 ^ n
div_shift n k v =
    let positive : 0 < 256 = omega arith in
    mul-add-div_right {m = 256 ^ n} (one-le-pow n 256 positive) k v

higher_digit : (n k v : ℕ) → u8 ((k * 256 * 256 ^ n + v) / 256 ^ n) ≡ u8 (v / 256 ^ n)
higher_digit n k v = rw (div_shift n (k * 256) v) (omega arith)

-- Digits at the places above `n` do not matter to the lowest `n` bytes.
be_bytes_low : (n k v : ℕ) → be_bytes n (k * 256 ^ n + v) ≡ be_bytes n v
unfolding be_bytes
be_bytes_low zero k v = refl
be_bytes_low (suc n) k v =
    let shift : k * 256 ^ suc n ≡ k * 256 * 256 ^ n =
      omega (arith, ap (λ (t : ℕ). k * t) (pow-suc 256 n)) in
    rw shift (ap₂ ◌∷◌ (higher_digit n k v) (be_bytes_low n (k * 256) v))

-- A number that is cut to `n` bytes has the same lowest `n` bytes.
pub be_bytes_mod : (n v : ℕ) → be_bytes n (v % 256 ^ n) ≡ be_bytes n v
be_bytes_mod n v =
    sym (be_bytes_low n (v / 256 ^ n) (v % 256 ^ n))
    ∙ ap (be_bytes n) (omega (arith, div-add-mod v (256 ^ n)))

digit_bound : (p b v : ℕ) → b < 256 → v < p → b * p + v < 256 * p
digit_bound p b v hb hv = grind arith

be_bytes-cons :
    (n b v : ℕ) → b < 256 → v < 256 ^ n → be_bytes (suc n) (b * 256 ^ n + v) ≡ b ∷ be_bytes n v
unfolding be_bytes
be_bytes-cons n b v hb hv =
    ap₂ ◌∷◌ (omega (arith, div_shift n b v, div-eq_of_lt hv)) (be_bytes_low n b v)

-- What `read_be` takes from a byte sequence are the bytes of the number that it returns.
pub read_be_inv :
    (n acc : ℕ) (bs : List ℕ) {w : ℕ} {rest : List ℕ}
    → All IsByte bs
    → read_be n acc bs ≡ some (w, rest)
    → (v : ℕ) × (v < 256 ^ n) × (w ≡ acc * 256 ^ n + v) × (bs ≡ be_bytes n v ++ rest)
unfolding read_be
read_be_inv zero acc bs h e = (0, omega arith, ground arith, unfold be_bytes in ground arith)
read_be_inv (suc n) acc [] h e = cc
read_be_inv (suc n) acc (b ∷ bs) {w} {rest} h e =
    let (v, lt, eq, split) = read_be_inv n (acc * 256 + b) bs {w = w} {rest = rest} h.1 e in
    (
      b * 256 ^ n + v,
      omega (arith, pow-suc 256 n, digit_bound (256 ^ n) b v h.0 lt),
      omega (arith, pow-suc 256 n, ap (λ (t : ℕ). acc * t) (pow-suc 256 n)),
      rw (be_bytes-cons n b v h.0 lt) (ap (λ t. b ∷ t) split),
    )
