-- ===== src/Base/Cuts.antt =====
-- Where `take` and `drop` cut a list that is put together.
use Prim.Native.Nat.{ℕ, zero, suc, ◌+◌, ◌≤◌}
use mathlib.Core.Path.{◌≡◌, refl, ap}
use mathlib.Core.List.{List, [], ◌∷◌, ◌++◌}
use native.Mathlib.Omega.{arith}
use zerofido.Base.Lists.{length, take, drop, replicate}

module _ {ℓ} {A : Type ℓ} where
  pub take-append_le : (n : ℕ) (a b : List A) → n ≤ length a → take n (a ++ b) ≡ take n a
  take-append_le zero a b h = refl
  take-append_le (suc n) [] b h = absurd (omega arith)
  take-append_le (suc n) (x ∷ a) b h = ap (λ t. x ∷ t) (take-append_le n a b (omega arith))

  pub drop-append_le : (n : ℕ) (a b : List A) → n ≤ length a → drop n (a ++ b) ≡ drop n a ++ b
  drop-append_le zero a b h = refl
  drop-append_le (suc n) [] b h = absurd (omega arith)
  drop-append_le (suc n) (x ∷ a) b h = drop-append_le n a b (omega arith)

  pub take-append_add :
      (n k : ℕ) (a b : List A) → n ≡ length a + k → take n (a ++ b) ≡ a ++ take k b
  take-append_add n k [] b h = ap (λ t. take t b) (omega arith)
  take-append_add zero k (x ∷ a) b h = absurd (omega arith)
  take-append_add (suc n) k (x ∷ a) b h = ap (λ t. x ∷ t) (take-append_add n k a b (omega arith))

  pub drop-append_add : (n k : ℕ) (a b : List A) → n ≡ length a + k → drop n (a ++ b) ≡ drop k b
  drop-append_add n k [] b h = ap (λ t. drop t b) (omega arith)
  drop-append_add zero k (x ∷ a) b h = absurd (omega arith)
  drop-append_add (suc n) k (x ∷ a) b h = drop-append_add n k a b (omega arith)

  pub drop-drop : (m n k : ℕ) (a : List A) → k ≡ m + n → drop n (drop m a) ≡ drop k a
  drop-drop zero n k a h = ap (λ t. drop t a) (omega arith)
  drop-drop (suc m) zero zero [] h = refl
  drop-drop (suc m) (suc n) zero [] h = refl
  drop-drop (suc m) zero (suc k) [] h = refl
  drop-drop (suc m) (suc n) (suc k) [] h = refl
  drop-drop (suc m) n zero (x ∷ a) h = absurd (omega arith)
  drop-drop (suc m) n (suc k) (x ∷ a) h = drop-drop m n k a (omega arith)

  pub take_all : (n : ℕ) (a : List A) → length a ≤ n → take n a ≡ a
  take_all zero [] h = refl
  take_all zero (x ∷ a) h = absurd (omega arith)
  take_all (suc n) [] h = refl
  take_all (suc n) (x ∷ a) h = ap (λ t. x ∷ t) (take_all n a (omega arith))

  pub drop_all : (n : ℕ) (a : List A) → length a ≤ n → drop n a ≡ []
  drop_all zero [] h = refl
  drop_all zero (x ∷ a) h = absurd (omega arith)
  drop_all (suc n) [] h = refl
  drop_all (suc n) (x ∷ a) h = drop_all n a (omega arith)

  pub take-replicate : (n k : ℕ) (x : A) → n ≤ k → take n (replicate k x) ≡ replicate n x
  take-replicate zero k x h = refl
  take-replicate (suc n) zero x h = absurd (omega arith)
  take-replicate (suc n) (suc k) x h = ap (λ t. x ∷ t) (take-replicate n k x (omega arith))

  pub replicate-append :
      (n m k : ℕ) (x : A) → n + m ≡ k → replicate n x ++ replicate m x ≡ replicate k x
  replicate-append zero m k x h = ap (λ t. replicate t x) (omega arith)
  replicate-append (suc n) m zero x h = absurd (omega arith)
  replicate-append (suc n) m (suc k) x h = ap (λ t. x ∷ t) (replicate-append n m k x (omega arith))
