-- ===== src/Store/Index/Order.antt =====
-- The order of the entries by age: it is asymmetric, and what is not newer is transitive.
use zerofido.Base.{ℕ, zero, suc, ◌≡◌, refl, true, false, List, [], ◌∷◌, arith}
use zerofido.Store.Types.{IndexEntry}
use zerofido.Store.Index.{memcmp_greater, is_newer}

memcmp_greater_asym :
    (n : ℕ) (a b : List ℕ) → memcmp_greater n a b ≡ true → memcmp_greater n b a ≡ false
unfolding memcmp_greater
memcmp_greater_asym zero a b h = refl
memcmp_greater_asym (suc n) [] b h = cc
memcmp_greater_asym (suc n) (x ∷ a) [] h = refl
memcmp_greater_asym (suc n) (x ∷ a) (y ∷ b) h =
    let ih = memcmp_greater_asym n a b in ground (arith, ih)

memcmp_not_greater_trans :
    (n : ℕ) (a b c : List ℕ)
    → memcmp_greater n a b ≡ false
    → memcmp_greater n b c ≡ false
    → memcmp_greater n a c ≡ false
unfolding memcmp_greater
memcmp_not_greater_trans zero a b c h k = refl
memcmp_not_greater_trans (suc n) [] b c h k = refl
memcmp_not_greater_trans (suc n) (x ∷ a) [] c h k = cc
memcmp_not_greater_trans (suc n) (x ∷ a) (y ∷ b) [] h k = cc
memcmp_not_greater_trans (suc n) (x ∷ a) (y ∷ b) (z ∷ c) h k =
    let ih = memcmp_not_greater_trans n a b c in ground (arith, ih)

pub is_newer_asym : (a b : IndexEntry) → is_newer a b ≡ true → is_newer b a ≡ false
unfolding is_newer
is_newer_asym a b h =
    let ids = memcmp_greater_asym 32 a.credential_id b.credential_id in ground (arith, ids)

pub not_newer_trans :
    (a b c : IndexEntry) → is_newer a b ≡ false → is_newer b c ≡ false → is_newer a c ≡ false
unfolding is_newer
not_newer_trans a b c h k =
    let ids = memcmp_not_greater_trans 32 a.credential_id b.credential_id c.credential_id in
    ground (arith, ids)
