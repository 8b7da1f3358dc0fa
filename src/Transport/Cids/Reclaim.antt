-- ===== src/Transport/Cids/Reclaim.antt =====
-- The entry of the table of channels that is reclaimed for a new channel.
use zerofido.Base.{
  ℕ, zero, suc, ◌+◌, ◌≡◌, ◌⊎◌, inl, inr, true, false, Option, none, some, List, [], ◌∷◌, ◌==◌,
  arith, Bool-cases,
}
use zerofido.Transport.State.{AllocatedCid}
use zerofido.Transport.Cids.{is_listed, lru_step, lru_loop, set_entry}

-- The entry at `k` is there, and is not the one of channel `c`.
pub Spares : ℕ → ℕ → List AllocatedCid → Type 0
Spares c k [] = ⊥
Spares c zero (e ∷ entries) = (e.cid == c) ≡ false
Spares c (suc k) (e ∷ entries) = Spares c k entries

-- The entry that is reclaimed belongs neither to the session's channel nor to the lock's.
unfoldable pub Reclaims : ℕ → ℕ → ℕ → ℕ → List AllocatedCid → Type 0
Reclaims active_cid lock_cid i j entries =
    (k : ℕ) × (j ≡ i + k) × Spares active_cid k entries × Spares lock_cid k entries

pub lru_step-reclaims :
    (active_cid lock_cid i : ℕ) (best : Option (ℕ × ℕ)) (e : AllocatedCid) {j u : ℕ}
    → lru_step active_cid lock_cid i best e ≡ some (j, u)
    → (best ≡ some (j, u))
      ⊎ ((j ≡ i) × ((e.cid == active_cid) ≡ false) × ((e.cid == lock_cid) ≡ false))
unfolding lru_step
lru_step-reclaims active_cid lock_cid i none e eq = ground arith
lru_step-reclaims active_cid lock_cid i (some best) e eq = ground arith

pub lru_loop-Reclaims :
    (active_cid lock_cid i : ℕ) (best : Option (ℕ × ℕ)) (entries : List AllocatedCid) {j u : ℕ}
    → lru_loop active_cid lock_cid i best entries ≡ some (j, u)
    → (best ≡ some (j, u)) ⊎ Reclaims active_cid lock_cid i j entries
unfolding lru_loop Spares Reclaims
lru_loop-Reclaims active_cid lock_cid i best [] eq = inl eq
lru_loop-Reclaims active_cid lock_cid i best (e ∷ entries) {j} {u} eq =
    elim (lru_loop-Reclaims active_cid lock_cid (i + 1) _ entries {j = j} {u = u} eq) [
      | inl f ↦ elim (lru_step-reclaims active_cid lock_cid i best e {j = j} {u = u} f) [
        | inl g ↦ inl g
        | inr (p, q, r) ↦ inr (0, omega arith, q, r)
      ]
      | inr (k, p, q, r) ↦ inr (suc k, omega arith, q, r)
    ]

pub set_entry-keeps :
    (c k : ℕ) (entry : AllocatedCid) (entries : List AllocatedCid)
    → Spares c k entries
    → is_listed c entries ≡ true
    → is_listed c (set_entry k entry entries) ≡ true
unfolding Spares is_listed set_entry
set_entry-keeps c k entry [] s l = absurd s
set_entry-keeps c zero entry (e ∷ entries) s l = ground arith
set_entry-keeps c (suc k) entry (e ∷ entries) s l = elim (Bool-cases (e.cid == c)) [
  | inl y ↦ ground arith
  | inr n ↦ let rest = set_entry-keeps c k entry entries s (ground arith) in ground arith
]

pub set_entry-lists :
    (c k : ℕ) (entry : AllocatedCid) (entries : List AllocatedCid)
    → Spares c k entries
    → is_listed entry.cid (set_entry k entry entries) ≡ true
unfolding Spares is_listed set_entry
set_entry-lists c k entry [] s = absurd s
set_entry-lists c zero entry (e ∷ entries) s = ground arith
set_entry-lists c (suc k) entry (e ∷ entries) s =
    let rest = set_entry-lists c k entry entries s in ground arith
