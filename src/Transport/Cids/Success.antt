-- ===== src/Transport/Cids/Success.antt =====
-- When `zf_transport_allocate_cid` succeeds.
use zerofido.Base.{
  ℕ, zero, suc, ◌+◌, ◌<◌, ◌≤◌, ◌≡◌, ◌⊎◌, inl, inr, refl, ap, true, false, ◌||◌, Option, none, some,
  List, [], ◌∷◌, ltb, length, arith, Option-cases, Bool-cases,
}
use native.Mathlib.Decide.{dec_lt}
use zerofido.Transport.State.{AllocatedCid, TransportState, Host, refresh_lock}
use zerofido.Transport.Cids.{
  max_allocated_cids, cid_is_reserved, is_listed, cid_is_allocated, lru_step, lru_loop,
  remember_cid, allocate_loop, allocate_cid,
}
use zerofido.Transport.Cids.Table.{IsTable, Distinct}

-- Every entry is of one of two channels.
OneOf : ℕ → ℕ → List AllocatedCid → Type 0
OneOf a b [] = Unit
OneOf a b (e ∷ entries) = ((e.cid ≡ a) ⊎ (e.cid ≡ b)) × OneOf a b entries

at_most_two :
    (a b : ℕ) (entries : List AllocatedCid)
    → OneOf a b entries
    → Distinct entries
    → length entries ≤ 2
unfolding OneOf Distinct is_listed
at_most_two a b [] o d = omega arith
at_most_two a b (e ∷ []) o d = omega arith
at_most_two a b (e ∷ f ∷ []) o d = omega arith
at_most_two a b (e ∷ f ∷ g ∷ entries) o d = absurd (ground arith)

lru_step-none :
    (a b i : ℕ) (best : Option (ℕ × ℕ)) (e : AllocatedCid)
    → lru_step a b i best e ≡ none
    → (best ≡ none) × ((e.cid ≡ a) ⊎ (e.cid ≡ b))
unfolding lru_step
lru_step-none a b i none e h = ground arith
lru_step-none a b i (some best) e h = absurd (ground arith)

-- Nothing is found to reclaim only if every entry is protected.
lru_loop-none :
    (a b i : ℕ) (best : Option (ℕ × ℕ)) (entries : List AllocatedCid)
    → lru_loop a b i best entries ≡ none
    → (best ≡ none) × OneOf a b entries
unfolding lru_loop OneOf
lru_loop-none a b i best [] h = (h, tt)
lru_loop-none a b i best (e ∷ entries) h =
    let (step, rest) = lru_loop-none a b (i + 1) (lru_step a b i best e) entries h in
    let (same, one) = lru_step-none a b i best e step in (same, (one, rest))

refresh_lock-entries :
    (now : ℕ) (state : TransportState)
    → (refresh_lock now state).allocated_cids ≡ state.allocated_cids
unfolding refresh_lock
refresh_lock-entries now state = ground arith

remember_cid_succeeds :
    (now cid : ℕ) (state : TransportState)
    → IsTable state.allocated_cids
    → cid_is_reserved cid ≡ false
    → is_listed cid state.allocated_cids ≡ false
    → (remember_cid now cid state).0 ≡ true
unfolding remember_cid
remember_cid_succeeds now cid state t r f =
    elim (dec_lt (length state.allocated_cids) max_allocated_cids) [
      | yes h ↦ ground arith
      | no h ↦
          let current = refresh_lock now state in
          elim (Option-cases
            (lru_loop current.cid current.lock_cid 0 none current.allocated_cids)) [
              | inl g ↦
                  let (_, two) =
                    lru_loop-none current.cid current.lock_cid 0 none current.allocated_cids g in
                  let same = refresh_lock-entries now state in
                  let small =
                    at_most_two current.cid current.lock_cid current.allocated_cids two
                      (rw same t.distinct) in
                  absurd (omega (arith, ap length same))
              | inr (p, g) ↦
                  let full : ltb (length state.allocated_cids) max_allocated_cids ≡ false =
                    ground arith in
                  rw (r, f, full, g) refl
            ]
    ]

allocate_loop_succeeds :
    (attempts now : ℕ) (random : ℕ → ℕ) (state : TransportState) (i : ℕ)
    → IsTable state.allocated_cids
    → i < attempts
    → cid_is_reserved (random i) ≡ false
    → is_listed (random i) state.allocated_cids ≡ false
    → (cid : ℕ) × ((allocate_loop attempts now random state).0 ≡ some cid)
unfolding allocate_loop cid_is_allocated
allocate_loop_succeeds zero now random state i t h r f = absurd (omega arith)
allocate_loop_succeeds (suc attempts) now random state zero t h r f =
    let free : (cid_is_reserved (random 0) || cid_is_allocated state (random 0)) ≡ false =
      ground arith in
    (random 0, rw (free, remember_cid_succeeds now (random 0) state t r f) refl)
allocate_loop_succeeds (suc attempts) now random state (suc i) t h r f =
    elim (Bool-cases (cid_is_reserved (random 0) || cid_is_allocated state (random 0))) [
      | inl y ↦
          let (cid, e) =
            allocate_loop_succeeds attempts now (λ n. random (suc n)) state i t (omega arith) r f in
          (cid, rw y e)
      | inr n ↦ (
        random 0,
        rw (n, remember_cid_succeeds now (random 0) state t (ground arith) (ground arith)) refl,
      )
    ]

-- A channel is allocated as soon as one of the 32 random numbers that are tried is neither reserved
-- nor in the table, also when the table is full.
pub allocate_cid_succeeds :
    (host : Host) (state : TransportState) (i : ℕ)
    → IsTable state.allocated_cids
    → i < 32
    → cid_is_reserved (host.random i) ≡ false
    → is_listed (host.random i) state.allocated_cids ≡ false
    → (cid : ℕ) × ((allocate_cid host state).0 ≡ some cid)
unfolding allocate_cid
allocate_cid_succeeds host state i t h r f =
    allocate_loop_succeeds 32 host.tick host.random state i t h r f
