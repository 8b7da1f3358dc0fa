-- ===== src/Transport/Cids.antt =====
-- The table of allocated channels of transport/usb_hid_session.c.
pub mod Table
pub mod Allocate
pub mod Reclaim
pub mod Success
use zerofido.Base.{
  ℕ, zero, suc, ◌+◌, ◌-◌, Bool, true, false, ◌&&◌, ◌||◌, not, Option, none, some, List, [], ◌∷◌,
  ◌++◌, ltb, leb, ◌==◌, if◌then◌else◌, length,
}
use zerofido.Transport.State.{AllocatedCid, TransportState, Host, broadcast_cid, refresh_lock}

abbrev pub max_allocated_cids : ℕ
max_allocated_cids = 32

unfoldable pub cid_is_reserved : ℕ → Bool
cid_is_reserved cid = cid == 0 || cid == broadcast_cid

unfoldable pub is_listed : ℕ → List AllocatedCid → Bool
is_listed cid [] = false
is_listed cid (e ∷ entries) = e.cid == cid || is_listed cid entries

unfoldable pub cid_is_allocated : TransportState → ℕ → Bool
cid_is_allocated state cid = not (cid_is_reserved cid) && is_listed cid state.allocated_cids

-- The body of the loop of `zf_transport_find_lru_reclaim_index` on the entry at index `i`, and the
-- loop from there on, with the best index so far and its tick.
unfoldable pub lru_step : ℕ → ℕ → ℕ → Option (ℕ × ℕ) → AllocatedCid → Option (ℕ × ℕ)
lru_step active_cid lock_cid i none e =
    if e.cid == active_cid || e.cid == lock_cid then none else some (i, e.last_used)
lru_step active_cid lock_cid i (some best) e =
    if e.cid == active_cid || e.cid == lock_cid
    then some best
    else if ltb e.last_used best.1
    then some (i, e.last_used)
    else some best

unfoldable pub lru_loop : ℕ → ℕ → ℕ → Option (ℕ × ℕ) → List AllocatedCid → Option (ℕ × ℕ)
lru_loop active_cid lock_cid i best [] = best
lru_loop active_cid lock_cid i best (e ∷ entries) =
    lru_loop active_cid lock_cid (i + 1) (lru_step active_cid lock_cid i best e) entries

-- Sets the tick of the first entry of `cid`.
unfoldable pub touch_entry : ℕ → ℕ → List AllocatedCid → List AllocatedCid
touch_entry cid now [] = []
touch_entry cid now (e ∷ entries) =
    if e.cid == cid then record e { last_used = now } ∷ entries else e ∷ touch_entry cid now entries

unfoldable pub touch_cid : ℕ → ℕ → TransportState → TransportState
touch_cid now cid state =
    if cid_is_reserved cid
    then state
    else record state { allocated_cids = touch_entry cid now state.allocated_cids }

abbrev pub new_entry : ℕ → ℕ → AllocatedCid
new_entry now cid = record { cid = cid; last_used = now }

-- `entries[i] = entry`
unfoldable pub set_entry : ℕ → AllocatedCid → List AllocatedCid → List AllocatedCid
set_entry i entry [] = []
set_entry zero entry (e ∷ entries) = entry ∷ entries
set_entry (suc i) entry (e ∷ entries) = e ∷ set_entry i entry entries

-- Whether the channel is in the table afterwards, and the state. The search for an entry to reclaim
-- drops an expired lock.
unfoldable pub remember_cid : ℕ → ℕ → TransportState → Bool × TransportState
remember_cid now cid state =
    if cid_is_reserved cid
    then (false, state)
    else if is_listed cid state.allocated_cids
    then (true, record state { allocated_cids = touch_entry cid now state.allocated_cids })
    else if ltb (length state.allocated_cids) max_allocated_cids
    then (true, record state { allocated_cids = state.allocated_cids ++ new_entry now cid ∷ [] })
    else let state' = refresh_lock now state in
      elim (lru_loop state'.cid state'.lock_cid 0 none state'.allocated_cids) [
        | none ↦ (false, state')
        | some (i, _) ↦ (
          true,
          record state' { allocated_cids = set_entry i (new_entry now cid) state'.allocated_cids },
        )
      ]

-- The attempts that are left; `random` gives the numbers to come.
unfoldable pub allocate_loop : ℕ → ℕ → (ℕ → ℕ) → TransportState → Option ℕ × TransportState
allocate_loop zero now random state = (none, state)
allocate_loop (suc attempts) now random state =
    let cid = random 0 in
    let retry = allocate_loop attempts now (λ n. random (suc n)) state in
    if cid_is_reserved cid || cid_is_allocated state cid
    then retry
    else let (remembered, state') = remember_cid now cid state in
      if remembered then (some cid, state') else (none, state')

unfoldable pub allocate_cid : Host → TransportState → Option ℕ × TransportState
allocate_cid host state = allocate_loop 32 host.tick host.random state
