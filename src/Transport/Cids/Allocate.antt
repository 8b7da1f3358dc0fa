-- ===== src/Transport/Cids/Allocate.antt =====
-- What `zf_transport_allocate_cid` guarantees.
use zerofido.Base.{
  ℕ, zero, suc, ◌<◌, ◌≡◌, inl, inr, refl, sym, ap, true, false, ◌||◌, Option, none, some, [], ◌∷◌,
  ◌++◌, ltb, length, arith, length-append, Option-cases, Bool-cases, lt→ltb, if_both,
}
use native.Mathlib.Decide.{dec_lt}
use zerofido.Transport.State.{TransportState, Host, refresh_lock}
use zerofido.Transport.Cids.{
  max_allocated_cids, cid_is_reserved, is_listed, cid_is_allocated, lru_loop, set_entry, new_entry,
  remember_cid, allocate_loop, allocate_cid,
}
use zerofido.Transport.Cids.Table.{
  IsTable, append-Distinct, set_entry-Distinct, length-set_entry, is_listed-append,
}
use zerofido.Transport.Cids.Reclaim.{
  Spares, Reclaims, lru_loop-Reclaims, set_entry-keeps, set_entry-lists,
}

-- What an allocation does to the table, for the channels that the session and the lock use.
pub record Allocates (before : TransportState) (cid : ℕ) (after : TransportState) : Type 0 where
  pub table : IsTable after.allocated_cids
  pub fresh : cid_is_allocated before cid ≡ false
  pub allocated : cid_is_allocated after cid ≡ true
  pub keeps_active :
      is_listed before.cid before.allocated_cids ≡ true
      → is_listed before.cid after.allocated_cids ≡ true
  pub keeps_locked :
      is_listed after.lock_cid before.allocated_cids ≡ true
      → is_listed after.lock_cid after.allocated_cids ≡ true

module _ (now cid : ℕ) (state : TransportState) (t : IsTable state.allocated_cids)
    (unreserved : cid_is_reserved cid ≡ false)
    (unlisted : is_listed cid state.allocated_cids ≡ false) where
  append_Allocates :
      length state.allocated_cids < max_allocated_cids
      → Allocates state cid
          (record state { allocated_cids = state.allocated_cids ++ new_entry now cid ∷ [] })
  unfolding cid_is_allocated
  append_Allocates h = record {
    table = record {
      bounded = omega (arith, length-append state.allocated_cids (new_entry now cid ∷ []));
      distinct = append-Distinct state.allocated_cids _ t.distinct unreserved unlisted;
    };
    fresh = ground arith;
    allocated = ground (arith, is_listed-append cid state.allocated_cids (new_entry now cid));
    keeps_active =
        λ l. ground (arith, is_listed-append state.cid state.allocated_cids (new_entry now cid));
    keeps_locked = λ l.
        ground (arith, is_listed-append state.lock_cid state.allocated_cids (new_entry now cid));
  }

  reclaim_Allocates :
      (state' : TransportState) (k : ℕ)
      → state'.allocated_cids ≡ state.allocated_cids
      → state'.cid ≡ state.cid
      → Spares state'.cid k state'.allocated_cids
      → Spares state'.lock_cid k state'.allocated_cids
      → Allocates state cid
          (record state' { allocated_cids = set_entry k (new_entry now cid) state'.allocated_cids })
  unfolding cid_is_allocated
  reclaim_Allocates state' k same same_cid p q = record {
    table = record {
      bounded = omega (
        arith,
        length-set_entry k (new_entry now cid) state'.allocated_cids,
        t.bounded,
        ap length same,
      );
      distinct =
          set_entry-Distinct k _ state'.allocated_cids (rw same t.distinct) unreserved
            (rw same unlisted);
    };
    fresh = ground arith;
    allocated =
        ground (arith, set_entry-lists state'.cid k (new_entry now cid) state'.allocated_cids p);
    keeps_active = λ l. rw (sym same_cid) (
        set_entry-keeps state'.cid k (new_entry now cid) state'.allocated_cids p
          (rw (same, same_cid) l));
    keeps_locked = λ l.
        set_entry-keeps state'.lock_cid k (new_entry now cid) state'.allocated_cids q (rw same l);
  }

refresh_lock-same :
    (now : ℕ) (state : TransportState)
    → ((refresh_lock now state).allocated_cids ≡ state.allocated_cids)
      × ((refresh_lock now state).cid ≡ state.cid)
unfolding refresh_lock
refresh_lock-same now state = ground arith

remember_cid-Allocates :
    (now cid : ℕ) (state : TransportState)
    → IsTable state.allocated_cids
    → cid_is_reserved cid ≡ false
    → is_listed cid state.allocated_cids ≡ false
    → (remember_cid now cid state).0 ≡ true
    → Allocates state cid (remember_cid now cid state).1
unfolding remember_cid Reclaims
remember_cid-Allocates now cid state t r f e =
    elim (dec_lt (length state.allocated_cids) max_allocated_cids) [
      | yes h ↦ rw (r, f, lt→ltb _ _ h) (append_Allocates now cid state t r f h)
      | no h ↦
          let (same, same_cid) = refresh_lock-same now state in
          let state' = refresh_lock now state in
          elim (Option-cases (lru_loop state'.cid state'.lock_cid 0 none state'.allocated_cids)) [
            | inl g ↦ absurd (ground arith)
            | inr (p, g) ↦
                elim (lru_loop-Reclaims state'.cid state'.lock_cid 0 none state'.allocated_cids
                  {j = p.0} {u = p.1} g) [
                    | inl z ↦ cc z
                    | inr (k, at, sa, sl) ↦
                        let full : ltb (length state.allocated_cids) max_allocated_cids ≡ false =
                          ground arith in
                        let place : p.0 ≡ k = omega arith in
                        rw (r, f, full, g)
                          (reclaim_Allocates now cid state t r f state' p.0 same same_cid
                            (rw place sa) (rw place sl))
                  ]
          ]
    ]

-- The fields of the state that allocating a channel leaves alone.
pub record Leaves (before after : TransportState) : Type 0 where
  pub same_active : after.active ≡ before.active
  pub same_processing : after.processing ≡ before.processing
  pub same_cid : after.cid ≡ before.cid
  pub same_cmd : after.cmd ≡ before.cmd
  pub same_total : after.total_len ≡ before.total_len
  pub same_received : after.received_len ≡ before.received_len
  pub same_payload : after.payload ≡ before.payload

pub refresh_lock-Leaves : (now : ℕ) (state : TransportState) → Leaves state (refresh_lock now state)
unfolding refresh_lock
refresh_lock-Leaves now state = ground arith

remember_cid-Leaves :
    (now cid : ℕ) (state : TransportState) → Leaves state (remember_cid now cid state).1
unfolding remember_cid
remember_cid-Leaves now cid state = ground (arith, refresh_lock-Leaves now state)

allocate_loop-Allocates :
    (attempts now : ℕ) (random : ℕ → ℕ) (state : TransportState) {cid : ℕ}
    → IsTable state.allocated_cids
    → (allocate_loop attempts now random state).0 ≡ some cid
    → Allocates state cid (allocate_loop attempts now random state).1
unfolding allocate_loop cid_is_allocated
allocate_loop-Allocates zero now random state t e = cc
allocate_loop-Allocates (suc attempts) now random state {cid} t e =
    elim (Bool-cases (cid_is_reserved (random 0) || is_listed (random 0) state.allocated_cids)) [
      | inl y ↦
          let taken : (cid_is_reserved (random 0) || cid_is_allocated state (random 0)) ≡ true =
            ground arith in
          rw taken
            (allocate_loop-Allocates attempts now (λ n. random (suc n)) state t (rw taken at e))
      | inr n ↦
          let free : (cid_is_reserved (random 0) || cid_is_allocated state (random 0)) ≡ false =
            ground arith in
          elim (Bool-cases (remember_cid now (random 0) state).0) [
            | inl done ↦
                let same : random 0 ≡ cid = ground arith in
                rw (free, done, sym same)
                  (remember_cid-Allocates now (random 0) state t (ground arith) (ground arith) done)
            | inr failed ↦ absurd (ground arith)
          ]
    ]

-- A channel that is allocated is not a reserved one and was not in the table, and is in it
-- afterwards. The table keeps at most 32 entries, with different channels and none of them reserved;
-- neither the session's channel nor the one that holds the lock is reclaimed for the new one.
pub allocate_cid_fresh :
    (host : Host) (state : TransportState) {cid : ℕ}
    → IsTable state.allocated_cids
    → (allocate_cid host state).0 ≡ some cid
    → Allocates state cid (allocate_cid host state).1
unfolding allocate_cid
allocate_cid_fresh host state t e = allocate_loop-Allocates 32 host.tick host.random state t e

remember_cid_failed :
    (now cid : ℕ) (state : TransportState)
    → (remember_cid now cid state).0 ≡ false
    → (remember_cid now cid state).1.allocated_cids ≡ state.allocated_cids
unfolding remember_cid
remember_cid_failed now cid state e = ground (arith, refresh_lock-same now state)

allocate_loop-Leaves :
    (attempts now : ℕ) (random : ℕ → ℕ) (state : TransportState)
    → Leaves state (allocate_loop attempts now random state).1
unfolding allocate_loop
allocate_loop-Leaves zero now random state = ground arith
allocate_loop-Leaves (suc attempts) now random state =
    if_both (λ (r : Option ℕ × TransportState). Leaves state r.1)
      (cid_is_reserved (random 0) || cid_is_allocated state (random 0))
      (allocate_loop-Leaves attempts now (λ n. random (suc n)) state)
      (if_both (λ (r : Option ℕ × TransportState). Leaves state r.1)
        (remember_cid now (random 0) state).0 (remember_cid-Leaves now (random 0) state)
        (remember_cid-Leaves now (random 0) state))

pub allocate_cid-Leaves :
    (host : Host) (state : TransportState) → Leaves state (allocate_cid host state).1
unfolding allocate_cid
allocate_cid-Leaves host state = allocate_loop-Leaves 32 host.tick host.random state

allocate_loop_failed :
    (attempts now : ℕ) (random : ℕ → ℕ) (state : TransportState)
    → (allocate_loop attempts now random state).0 ≡ none
    → (allocate_loop attempts now random state).1.allocated_cids ≡ state.allocated_cids
unfolding allocate_loop
allocate_loop_failed zero now random state e = refl
allocate_loop_failed (suc attempts) now random state e =
    elim (Bool-cases (cid_is_reserved (random 0) || cid_is_allocated state (random 0))) [
      | inl y ↦ rw y (allocate_loop_failed attempts now (λ n. random (suc n)) state (rw y at e))
      | inr n ↦ elim (Bool-cases (remember_cid now (random 0) state).0) [
        | inl done ↦ absurd (ground arith)
        | inr failed ↦ rw (n, failed) (remember_cid_failed now (random 0) state failed)
      ]
    ]

allocate_cid_failed :
    (host : Host) (state : TransportState)
    → (allocate_cid host state).0 ≡ none
    → (allocate_cid host state).1.allocated_cids ≡ state.allocated_cids
unfolding allocate_cid
allocate_cid_failed host state e = allocate_loop_failed 32 host.tick host.random state e

pub allocate_cid-IsTable :
    (host : Host) (state : TransportState)
    → IsTable state.allocated_cids
    → IsTable (allocate_cid host state).1.allocated_cids
allocate_cid-IsTable host state t = elim (Option-cases (allocate_cid host state).0) [
  | inl f ↦ rw (allocate_cid_failed host state f) t
  | inr (cid, e) ↦ (allocate_cid_fresh host state t e).table
]
