-- ===== src/Ctap/Queue/Next.antt =====
-- What a getNextAssertion guarantees, whatever the other threads do in the middle of it.
use zerofido.Base.{
  ℕ, ◌<◌, ◌≡◌, ◌⊎◌, inl, inr, refl, true, false, not, ◌||◌, Option, none, some, arith, leb, ◌!=◌,
  Option-cases, Bool-cases, subst, if◌then◌else◌, if_both, if_cases, length, get_or,
}
use zerofido.Ctap.Status.{Status, is_success}
use zerofido.Store.Types.{CredentialRecord}
use zerofido.Store.Index.{entry_at}
use zerofido.Store.Counter.{prepare_counter_advance}
use zerofido.Store.Counter.Device.{next_sign_count}
use zerofido.Ctap.Queue.{
  AssertionQueue, cleared_queue, App, is_due, queue_entry_matches_record, publish_counter_advance,
  Snapshot, still_current, clear_if_current, take_snapshot, Surroundings, set_disk, load_record,
  next_queue, publish_next, advance_next, publish_reserved, serve_loaded, snapshot_of,
  continue_next, handle_next,
}

-- No counter moves, and the queue is as it was or cleared.
abbrev pub Keeps : App → App → Type 0
Keeps app app' =
    (app'.records ≡ app.records) × ((app'.queue ≡ app.queue) ⊎ (app'.queue ≡ cleared_queue))

-- The queue and the credential are still those of the snapshot; the counter of that credential is
-- published, and the queue moves to its next index, or is cleared behind its last.
abbrev pub Published : ℕ → ℕ → Snapshot → App → App → Type 0
Published tick session_id s app app' =
    (still_current app.queue session_id s ≡ true)
    × ((r : CredentialRecord) × (high_water : ℕ) × (queue_entry_matches_record
            (entry_at app.records s.record_index) r
          ≡ true)
        × (publish_counter_advance app.records r high_water ≡ some app'.records))
    × (app'.queue ≡ next_queue tick s app.queue)

abbrev pub Advances : ℕ → ℕ → Snapshot → App → Status × App → Type 0
Advances tick session_id s app r =
    if is_success r.0 then Published tick session_id s app r.1 else Keeps app r.1

clear_if_current-Keeps :
    (session_id : ℕ) (s : Snapshot) (app : App) → Keeps app (clear_if_current session_id s app)
unfolding clear_if_current
clear_if_current-Keeps session_id s app =
    if_both (Keeps app) (still_current app.queue session_id s) (refl, inr refl) (refl, inl refl)

publish_next-Advances :
    (tick session_id : ℕ) (s : Snapshot) (r : CredentialRecord) (high_water : ℕ) (app : App)
    → Advances tick session_id s app (publish_next tick session_id s r high_water app)
unfolding publish_next
publish_next-Advances tick session_id s r high_water app =
    let P = Advances tick session_id s app in
    if_cases P (not (still_current app.queue session_id s)) (λ _. (refl, inl refl))
      (λ current.
        if_cases P
          (leb (length app.records) s.record_index
            || not (queue_entry_matches_record (entry_at app.records s.record_index) r))
          (λ _. (refl, inr refl))
          (λ same. elim (Option-cases (publish_counter_advance app.records r high_water)) [
            | inl e ↦ rw (e, publish_next) (refl, inr refl)
            | inr (records, e) ↦
                rw (e, publish_next) (ground arith, (r, high_water, ground arith, e), refl)
          ]))

publish_reserved-Advances :
    (tick session_id : ℕ) (s : Snapshot) (r : CredentialRecord) (reserved : Option ℕ) (app : App)
    → Advances tick session_id s app (publish_reserved tick session_id s r reserved app)
unfolding publish_reserved
publish_reserved-Advances tick session_id s r none app = clear_if_current-Keeps session_id s app
publish_reserved-Advances tick session_id s r (some high_water) app =
    publish_next-Advances tick session_id s r high_water app

-- A step that returns an error.
refused-Advances :
    (tick session_id : ℕ) (s : Snapshot) (status : Status) (app app' : App)
    → is_success status ≡ false
    → Keeps app app'
    → Advances tick session_id s app (status, app')
refused-Advances tick session_id s status app app' e keeps = rw e keeps

advance_next-Advances :
    (around : Surroundings) (session_id : ℕ) (s : Snapshot) (r : CredentialRecord) (next : Option ℕ)
    (app : App)
    → Advances around.publish_tick session_id s app (advance_next around session_id s r next app)
unfolding advance_next set_disk
advance_next-Advances around session_id s r none app = clear_if_current-Keeps session_id s app
advance_next-Advances around session_id s r (some next) app =
    let tick = around.publish_tick in
    let P = Advances tick session_id s app in
    let id = s.entry.credential_id in
    let (prepared, disk) =
      prepare_counter_advance around.enclave around.host s.entry next (app.disks id) in
    if_cases P (not (is_success around.built))
      (λ e. refused-Advances tick session_id s around.built app app (ground arith) (refl, inl refl))
      (λ _.
        if_cases P (not (is_success around.second_poll))
          (λ e.
            refused-Advances tick session_id s around.second_poll app
              (clear_if_current session_id s app) (ground arith)
              (clear_if_current-Keeps session_id s app))
          (λ _.
            publish_reserved-Advances tick session_id s (record r { sign_count = next }) prepared
              (set_disk id disk app)))

serve_loaded-Advances :
    (around : Surroundings) (session_id : ℕ) (s : Snapshot) (loaded : Option CredentialRecord)
    (app : App)
    → Advances around.publish_tick session_id s app (serve_loaded around session_id s loaded app)
unfolding serve_loaded
serve_loaded-Advances around session_id s none app = clear_if_current-Keeps session_id s app
serve_loaded-Advances around session_id s (some r) app =
    advance_next-Advances around session_id s r (next_sign_count r.sign_count) app

-- The queue of the call: active, not expired, not at its end, and of the session.
abbrev pub IsLive : ℕ → ℕ → AssertionQueue → Type 0
IsLive tick session_id q =
    (q.active ≡ true)
    × (is_due tick q.expires_at ≡ false)
    × (q.index < q.count)
    × (session_id ≡ q.session_id)

Taken : ℕ → ℕ → App → (Status ⊎ Snapshot) × App → Type 0
Taken tick session_id app (inl status, app') = (is_success status ≡ false) × Keeps app app'
Taken tick session_id app (inr s, app') =
    (s ≡ snapshot_of app) × (app' ≡ app) × IsLive tick session_id app.queue

take_snapshot-Taken :
    (tick session_id : ℕ) (app : App)
    → Taken tick session_id app (take_snapshot tick session_id app)
unfolding take_snapshot Taken
take_snapshot-Taken tick session_id app =
    let q = app.queue in
    let index = get_or q.record_indices q.index 0 in
    let P = Taken tick session_id app in
    if_cases P (not q.active || is_due tick q.expires_at || leb q.count q.index)
      (λ _. (refl, (refl, inr refl)))
      (λ live.
        if_cases P (session_id != q.session_id) (λ _. (refl, (refl, inl refl)))
          (λ same.
            if_cases P (leb (length app.records) index || not (entry_at app.records index).in_use)
              (λ _. (refl, (refl, inr refl)))
              (λ _. (refl, refl, (ground arith, ground arith, ground arith, ground arith)))))

-- The state in which the call publishes, but for the files.
abbrev pub state_after : Surroundings → App → App
state_after around app = around.meanwhile (record app { maintenance_busy = true })

-- What a call comes to. Where it succeeds, the queue was live when the call began, and the counter is
-- published for what it then named. Where it does not, no counter moves.
abbrev pub Answers : Surroundings → ℕ → App → Status × App → Type 0
Answers around session_id app r =
    if is_success r.0
    then IsLive around.tick session_id app.queue
      × Published around.publish_tick session_id (snapshot_of app) (state_after around app) r.1
    else Keeps app r.1
    ⊎ Keeps (state_after around app) r.1

answered :
    (around : Surroundings) (session_id : ℕ) (app : App) (r : Status × App)
    → IsLive around.tick session_id app.queue
    → Advances around.publish_tick session_id (snapshot_of app) (state_after around app) r
    → Answers around session_id app r
answered around session_id app r live advances = elim (Bool-cases (is_success r.0)) [
  | inl e ↦ rw e (
    live,
    subst
        (λ b.
          if b
          then Published around.publish_tick session_id (snapshot_of app) (state_after around app)
              r.1
          else Keeps (state_after around app) r.1)
        e advances,
  )
  | inr e ↦ rw e (
      inr (
        subst
          (λ b.
            if b
            then Published around.publish_tick session_id (snapshot_of app) (state_after around app)
                r.1
            else Keeps (state_after around app) r.1)
          e advances))
]

refused_at_once :
    (around : Surroundings) (session_id : ℕ) (app app' : App) (status : Status)
    → is_success status ≡ false
    → Keeps app app'
    → Answers around session_id app (status, app')
refused_at_once around session_id app app' status e keeps = rw e (inl keeps)

continue_next-Answers :
    (around : Surroundings) (session_id : ℕ) (app : App) (taken : (Status ⊎ Snapshot) × App)
    → Taken around.tick session_id (record app { maintenance_busy = true }) taken
    → Answers around session_id app (continue_next around session_id taken.0 taken.1)
unfolding continue_next load_record set_disk Taken snapshot_of
continue_next-Answers around session_id app (inl status, app') (error, keeps) = rw error (inl keeps)
continue_next-Answers around session_id app (inr s, app') (same, kept, live) =
    let begun = record app { maintenance_busy = true } in
    rw (same, kept)
      (answered around session_id app
        (continue_next around session_id (inr (snapshot_of begun)) begun) live
        (let loaded = load_record around (snapshot_of begun) (state_after around app) in
          serve_loaded-Advances around session_id (snapshot_of begun) loaded.0 loaded.1))

-- Whatever the other threads do between the two regions that getNextAssertion locks, and whatever the
-- files, the polls and the response come to: if it succeeds, then the queue was active, not expired,
-- not at its end and of the same session, and at the publication it still names the same credential,
-- whose counter is published while the queue moves to its next index. If it fails, no counter is
-- published, and the queue is as it was or cleared.
pub handle_next-Answers :
    (around : Surroundings) (session_id : ℕ) (app : App)
    → Answers around session_id app (handle_next around session_id app)
unfolding handle_next
handle_next-Answers around session_id app =
    let P = Answers around session_id app in
    let begun = record app { maintenance_busy = true } in
    if_cases P (not (is_success around.first_poll))
      (λ e.
        refused_at_once around session_id app (record app { queue = cleared_queue })
          around.first_poll (ground arith) (refl, inr refl))
      (λ _. if_both P app.maintenance_busy (inl (refl, inl refl)) (
        if_both P (not around.scratch) (inl (refl, inl refl)) (
          continue_next-Answers around session_id app (take_snapshot around.tick session_id begun)
            (take_snapshot-Taken around.tick session_id begun))))
