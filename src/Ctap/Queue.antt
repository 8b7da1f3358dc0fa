-- ===== src/Ctap/Queue.antt =====
-- The continuation of a getAssertion by getNextAssertion (ctap/core/assertion_queue.c).
pub mod Next
pub mod Order
mod Tests
use zerofido.Base.{
  ℕ, ◌+◌, ◌-◌, ◌%◌, ◌^◌, Bool, true, false, not, ◌&&◌, ◌||◌, Option, none, some, ◌⊎◌, inl, inr,
  List, [], ◌∷◌, ltb, leb, ◌==◌, ◌!=◌, if◌then◌else◌, length, take, get_or, u8,
}
use zerofido.Base.Partial.{◌>>=◌}
use zerofido.Ctap.Status.{
  Status, success, err_not_allowed, err_invalid_channel, err_other, is_success,
}
use zerofido.Ctap.Parse.Shared.{bytes_equal}
use zerofido.Store.Types.{CredentialRecord, IndexEntry}
use zerofido.Store.Index.{entry_at}
use zerofido.Store.Counter.{Enclave, Host, Disk, prepare_counter_advance, advance_entry}
use zerofido.Store.Counter.Device.{load_sign_count, next_sign_count}

-- `ZfAssertionQueue`; of the request only the RP id is compared.
pub record AssertionQueue : Type 0 where
  pub active : Bool
  pub session_id : ℕ
  pub uv_verified : Bool
  pub user_present : Bool
  pub record_indices : List ℕ
  pub count : ℕ
  pub index : ℕ
  pub expires_at : ℕ
  pub rp_id : List ℕ

abbrev pub timeout_ms : ℕ
timeout_ms = 30000

abbrev pub cleared_queue : AssertionQueue
cleared_queue = record {
  active = false;
  session_id = 0;
  uv_verified = false;
  user_present = false;
  record_indices = [];
  count = 0;
  index = 0;
  expires_at = 0;
  rp_id = [];
}

-- What the queue reads and writes of the application, and the files of each credential id.
pub record App : Type 0 where
  pub queue : AssertionQueue
  pub records : List IndexEntry
  pub maintenance_busy : Bool
  pub disks : List ℕ → Disk

-- `zf_ctap_assertion_queue_seed`
unfoldable pub queue_seed : ℕ → ℕ → List ℕ → Bool → Bool → List ℕ → ℕ → App → App
queue_seed tick session_id rp_id asks_for_no_touch uv_verified match_indices match_count app =
    if leb match_count 1 then record app { queue = cleared_queue } else record app {
      queue = record {
        active = true;
        session_id = session_id;
        uv_verified = uv_verified;
        user_present = not asks_for_no_touch;
        record_indices = take match_count match_indices;
        count = u8 match_count;
        index = 1;
        expires_at = (tick + timeout_ms) % 2 ^ 32;
        rp_id = rp_id;
      };
    }

-- `(int32_t)(tick - expires_at) >= 0`
unfoldable pub is_due : ℕ → ℕ → Bool
is_due tick expires_at = ltb ((tick + (2 ^ 32 - expires_at)) % 2 ^ 32) (2 ^ 31)

-- `entry->credential_id_len == record->credential_id_len && memcmp(...) == 0`
unfoldable pub same_id : IndexEntry → CredentialRecord → Bool
same_id entry r =
    let n = r.credential_id_len in
    entry.credential_id_len == n
    && bytes_equal (take n entry.credential_id) (take n r.credential_id)

unfoldable pub queue_entry_matches_record : IndexEntry → CredentialRecord → Bool
queue_entry_matches_record entry r = entry.in_use && r.in_use && same_id entry r

-- `zf_store_publish_counter_advance`: `none` where it returns false, the index is then as it was.
unfoldable pub publish_loop : List IndexEntry → CredentialRecord → ℕ → Option (List IndexEntry)
publish_loop [] r high_water = none
publish_loop (entry ∷ records) r high_water =
    let rest = publish_loop records r high_water in
    if not entry.in_use || not (same_id entry r)
    then (do records' ← rest; some (entry ∷ records'))
    else (do entry' ← advance_entry entry r.sign_count high_water; some (entry' ∷ records))

unfoldable pub publish_counter_advance :
    List IndexEntry → CredentialRecord → ℕ → Option (List IndexEntry)
publish_counter_advance records r high_water =
    if ltb high_water r.sign_count then none else publish_loop records r high_water

-- What the command copies of the queue and of the index under the lock.
pub record Snapshot : Type 0 where
  pub queue_index : ℕ
  pub record_index : ℕ
  pub match_count : ℕ
  pub rp_id : List ℕ
  pub entry : IndexEntry

unfoldable pub still_current : AssertionQueue → ℕ → Snapshot → Bool
still_current q session_id s =
    q.active
    && session_id == q.session_id
    && s.queue_index == q.index
    && s.match_count == q.count
    && ltb s.queue_index q.count
    && get_or q.record_indices s.queue_index 0 == s.record_index
    && bytes_equal q.rp_id s.rp_id

unfoldable pub clear_if_current : ℕ → Snapshot → App → App
clear_if_current session_id s app =
    if still_current app.queue session_id s then record app { queue = cleared_queue } else app

unfoldable pub snapshot_of : App → Snapshot
snapshot_of app =
    let q = app.queue in
    let index = get_or q.record_indices q.index 0 in
    record {
      queue_index = q.index;
      record_index = index;
      match_count = q.count;
      rp_id = q.rp_id;
      entry = entry_at app.records index;
    }

-- The first locked region: the status with which it ends, or what it copied.
unfoldable pub take_snapshot : ℕ → ℕ → App → (Status ⊎ Snapshot) × App
take_snapshot tick session_id app =
    let q = app.queue in
    let index = get_or q.record_indices q.index 0 in
    if not q.active || is_due tick q.expires_at || leb q.count q.index
    then (inl err_not_allowed, record app { queue = cleared_queue })
    else if session_id != q.session_id
    then (inl err_invalid_channel, app)
    else if leb (length app.records) index || not (entry_at app.records index).in_use
    then (inl err_not_allowed, record app { queue = cleared_queue })
    else (inr (snapshot_of app), app)

-- What the rest of the device does in a call: `meanwhile` is what the other threads and the polls do
-- between the two locked regions, `file` what the record's file decodes to, besides its count.
pub record Surroundings : Type 0 where
  pub enclave : Enclave
  pub load_host : Host
  pub host : Host
  pub first_poll : Status
  pub second_poll : Status
  pub scratch : Bool
  pub tick : ℕ
  pub publish_tick : ℕ
  pub file : Option CredentialRecord
  pub built : Status
  pub meanwhile : App → App

unfoldable pub set_disk : List ℕ → Disk → App → App
set_disk credential_id disk app = record app {
  disks = λ id. if bytes_equal id credential_id then disk else app.disks id;
}

-- `zf_store_load_record_with_buffer`, and the tests of what it loads.
unfoldable pub load_record : Surroundings → Snapshot → App → Option CredentialRecord × App
load_record around s app =
    let id = s.entry.credential_id in
    let (count, disk) = load_sign_count around.enclave around.load_host (app.disks id) in
    (
      (do
        sign_count ← count
        r ← around.file
        if bytes_equal r.rp_id s.rp_id && queue_entry_matches_record s.entry r
            then some (record r { sign_count = sign_count })
            else none),
      set_disk id disk app,
    )

unfoldable pub next_queue : ℕ → Snapshot → AssertionQueue → AssertionQueue
next_queue tick s q =
    let index = u8 (s.queue_index + 1) in
    if leb q.count index
    then cleared_queue
    else record q { index = index; expires_at = (tick + timeout_ms) % 2 ^ 32 }

-- The second locked region.
unfoldable pub publish_next : ℕ → ℕ → Snapshot → CredentialRecord → ℕ → App → Status × App
publish_next tick session_id s r high_water app =
    let q = app.queue in
    let cleared = record app { queue = cleared_queue } in
    if not (still_current q session_id s)
    then (err_not_allowed, app)
    else if leb (length app.records) s.record_index
        || not (queue_entry_matches_record (entry_at app.records s.record_index) r)
    then (err_not_allowed, cleared)
    else elim (publish_counter_advance app.records r high_water) [
      | none ↦ (err_other, cleared)
      | some records ↦ (success, record app { records = records; queue = next_queue tick s q })
    ]

unfoldable pub publish_reserved :
    ℕ → ℕ → Snapshot → CredentialRecord → Option ℕ → App → Status × App
publish_reserved tick session_id s r none app = (err_other, clear_if_current session_id s app)
publish_reserved tick session_id s r (some high_water) app =
    publish_next tick session_id s r high_water app

-- From the next count on. `built` is the status of the extension and of the response.
unfoldable pub advance_next :
    Surroundings → ℕ → Snapshot → CredentialRecord → Option ℕ → App → Status × App
advance_next around session_id s r none app = (err_other, clear_if_current session_id s app)
advance_next around session_id s r (some next) app =
    if not (is_success around.built)
    then (around.built, app)
    else if not (is_success around.second_poll)
    then (around.second_poll, clear_if_current session_id s app)
    else (let id = s.entry.credential_id in
        let (prepared, disk) =
          prepare_counter_advance around.enclave around.host s.entry next (app.disks id) in
        publish_reserved around.publish_tick session_id s (record r { sign_count = next }) prepared
          (set_disk id disk app))

unfoldable pub serve_loaded :
    Surroundings → ℕ → Snapshot → Option CredentialRecord → App → Status × App
serve_loaded around session_id s none app = (err_not_allowed, clear_if_current session_id s app)
serve_loaded around session_id s (some r) app =
    advance_next around session_id s r (next_sign_count r.sign_count) app

unfoldable pub continue_next : Surroundings → ℕ → (Status ⊎ Snapshot) → App → Status × App
continue_next around session_id (inl status) app = (status, app)
continue_next around session_id (inr s) app =
    let (loaded, app') = load_record around s (around.meanwhile app) in
    serve_loaded around session_id s loaded app'

-- `zf_ctap_assertion_queue_handle_next`
unfoldable pub handle_next : Surroundings → ℕ → App → Status × App
handle_next around session_id app =
    if not (is_success around.first_poll)
    then (around.first_poll, record app { queue = cleared_queue })
    else if app.maintenance_busy
    then (err_not_allowed, app)
    else (let begun = record app { maintenance_busy = true } in
        if not around.scratch
        then (err_other, record begun { maintenance_busy = false })
        else (let (taken, app') = take_snapshot around.tick session_id begun in
            let (status, app'') = continue_next around session_id taken app' in
            (status, record app'' { maintenance_busy = false })))
