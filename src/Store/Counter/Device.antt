-- ===== src/Store/Counter/Device.antt =====
-- The signature counter of one credential over the device's life: the index entry in memory, the
-- files on disk, and what changes them: a start, a power loss, an assertion
-- (ctap/commands/get_assertion.c).
use zerofido.Base.{ℕ, ◌+◌, Bool, not, Option, none, some, List, [], ◌∷◌, ltb, if◌then◌else◌}
use zerofido.Base.Partial.{◌>>=◌}
use zerofido.Store.Types.{IndexEntry}
use zerofido.Store.Counter.{
  uint32_max, Enclave, Host, Disk, counter_floor_validate, load_index, prepare_counter_advance,
  publish_advance,
}

pub record Device : Type 0 where
  pub disk : Disk
  pub entry : Option IndexEntry

-- The sign count of the record that `zf_store_load_record_with_buffer` loads.
unfoldable pub load_sign_count : Enclave → Host → Disk → Option ℕ × Disk
load_sign_count enclave host disk =
    if not host.can_read
    then (none, disk)
    else (let (counts, disk') = counter_floor_validate enclave host disk.sign_count disk in
        ((do (sign_count, high_water) ← counts; some sign_count), disk'))

-- The count is a uint32_t, so that it is either below the maximum or equal to it.
unfoldable pub next_sign_count : ℕ → Option ℕ
next_sign_count sign_count = if not (ltb sign_count uint32_max) then none else some (sign_count + 1)

unfoldable pub publish_prepared : IndexEntry → ℕ → Device → Option ℕ → Disk → Option ℕ × Device
publish_prepared entry next d none disk = (none, record d { disk = disk })
publish_prepared entry next d (some high_water) disk =
    elim (publish_advance entry next high_water) [
      | none ↦ (none, record d { disk = disk })
      | some entry' ↦ (some next, record { disk = disk; entry = some entry' })
    ]

-- `zf_ctap_publish_assertion_counter`: the count that leaves the device in the response.
unfoldable pub publish_counter : Enclave → Host → IndexEntry → ℕ → Device → Option ℕ × Device
publish_counter enclave host entry next d =
    let (prepared, disk) = prepare_counter_advance enclave host entry next d.disk in
    publish_prepared entry next d prepared disk

-- An assertion over a snapshot of the entry. `proceeds` is what the rest of the command decides:
-- the RP id of the record, the extensions, the signature and a cancellation.
unfoldable pub assert_loaded :
    Enclave → Host → Bool → IndexEntry → Option ℕ → Device → Option ℕ × Device
assert_loaded enclave host proceeds entry none d = (none, d)
assert_loaded enclave host proceeds entry (some sign_count) d = elim (next_sign_count sign_count) [
  | none ↦ (none, d)
  | some next ↦ if not proceeds then (none, d) else publish_counter enclave host entry next d
]

unfoldable pub assertion : Enclave → Host → Host → Bool → Device → Option ℕ × Device
assertion enclave load_host host proceeds d = elim d.entry [
  | none ↦ (none, d)
  | some entry ↦
      if not entry.in_use
      then (none, d)
      else (let (loaded, disk) = load_sign_count enclave load_host d.disk in
          assert_loaded enclave host proceeds entry loaded (record d { disk = disk }))
]

-- What happens to the device.
pub data Event : Type 0 where
  -- The index is loaded; `decoded` is what the record file says besides its counts.
  starts : Host → IndexEntry → Event
  power_off : Event
  asserts : (load_host host : Host) → (proceeds : Bool) → Event

-- The count that is signed in a step, if there is one.
unfoldable pub step : Enclave → Event → Device → Option ℕ × Device
step enclave (starts host decoded) d =
    let (entry, disk) = load_index enclave host decoded d.disk in
    (none, record { disk = disk; entry = entry })
step enclave power_off d = (none, record d { entry = none })
step enclave (asserts load_host host proceeds) d = assertion enclave load_host host proceeds d

unfoldable pub emit : Option ℕ → List ℕ → List ℕ
emit none counts = counts
emit (some count) counts = count ∷ counts

-- The counts that are signed, in their order.
unfoldable pub signed_counts : Enclave → List Event → Device → List ℕ
signed_counts enclave [] d = []
signed_counts enclave (event ∷ events) d =
    let (count, d') = step enclave event d in emit count (signed_counts enclave events d')
