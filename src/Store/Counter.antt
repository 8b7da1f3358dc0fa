-- ===== src/Store/Counter.antt =====
-- The signature counters: the counter floors of store/record_format.c and the advance of a counter
-- in zerofido_store.c, for the files of one credential.
pub mod Floor
pub mod Boot
pub mod Advance
pub mod Device
pub mod Monotone
use zerofido.Base.{
  ℕ, ◌+◌, ◌-◌, ◌*◌, ◌/◌, ◌%◌, Bool, true, false, not, ◌&&◌, ◌||◌, Option, none, some, List, [], ◌∷◌,
  ◌++◌, ltb, ◌==◌, ◌!=◌, if◌then◌else◌, take, u8,
}
use zerofido.Base.Partial.{◌>>=◌}
use zerofido.Crypto.Hash.{sha256}
use zerofido.Pin.State.{constant_time_equal}
use zerofido.Store.Types.{IndexEntry}

abbrev pub uint32_max : ℕ
uint32_max = 0xffff_ffff

abbrev pub counter_reservation_window : ℕ
counter_reservation_window = 32

abbrev pub counter_floor_magic : ℕ
counter_floor_magic = 0x5343_4632

abbrev pub counter_floor_version : ℕ
counter_floor_version = 1

-- `ZfCounterFloorSeal`
pub record CounterFloorSeal : Type 0 where
  pub magic : ℕ
  pub sign_count : ℕ
  pub binding : List ℕ

-- `ZfCounterFloorFile`
pub record CounterFloorFile : Type 0 where
  pub version : ℕ
  pub iv : List ℕ
  pub sealed : List ℕ

-- The enclave's key under an initialization vector: `none` where the key does not load or the
-- operation fails.
pub record Enclave : Type 0 where
  pub encrypt : List ℕ → CounterFloorSeal → Option (List ℕ)
  pub decrypt : List ℕ → List ℕ → Option CounterFloorSeal

-- What the rest of the device does in a call: random bytes, and whether a file can be read and
-- written. A write that fails leaves the file as it was.
pub record Host : Type 0 where
  pub floor_iv : List ℕ
  pub record_iv : List ℕ
  pub can_read : Bool
  pub floor_written : Bool
  pub record_written : Bool

-- A credential's record file, by what its counter fields decode to, and its companion .counter file.
pub record Disk : Type 0 where
  pub credential_id : List ℕ
  pub created_at : ℕ
  pub sign_count : ℕ
  pub embedded_floor : Option CounterFloorFile
  pub counter_floor : Option CounterFloorFile

unfoldable pub le_bytes4 : ℕ → List ℕ
le_bytes4 v = u8 v ∷ u8 (v / 0x100) ∷ u8 (v / 0x1_0000) ∷ u8 (v / 0x100_0000) ∷ []

unfoldable pub compute_counter_binding : List ℕ → ℕ → List ℕ
compute_counter_binding credential_id created_at =
    take 24 (sha256 (credential_id ++ le_bytes4 created_at))

unfoldable pub counter_reserved_high_water : ℕ → ℕ
counter_reserved_high_water sign_count =
    let available = uint32_max - sign_count in
    if ltb available counter_reservation_window
    then uint32_max
    else sign_count + counter_reservation_window

unfoldable pub counter_floor_encode : Enclave → List ℕ → List ℕ → ℕ → ℕ → Option CounterFloorFile
counter_floor_encode enclave iv credential_id created_at sign_count =
    let plain : CounterFloorSeal = record {
      magic = counter_floor_magic;
      sign_count = sign_count;
      binding = compute_counter_binding credential_id created_at;
    } in
    (do
      sealed ← enclave.encrypt iv plain
      some (record { version = counter_floor_version; iv = iv; sealed = sealed }))

unfoldable pub counter_floor_decode : Enclave → List ℕ → ℕ → CounterFloorFile → Option ℕ
counter_floor_decode enclave credential_id created_at file =
    if file.version != counter_floor_version then none else (do
      plain ← enclave.decrypt file.iv file.sealed
      if plain.magic != counter_floor_magic
          then none
          else if constant_time_equal 24 plain.binding
              (compute_counter_binding credential_id created_at)
          then some plain.sign_count
          else none)

-- `zf_store_counter_floor_write_value_fields`
unfoldable pub counter_floor_write_value : Enclave → Host → ℕ → Disk → Bool × Disk
counter_floor_write_value enclave host sign_count disk =
    elim (counter_floor_encode enclave host.floor_iv disk.credential_id disk.created_at
      sign_count) [
        | none ↦ (false, disk)
        | some file ↦
            if host.floor_written
            then (true, record disk { counter_floor = some file })
            else (false, disk)
      ]

-- With a companion file: the larger of its count and the record's, which is written if it is the
-- record's. The result is the sign count and the high-water mark.
unfoldable pub counter_floor_compare : Enclave → Host → ℕ → ℕ → Disk → Option (ℕ × ℕ) × Disk
counter_floor_compare enclave host sign_count stored disk =
    if ltb sign_count stored
    then (some (stored, stored), disk)
    else if ltb stored sign_count
    then (let (ok, disk') = counter_floor_write_value enclave host sign_count disk in
        if ok then (some (sign_count, sign_count), disk') else (none, disk'))
    else (some (sign_count, stored), disk)

-- Without one: the floor embedded in the record must agree; a record that has none gets a file.
unfoldable pub counter_floor_bootstrap : Enclave → Host → ℕ → Disk → Option (ℕ × ℕ) × Disk
counter_floor_bootstrap enclave host sign_count disk = elim disk.embedded_floor [
  | some embedded ↦
      elim (counter_floor_decode enclave disk.credential_id disk.created_at embedded) [
        | none ↦ (none, disk)
        | some stored ↦
            if stored != sign_count then (none, disk) else (some (sign_count, stored), disk)
      ]
  | none ↦
      let (ok, disk') = counter_floor_write_value enclave host sign_count disk in
      if ok then (some (sign_count, sign_count), disk') else (none, disk')
]

unfoldable pub counter_floor_validate : Enclave → Host → ℕ → Disk → Option (ℕ × ℕ) × Disk
counter_floor_validate enclave host sign_count disk = elim disk.counter_floor [
  | none ↦ counter_floor_bootstrap enclave host sign_count disk
  | some file ↦
      if not host.can_read
      then (none, disk)
      else elim (counter_floor_decode enclave disk.credential_id disk.created_at file) [
        | none ↦ (none, disk)
        | some stored ↦ counter_floor_compare enclave host sign_count stored disk
      ]
]

-- The index entry that `zf_store_record_format_load_index_with_buffer` makes of a decoded record:
-- its counts are those of the validation.
unfoldable pub load_index : Enclave → Host → IndexEntry → Disk → Option IndexEntry × Disk
load_index enclave host decoded disk =
    if not host.can_read
    then (none, disk)
    else (let (counts, disk') = counter_floor_validate enclave host disk.sign_count disk in
        (
          (do
            (sign_count, high_water) ← counts
            some (record decoded { sign_count = sign_count; counter_high_water = high_water })),
          disk',
        ))

-- The record file with a new count, whose floor is embedded.
unfoldable pub write_record : Enclave → Host → ℕ → Disk → Bool × Disk
write_record enclave host sign_count disk =
    elim (counter_floor_encode enclave host.record_iv disk.credential_id disk.created_at
      sign_count) [
        | none ↦ (false, disk)
        | some file ↦
            if host.record_written
            then (true, record disk { sign_count = sign_count; embedded_floor = some file })
            else (false, disk)
      ]

-- `zf_store_record_format_reserve_counter_with_buffer`
unfoldable pub reserve_counter : Enclave → Host → ℕ → Disk → Option ℕ × Disk
reserve_counter enclave host sign_count disk =
    let high_water = counter_reserved_high_water sign_count in
    let (floor_ok, disk') = counter_floor_write_value enclave host high_water disk in
    if not floor_ok
    then (none, disk')
    else (let (ok, disk'') = write_record enclave host high_water disk' in
        if ok then (some high_water, disk'') else (none, disk''))

unfoldable pub prepare_counter_advance : Enclave → Host → IndexEntry → ℕ → Disk → Option ℕ × Disk
prepare_counter_advance enclave host entry sign_count disk =
    if ltb sign_count entry.sign_count
    then (none, disk)
    else if ltb entry.counter_high_water sign_count
    then reserve_counter enclave host sign_count disk
    else (some entry.counter_high_water, disk)

-- The entry after the advance, or `none` where the count would go back.
unfoldable pub advance_entry : IndexEntry → ℕ → ℕ → Option IndexEntry
advance_entry entry sign_count high_water =
    if ltb sign_count entry.sign_count
    then none
    else some (record entry {
      counter_high_water =
          if ltb entry.counter_high_water sign_count then high_water else entry.counter_high_water;
      sign_count = sign_count;
    })

-- `zf_store_publish_counter_advance`, for the entry that it finds.
unfoldable pub publish_advance : IndexEntry → ℕ → ℕ → Option IndexEntry
publish_advance entry sign_count high_water =
    if ltb high_water sign_count then none else advance_entry entry sign_count high_water
