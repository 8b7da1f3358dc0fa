-- ===== src/Store/Tests.antt =====
-- Runs of the signature counters and of the index.
use zerofido.Base.{ℕ, ◌≡◌, refl, true, false, Option, none, some, List, [], ◌∷◌, replicate}
use zerofido.Base.{arith}
use zerofido.Store.Types.{IndexEntry}
use zerofido.Store.Index.{
  find_loop, insert_sorted_index, shift_back, is_newer, memcmp_greater, matches_resident,
  matches_filter, find_by_rp, find_by_rp_filtered, publish_deleted_indices,
}
use zerofido.Store.Index.Lookup.{Finds, lookups_sort}
use zerofido.Store.Index.Deletion.{without, publish_deleted_indices_lem}
use zerofido.Store.Counter.{
  Enclave, CounterFloorSeal, Host, Disk, load_index, counter_floor_validate,
  counter_floor_bootstrap, counter_floor_write_value, counter_floor_encode, counter_floor_decode,
  counter_floor_compare, compute_counter_binding, counter_reserved_high_water, le_bytes4,
  prepare_counter_advance, publish_advance, advance_entry, reserve_counter, write_record,
}
use zerofido.Pin.State.{constant_time_equal, byte_diff}
use zerofido.Crypto.Hash.{sha256}
use zerofido.Base.Memory.{write_at}
use zerofido.Base.{be_bytes}
use zerofido.Crypto.Sha256.{
  finish, store_words, compress, first_working, add_working, extend, load_be32, load_words, rotr,
  round, rounds, take_chunk, transform, update, update_loop,
}
use zerofido.Store.Counter.Floor.{Decrypts}
use zerofido.Store.Counter.Device.{
  Event, starts, power_off, asserts, signed_counts, emit, step, assertion, assert_loaded,
  load_sign_count, next_sign_count, publish_counter, publish_prepared,
}
use zerofido.Store.Counter.Monotone.{IsIncreasing, signed_counts-IsIncreasing}

-- An enclave that stores the fields of the seal as they are.
abbrev open_seal : List ℕ → List ℕ → Option CounterFloorSeal
open_seal iv [] = none
open_seal iv (magic ∷ []) = none
open_seal iv (magic ∷ sign_count ∷ binding) =
    some (record { magic = magic; sign_count = sign_count; binding = binding })

abbrev open_enclave : Enclave
open_enclave = record {
  encrypt = λ iv plain. some (plain.magic ∷ plain.sign_count ∷ plain.binding);
  decrypt = open_seal;
}

open_enclave-Decrypts : Decrypts open_enclave
open_enclave-Decrypts iv plain sealed e =
    let same : plain.magic ∷ plain.sign_count ∷ plain.binding ≡ sealed = ground arith in
    rw (← same) refl

abbrev working : Host
working = record {
  floor_iv = [];
  record_iv = [];
  can_read = true;
  floor_written = true;
  record_written = true;
}

abbrev full : Host
full = record working { record_written = false }

abbrev legacy : Disk
legacy = record {
  credential_id = replicate 32 7;
  created_at = 1000;
  sign_count = 5;
  embedded_floor = none;
  counter_floor = none;
}

abbrev decoded : IndexEntry
decoded = record {
  in_use = true;
  resident_key = true;
  credential_id = replicate 32 7;
  credential_id_len = 32;
  rp_id_hash = replicate 32 1;
  sign_count = 5;
  counter_high_water = 5;
  created_at = 1000;
  cred_protect = 1;
}

-- An assertion fails where the record cannot be written, and the device is restarted.
abbrev life : List Event
life =
    starts working decoded
    ∷ asserts working working true
    ∷ asserts working full true
    ∷ power_off
    ∷ asserts working working true
    ∷ starts working decoded
    ∷ asserts working working true
    ∷ []

life_counts : signed_counts open_enclave life (record { disk = legacy; entry = none }) ≡ 6 ∷ 72 ∷ []
unfolding signed_counts emit step assertion assert_loaded load_sign_count next_sign_count
    publish_counter publish_prepared load_index counter_floor_validate counter_floor_bootstrap
    counter_floor_write_value counter_floor_encode counter_floor_decode counter_floor_compare
    compute_counter_binding counter_reserved_high_water le_bytes4 prepare_counter_advance
    publish_advance advance_entry reserve_counter write_record constant_time_equal byte_diff sha256
    write_at be_bytes finish store_words compress first_working add_working extend load_be32
    load_words rotr round rounds take_chunk transform update update_loop
life_counts = refl

-- Each assertion reserves anew, since its record's count is the end of the last reservation.
two_counts :
    signed_counts open_enclave
      (starts working decoded ∷ asserts working working true ∷ asserts working working true ∷ [])
      (record { disk = legacy; entry = none })
    ≡ 6 ∷ 39 ∷ []
unfolding signed_counts emit step assertion assert_loaded load_sign_count next_sign_count
    publish_counter publish_prepared load_index counter_floor_validate counter_floor_bootstrap
    counter_floor_write_value counter_floor_encode counter_floor_decode counter_floor_compare
    compute_counter_binding counter_reserved_high_water le_bytes4 prepare_counter_advance
    publish_advance advance_entry reserve_counter write_record constant_time_equal byte_diff sha256
    write_at be_bytes finish store_words compress first_working add_working extend load_be32
    load_words rotr round rounds take_chunk transform update update_loop
two_counts = refl

signed_counts-IsIncreasing_example :
    IsIncreasing 0 (signed_counts open_enclave life (record { disk = legacy; entry = none }))
signed_counts-IsIncreasing_example =
    signed_counts-IsIncreasing open_enclave open_enclave-Decrypts life legacy

-- Three credentials, of which the first two were created at the same time.
abbrev three_entries : List IndexEntry
three_entries =
    record decoded { credential_id = 9 ∷ replicate 31 0 }
    ∷ record decoded { credential_id = 8 ∷ replicate 31 0 }
    ∷ record decoded { created_at = 2000 }
    ∷ []

three_sorted :
    find_loop (λ entry. entry.resident_key) three_entries 4 0 three_entries [] ≡ 2 ∷ 0 ∷ 1 ∷ []
unfolding find_loop insert_sorted_index shift_back is_newer memcmp_greater
three_sorted = refl

lookups_sort_example :
    Finds three_entries (matches_resident (0x61 ∷ [])) 4 (find_by_rp three_entries (0x61 ∷ []) 4)
    × Finds three_entries
        (matches_filter (0x61 ∷ []) (λ entry. entry.resident_key))
        4
        (find_by_rp_filtered three_entries (0x61 ∷ []) (λ entry. entry.resident_key) 4)
lookups_sort_example =
    lookups_sort three_entries (0x61 ∷ []) (λ entry. entry.resident_key) 4 (omega arith)

publish_deleted_indices_lem_example :
    publish_deleted_indices (0 ∷ 2 ∷ []) three_entries ≡ without 0 (0 ∷ 2 ∷ []) three_entries
publish_deleted_indices_lem_example =
    publish_deleted_indices_lem (0 ∷ 2 ∷ []) three_entries (omega arith)
