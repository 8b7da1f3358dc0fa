-- ===== src/Ctap/Queue/Tests.antt =====
-- A run of getNextAssertion over two credentials of one relying party.
use zerofido.Base.{ℕ, ◌≡◌, refl, true, false, Option, none, some, List, [], ◌∷◌, replicate}
use zerofido.Ctap.Status.{success}
use zerofido.Store.Types.{CredentialRecord, IndexEntry}
use zerofido.Store.Counter.{
  Enclave, CounterFloorSeal, Host, Disk, counter_floor_validate, counter_floor_bootstrap,
  counter_floor_write_value, counter_floor_encode, compute_counter_binding, le_bytes4,
  prepare_counter_advance, advance_entry,
}
use zerofido.Store.Counter.Device.{load_sign_count, next_sign_count}
use zerofido.Crypto.Hash.{sha256}
use zerofido.Base.Memory.{write_at}
use zerofido.Base.{be_bytes}
use zerofido.Ctap.Parse.Shared.{bytes_equal}
use zerofido.Crypto.Sha256.{
  finish, store_words, compress, first_working, add_working, extend, load_be32, load_words, rotr,
  round, rounds, take_chunk, transform, update, update_loop,
}
use zerofido.Ctap.Queue.{
  App, cleared_queue, Surroundings, handle_next, take_snapshot, snapshot_of, is_due, continue_next,
  load_record, set_disk, serve_loaded, advance_next, publish_reserved, publish_next,
  publish_counter_advance, publish_loop, still_current, queue_entry_matches_record, same_id,
  next_queue, clear_if_current, queue_seed,
}
use zerofido.Base.{arith, inl, take}
use zerofido.Ctap.Queue.Order.{Turn, served, IsInOrder, queue_seed-IsInOrder}
use zerofido.Ctap.Queue.Next.{Answers, handle_next-Answers}

abbrev unsealed : List ℕ → List ℕ → Option CounterFloorSeal
unsealed iv [] = none
unsealed iv (magic ∷ []) = none
unsealed iv (magic ∷ sign_count ∷ binding) =
    some (record { magic = magic; sign_count = sign_count; binding = binding })

abbrev enclave : Enclave
enclave = record {
  encrypt = λ iv plain. some (plain.magic ∷ plain.sign_count ∷ plain.binding);
  decrypt = unsealed;
}

abbrev host : Host
host = record {
  floor_iv = [];
  record_iv = [];
  can_read = true;
  floor_written = true;
  record_written = true;
}

abbrev entry : ℕ → IndexEntry
entry n = record {
  in_use = true;
  resident_key = true;
  credential_id = replicate 32 n;
  credential_id_len = 32;
  rp_id_hash = replicate 32 1;
  sign_count = 5;
  counter_high_water = 40;
  created_at = n;
  cred_protect = 1;
}

abbrev disk : List ℕ → Disk
disk id = record {
  credential_id = id;
  created_at = 1;
  sign_count = 5;
  embedded_floor = none;
  counter_floor = none;
}

abbrev credential : ℕ → CredentialRecord
credential n = record {
  in_use = true;
  resident_key = true;
  file_name = [];
  storage_version = 1;
  credential_id = replicate 32 n;
  credential_id_len = 32;
  rp_id = 0x61 ∷ [];
  user_id = 1 ∷ [];
  user_name = [];
  user_display_name = [];
  public_x = [];
  public_y = [];
  private_wrapped = [];
  private_iv = [];
  sign_count = 5;
  created_at = n;
  cred_protect = 1;
  hmac_secret = false;
  hmac_secret_without_uv = [];
  hmac_secret_with_uv = [];
}

-- The queue behind a first assertion for the second entry.
abbrev seeded : App
seeded = queue_seed 1000 7 (0x61 ∷ []) false false (1 ∷ 0 ∷ []) 2 (record {
  queue = cleared_queue;
  records = entry 3 ∷ entry 4 ∷ [];
  maintenance_busy = false;
  disks = disk;
})

abbrev around : Surroundings
around = record {
  enclave = enclave;
  load_host = host;
  host = host;
  first_poll = success;
  second_poll = success;
  scratch = true;
  tick = 2000;
  publish_tick = 2500;
  file = some (credential 3);
  built = success;
  meanwhile = λ app. app;
}

serves : (handle_next around 7 seeded).0 ≡ success
unfolding handle_next take_snapshot snapshot_of is_due continue_next load_record set_disk
    serve_loaded advance_next publish_reserved publish_next publish_counter_advance publish_loop
    still_current queue_entry_matches_record same_id next_queue clear_if_current queue_seed
    load_sign_count next_sign_count counter_floor_validate counter_floor_bootstrap
    counter_floor_write_value counter_floor_encode compute_counter_binding le_bytes4
    prepare_counter_advance advance_entry sha256 write_at be_bytes bytes_equal finish store_words
    compress first_working add_working extend load_be32 load_words rotr round rounds take_chunk
    transform update update_loop
serves = refl

handle_next-Answers_example : Answers around 7 seeded (handle_next around 7 seeded)
handle_next-Answers_example = handle_next-Answers around 7 seeded

abbrev turn : Turn
turn = record { before = λ app. app; session_id = 7; around = around }

-- The second turn comes when the queue is at its end.
served_once : served (turn ∷ turn ∷ []) seeded ≡ 0 ∷ []
unfolding served handle_next take_snapshot snapshot_of is_due continue_next load_record set_disk
    serve_loaded advance_next publish_reserved publish_next publish_counter_advance publish_loop
    still_current queue_entry_matches_record same_id next_queue clear_if_current queue_seed
    load_sign_count next_sign_count counter_floor_validate counter_floor_bootstrap
    counter_floor_write_value counter_floor_encode compute_counter_binding le_bytes4
    prepare_counter_advance advance_entry sha256 write_at be_bytes bytes_equal finish store_words
    compress first_working add_working extend load_be32 load_words rotr round rounds take_chunk
    transform update update_loop
served_once = refl

queue_seed-IsInOrder_example : IsInOrder (take 2 (1 ∷ 0 ∷ [])) 2 1 (
    served (turn ∷ turn ∷ []) (
      queue_seed 1000 7 (0x61 ∷ []) false false (1 ∷ 0 ∷ []) 2 (record {
        queue = cleared_queue;
        records = entry 3 ∷ entry 4 ∷ [];
        maintenance_busy = false;
        disks = disk;
      })))
queue_seed-IsInOrder_example =
    queue_seed-IsInOrder 1000 7 (0x61 ∷ []) false false (1 ∷ 0 ∷ []) 2
      (record {
        queue = cleared_queue;
        records = entry 3 ∷ entry 4 ∷ [];
        maintenance_busy = false;
        disks = disk;
      })
      (turn ∷ turn ∷ []) (omega arith)
      ((λ app. inl refl, λ app. inl refl), ((λ app. inl refl, λ app. inl refl), tt))
