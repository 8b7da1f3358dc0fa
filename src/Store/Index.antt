-- ===== src/Store/Index.antt =====
-- The index of the credential store in memory (zerofido_store.c): its lookups and deletions.
pub mod Order
pub mod Insert
pub mod Lookup
pub mod Deletion
use zerofido.Base.{
  ℕ, zero, suc, ◌+◌, ◌-◌, ◌*◌, ◌%◌, ◌^◌, Bool, true, false, not, ◌&&◌, ◌||◌, Option, none, some,
  List, [], ◌∷◌, ◌++◌, ltb, leb, ◌==◌, ◌!=◌, if◌then◌else◌, length, take, drop, get_or, replicate,
}
use zerofido.Crypto.Hash.{sha256}
use zerofido.Ctap.Parse.Shared.{bytes_equal}
use zerofido.Pin.State.{constant_time_equal}
use zerofido.Store.Types.{IndexEntry}

-- An entry of the memory behind the last one.
abbrev pub empty_entry : IndexEntry
empty_entry = record {
  in_use = false;
  resident_key = false;
  credential_id = replicate 32 0;
  credential_id_len = 0;
  rp_id_hash = replicate 32 0;
  sign_count = 0;
  counter_high_water = 0;
  created_at = 0;
  cred_protect = 0;
}

abbrev pub entry_at : List IndexEntry → ℕ → IndexEntry
entry_at records index = get_or records index empty_entry

-- `memcmp(a, b, n) > 0`
unfoldable pub memcmp_greater : ℕ → List ℕ → List ℕ → Bool
memcmp_greater zero a b = false
memcmp_greater (suc n) [] b = false
memcmp_greater (suc n) (x ∷ a) [] = true
memcmp_greater (suc n) (x ∷ a) (y ∷ b) =
    let rest = memcmp_greater n a b in if x == y then rest else ltb y x

-- `zf_store_index_is_newer`
unfoldable pub is_newer : IndexEntry → IndexEntry → Bool
is_newer candidate other =
    if candidate.created_at != other.created_at
    then ltb other.created_at candidate.created_at
    else memcmp_greater 32 candidate.credential_id other.credential_id

-- The loop of `zf_store_insert_sorted_index`, which runs from the last index to the first: the list
-- with the new index in it, and whether it still moves to the front.
unfoldable pub shift_back : List IndexEntry → ℕ → List ℕ → Bool × List ℕ
shift_back records index [] = (true, index ∷ [])
shift_back records index (i ∷ out) =
    let (moves, shifted) = shift_back records index out in
    if moves && is_newer (entry_at records index) (entry_at records i)
    then (true, index ∷ i ∷ out)
    else (false, i ∷ shifted)

unfoldable pub insert_sorted_index : List IndexEntry → ℕ → ℕ → List ℕ → List ℕ
insert_sorted_index records max_out index out =
    if leb max_out (length out) || leb (length records) index
    then out
    else (shift_back records index out).1

unfoldable pub rp_hash_matches : IndexEntry → List ℕ → Bool
rp_hash_matches entry rp_id_hash = constant_time_equal 32 entry.rp_id_hash rp_id_hash

-- The loop that the two lookups share: `matches` is their test, `i` the index of the next entry.
unfoldable pub find_loop :
    (IndexEntry → Bool) → List IndexEntry → ℕ → ℕ → List IndexEntry → List ℕ → List ℕ
find_loop matches records max_out i [] out = out
find_loop matches records max_out i (entry ∷ entries) out =
    find_loop matches records max_out (i + 1) entries
      (if matches entry then insert_sorted_index records max_out (i % 2 ^ 16) out else out)

unfoldable pub matches_resident : List ℕ → IndexEntry → Bool
matches_resident rp_id entry =
    entry.in_use && entry.resident_key && rp_hash_matches entry (sha256 rp_id)

unfoldable pub find_by_rp : List IndexEntry → List ℕ → ℕ → List ℕ
find_by_rp records rp_id max_out = find_loop (matches_resident rp_id) records max_out 0 records []

unfoldable pub matches_filter : List ℕ → (IndexEntry → Bool) → IndexEntry → Bool
matches_filter rp_id filter entry =
    entry.in_use && rp_hash_matches entry (sha256 rp_id) && filter entry

unfoldable pub find_by_rp_filtered : List IndexEntry → List ℕ → (IndexEntry → Bool) → ℕ → List ℕ
find_by_rp_filtered records rp_id filter max_out =
    find_loop (matches_filter rp_id filter) records max_out 0 records []

-- `zf_store_compact_after_delete`
unfoldable pub compact_after_delete : ℕ → List IndexEntry → List IndexEntry
compact_after_delete index records = take index records ++ drop (suc index) records

-- From the last deleted index to the first.
unfoldable pub publish_deleted_indices : List ℕ → List IndexEntry → List IndexEntry
publish_deleted_indices [] records = records
publish_deleted_indices (index ∷ deleted_indices) records =
    let rest = publish_deleted_indices deleted_indices records in
    if ltb index (length rest) then compact_after_delete index rest else rest
