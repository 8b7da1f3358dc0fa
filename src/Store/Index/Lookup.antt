-- ===== src/Store/Index/Lookup.antt =====
-- The lookups of the index: what they find, and in which order.
use mathlib.Core.List.{Perm, perm_middle}
use mathlib.Core.List.Perm
use zerofido.Base.{
  ℕ, zero, suc, ◌+◌, ◌-◌, ◌%◌, ◌^◌, ◌≤◌, ◌<◌, ◌≡◌, ◌⊎◌, ltb, refl, subst, Bool, false, ◌||◌, List,
  [], ◌∷◌, ◌++◌, append-nil, arith, leb, Bool-cases, inl, inr, if◌then◌else◌, length, take, All,
}
use zerofido.Store.Types.{IndexEntry, max_credentials}
use zerofido.Store.Index.{
  entry_at, is_newer, memcmp_greater, shift_back, insert_sorted_index, find_loop, matches_resident,
  matches_filter, find_by_rp, find_by_rp_filtered,
}
use zerofido.Store.Index.Insert.{
  NotNewer, IsOrdered, shift_back-IsOrdered, shift_back-Perm, length-shift_back,
}

-- The indices of the entries that match, in the order of the index.
abbrev pub matching : (IndexEntry → Bool) → ℕ → List IndexEntry → List ℕ
matching matches i [] = []
matching matches i (entry ∷ entries) =
    let rest = matching matches (i + 1) entries in if matches entry then i ∷ rest else rest

take_none : (n : ℕ) → take {A = ℕ} n [] ≡ []
take_none zero = refl
take_none (suc n) = refl

module _ (records : List IndexEntry) where
  -- `found` is the first `max_out` of the candidates behind `out`, newest first.
  abbrev Sorts : ℕ → List ℕ → List ℕ → List ℕ → Type 0
  Sorts max_out out candidates found =
      IsOrdered records found × Perm found (out ++ take (max_out - length out) candidates)

  full-Sorts :
      (max_out index : ℕ) (out candidates found : List ℕ)
      → max_out ≤ length out
      → Sorts max_out out candidates found
      → Sorts max_out out (index ∷ candidates) found
  full-Sorts max_out index out candidates found full (first, perm) =
      let none_left : max_out - length out ≡ 0 = omega arith in
      (first, rw none_left (subst (λ n. Perm found (out ++ take n candidates)) none_left perm))

  inserted-Sorts :
      (max_out index : ℕ) (out candidates found : List ℕ)
      → length out < max_out
      → Sorts max_out (shift_back records index out).1 candidates found
      → Sorts max_out out (index ∷ candidates) found
  inserted-Sorts max_out index out candidates found space (first, perm) =
      let out' = (shift_back records index out).1 in
      let room = max_out - suc (length out) in
      let left : max_out - length out' ≡ room =
        omega (arith, length-shift_back records index out) in
      let one_more : max_out - length out ≡ suc room = omega arith in
      let behind = subst (λ n. Perm found (out' ++ take n candidates)) left perm in
      let moved = Perm.append_right (take room candidates) (shift_back-Perm records index out) in
      (
        first,
        rw one_more (
            Perm.trans behind
              (Perm.trans moved (Perm.symm (perm_middle {a = index} out (take room candidates))))),
      )

  -- A candidate is inserted, or left out where the list is full.
  insert-Sorts :
      (max_out index : ℕ) (out candidates found : List ℕ)
      → index < length records
      → (IsOrdered records (insert_sorted_index records max_out index out)
          → Sorts max_out (insert_sorted_index records max_out index out) candidates found)
      → IsOrdered records out
      → Sorts max_out out (index ∷ candidates) found
  unfolding insert_sorted_index
  insert-Sorts max_out index out candidates found inside rest h =
      elim (Bool-cases (leb max_out (length out) || leb (length records) index)) [
        | inl e ↦ full-Sorts max_out index out candidates found (ground arith) (
            subst
              (λ (b : Bool).
                (IsOrdered records (if b then out else (shift_back records index out).1)
                  → Sorts max_out (if b then out else (shift_back records index out).1) candidates
                      found))
              e rest h)
        | inr e ↦ inserted-Sorts max_out index out candidates found (ground arith) (
            subst
              (λ (b : Bool).
                (IsOrdered records (if b then out else (shift_back records index out).1)
                  → Sorts max_out (if b then out else (shift_back records index out).1) candidates
                      found))
              e rest (shift_back-IsOrdered records index out h))
      ]

  find_loop-Sorts :
      (matches : IndexEntry → Bool) (max_out i : ℕ) (entries : List IndexEntry) (out : List ℕ)
      → i + length entries ≤ length records
      → length records ≤ max_credentials
      → IsOrdered records out
      → Sorts max_out out
          (matching matches i entries)
          (find_loop matches records max_out i entries out)
  unfolding find_loop
  find_loop-Sorts matches max_out i [] out le small h =
      (h, rw (take_none (max_out - length out)) (rw (append-nil out) (Perm.refl out)))
  find_loop-Sorts matches max_out i (entry ∷ entries) out le small h =
      let out' = insert_sorted_index records max_out (i % 2 ^ 16) out in
      let index : i % 2 ^ 16 ≡ i = omega arith in
      elim (Bool-cases (matches entry)) [
        | inl e ↦ rw e (
            insert-Sorts max_out i out (matching matches (i + 1) entries)
              (find_loop matches records max_out (i + 1) entries out') (omega arith)
              (subst
                (λ j.
                  (IsOrdered records (insert_sorted_index records max_out j out)
                    → Sorts max_out (insert_sorted_index records max_out j out)
                        (matching matches (i + 1) entries)
                        (find_loop matches records max_out (i + 1) entries out')))
                index (find_loop-Sorts matches max_out (i + 1) entries out' (omega arith) small))
              h)
        | inr e ↦ rw e (find_loop-Sorts matches max_out (i + 1) entries out (omega arith) small h)
      ]

  -- The entry of `j` is older than that of `i`, or as old and its id is not the greater one.
  abbrev pub Behind : ℕ → ℕ → Type 0
  Behind i j =
      let a = entry_at records i in
      let b = entry_at records j in
      (b.created_at < a.created_at)
      ⊎ ((b.created_at ≡ a.created_at)
          × (memcmp_greater 32 b.credential_id a.credential_id ≡ false))

  abbrev pub IsNewestFirst : List ℕ → Type 0
  IsNewestFirst [] = Unit
  IsNewestFirst (i ∷ out) = All (Behind i) out × IsNewestFirst out

  NotNewer-Behind : (i j : ℕ) → NotNewer records i j → Behind i j
  unfolding is_newer
  NotNewer-Behind i j h =
      elim (Bool-cases (ltb (entry_at records j).created_at (entry_at records i).created_at)) [
        | inl lt ↦ inl (ground arith)
        | inr le ↦ inr (ground arith)
      ]

  All-Behind : (i : ℕ) (out : List ℕ) → All (NotNewer records i) out → All (Behind i) out
  All-Behind i [] h = tt
  All-Behind i (j ∷ out) h = (NotNewer-Behind i j h.0, All-Behind i out h.1)

  IsOrdered-IsNewestFirst : (out : List ℕ) → IsOrdered records out → IsNewestFirst out
  IsOrdered-IsNewestFirst [] h = tt
  IsOrdered-IsNewestFirst (i ∷ out) h = (All-Behind i out h.0, IsOrdered-IsNewestFirst out h.1)

  abbrev pub Finds : (IndexEntry → Bool) → ℕ → List ℕ → Type 0
  Finds matches max_out found =
      IsNewestFirst found × Perm found (take max_out (matching matches 0 records))

  find_loop-Finds :
      (matches : IndexEntry → Bool) (max_out : ℕ)
      → length records ≤ max_credentials
      → Finds matches max_out (find_loop matches records max_out 0 records [])
  find_loop-Finds matches max_out small =
      let found = find_loop matches records max_out 0 records [] in
      let all : max_out - 0 ≡ max_out = omega arith in
      let (ordered, perm) = find_loop-Sorts matches max_out 0 records [] (omega arith) small tt in
      (
        IsOrdered-IsNewestFirst found ordered,
        subst (λ n. Perm found (take n (matching matches 0 records))) all perm,
      )

-- In an index of at most 32 entries both lookups, that for resident credentials and that with a
-- filter, find the first `max_out` of the entries that they match, each once, and list them so that
-- every entry is younger than those behind it, or as old with an id that is not smaller.
pub lookups_sort :
    (records : List IndexEntry) (rp_id : List ℕ) (filter : IndexEntry → Bool) (max_out : ℕ)
    → length records ≤ max_credentials
    → Finds records (matches_resident rp_id) max_out (find_by_rp records rp_id max_out)
      × Finds records
          (matches_filter rp_id filter)
          max_out
          (find_by_rp_filtered records rp_id filter max_out)
unfolding find_by_rp find_by_rp_filtered
lookups_sort records rp_id filter max_out small = (
  find_loop-Finds records (matches_resident rp_id) max_out small,
  find_loop-Finds records (matches_filter rp_id filter) max_out small,
)
