-- ===== src/Store/Index/Deletion.antt =====
-- Deletions: the index without the entries that are named.
use zerofido.Base.{
  ℕ, zero, suc, ◌+◌, ◌≤◌, ◌<◌, ◌≡◌, refl, List, [], ◌∷◌, arith, ◌==◌, lt→ltb, if◌then◌else◌, length,
  All,
}
use zerofido.Store.Types.{IndexEntry}
use zerofido.Store.Index.{compact_after_delete, publish_deleted_indices}

-- The entries from index `i` on, without those with the given indices.
abbrev pub without : ℕ → List ℕ → List IndexEntry → List IndexEntry
without i deleted [] = []
without i [] (entry ∷ entries) = entry ∷ entries
without i (d ∷ deleted) (entry ∷ entries) =
    let gone = without (i + 1) deleted entries in
    let kept = without (i + 1) (d ∷ deleted) entries in if i == d then gone else entry ∷ kept

-- The indices go up, and are indices of the `n` entries.
abbrev pub IsAscending : ℕ → List ℕ → Type 0
IsAscending n [] = Unit
IsAscending n (d ∷ deleted) = (d < n) × All (λ e. d < e) deleted × IsAscending n deleted

without_later :
    (i : ℕ) (deleted : List ℕ) (entry : IndexEntry) (entries : List IndexEntry)
    → All (λ d. i < d) deleted
    → without i deleted (entry ∷ entries) ≡ entry ∷ without (i + 1) deleted entries
without_later i [] entry [] later = refl
without_later i [] entry (e ∷ entries) later = refl
without_later i (d ∷ deleted) entry entries later = ground arith

All-later :
    (i d : ℕ) (deleted : List ℕ) → i ≤ d → All (λ e. d < e) deleted → All (λ e. i < e) deleted
All-later i d [] le h = tt
All-later i d (e ∷ deleted) le h = (omega arith, All-later i d deleted le h.1)

-- One more entry goes, in front of those that are gone.
compact_without :
    (i n d : ℕ) (deleted : List ℕ) (entries : List IndexEntry)
    → d ≡ i + n
    → All (λ e. d < e) deleted
    → n < length entries
    → (n < length (without i deleted entries))
      × (compact_after_delete n (without i deleted entries) ≡ without i (d ∷ deleted) entries)
unfolding compact_after_delete
compact_without i n d deleted [] at later inside = absurd (omega arith)
compact_without i zero d deleted (entry ∷ entries) at later inside =
    let here : i ≡ d = omega arith in
    rw (without_later i deleted entry entries (All-later i d deleted (omega arith) later))
      (omega arith, ground arith)
compact_without i (suc n) d deleted (entry ∷ entries) at later inside =
    let (long, rest) =
      compact_without (i + 1) n d deleted entries (omega arith) later (omega arith) in
    rw (without_later i deleted entry entries (All-later i d deleted (omega arith) later))
      (omega arith, ground arith)

-- If the indices go up and are indices of the index, then what is left behind the publication of
-- their deletion is the other entries, in their order.
pub publish_deleted_indices_lem :
    (deleted : List ℕ) (records : List IndexEntry)
    → IsAscending (length records) deleted
    → publish_deleted_indices deleted records ≡ without 0 deleted records
unfolding publish_deleted_indices
publish_deleted_indices_lem [] [] h = refl
publish_deleted_indices_lem [] (entry ∷ records) h = refl
publish_deleted_indices_lem (d ∷ deleted) records (inside, later, h) =
    let (long, gone) = compact_without 0 d d deleted records (omega arith) later inside in
    rw (publish_deleted_indices_lem deleted records h)
      (rw (lt→ltb d (length (without 0 deleted records)) long) gone)
