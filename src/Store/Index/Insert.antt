-- ===== src/Store/Index/Insert.antt =====
-- The insertion of an index into a list that is ordered by age.
use mathlib.Core.List.{Perm}
use mathlib.Core.List.Perm
use zerofido.Base.{
  ℕ, suc, ◌≡◌, refl, ap, Bool, true, false, ◌&&◌, List, [], ◌∷◌, arith, Bool-cases, inl, inr,
  if_both, if_cases, length, All,
}
use zerofido.Store.Types.{IndexEntry}
use zerofido.Store.Index.{entry_at, is_newer, shift_back}
use zerofido.Store.Index.Order.{is_newer_asym, not_newer_trans}

module _ (records : List IndexEntry) where
  abbrev pub NotNewer : ℕ → ℕ → Type 0
  NotNewer i j = is_newer (entry_at records j) (entry_at records i) ≡ false

  abbrev pub IsOrdered : List ℕ → Type 0
  IsOrdered [] = Unit
  IsOrdered (i ∷ out) = All (NotNewer i) out × IsOrdered out

  shift_back-All :
      (P : ℕ → Type 0) (index : ℕ) (out : List ℕ)
      → P index
      → All P out
      → All P (shift_back records index out).1
  unfolding shift_back
  shift_back-All P index [] p h = (p, tt)
  shift_back-All P index (i ∷ out) p h =
      if_both (λ (r : Bool × List ℕ). All P r.1)
        ((shift_back records index out).0 && is_newer (entry_at records index) (entry_at records i))
        (p, (h.0, h.1)) (h.0, shift_back-All P index out p h.1)

  -- An index that stays behind some other is not newer than what all of them are not newer than.
  stays :
      (index i : ℕ) (out : List ℕ)
      → (shift_back records index out).0 ≡ false
      → All (NotNewer i) out
      → NotNewer i index
  unfolding shift_back
  stays index i [] e h = cc
  stays index i (j ∷ out) e h = elim (Bool-cases (shift_back records index out).0) [
    | inl moves ↦
        not_newer_trans (entry_at records index) (entry_at records j) (entry_at records i)
          (ground arith) h.0
    | inr kept ↦ stays index i out kept h.1
  ]

  All-behind :
      (index i : ℕ) (out : List ℕ)
      → is_newer (entry_at records index) (entry_at records i) ≡ true
      → All (NotNewer i) out
      → All (NotNewer index) out
  All-behind index i [] newer h = tt
  All-behind index i (j ∷ out) newer h = (
    not_newer_trans (entry_at records j) (entry_at records i) (entry_at records index) h.0
        (is_newer_asym (entry_at records index) (entry_at records i) newer),
    All-behind index i out newer h.1,
  )

  pub shift_back-IsOrdered :
      (index : ℕ) (out : List ℕ) → IsOrdered out → IsOrdered (shift_back records index out).1
  unfolding shift_back
  shift_back-IsOrdered index [] h = (tt, tt)
  shift_back-IsOrdered index (i ∷ out) h =
      let r = shift_back records index out in
      let newer = is_newer (entry_at records index) (entry_at records i) in
      if_cases (λ (r : Bool × List ℕ). IsOrdered r.1) (r.0 && newer)
        (λ front.
          let e : newer ≡ true = ground arith in
          (
            (
              is_newer_asym (entry_at records index) (entry_at records i) e,
              All-behind index i out e h.0,
            ),
            (h.0, h.1),
          ))
        (λ behind.
          let le : NotNewer i index = elim (Bool-cases r.0) [
            | inl moves ↦ ground arith
            | inr kept ↦ stays index i out kept h.0
          ] in
          (shift_back-All (NotNewer i) index out le h.0, shift_back-IsOrdered index out h.1))

  pub shift_back-Perm :
      (index : ℕ) (out : List ℕ) → Perm (shift_back records index out).1 (index ∷ out)
  unfolding shift_back
  shift_back-Perm index [] = Perm.refl (index ∷ [])
  shift_back-Perm index (i ∷ out) =
      if_both (λ (r : Bool × List ℕ). Perm r.1 (index ∷ i ∷ out))
        ((shift_back records index out).0 && is_newer (entry_at records index) (entry_at records i))
        (Perm.refl (index ∷ i ∷ out))
        (Perm.trans (Perm.cons i (shift_back-Perm index out)) (Perm.swap index i out))

  pub length-shift_back :
      (index : ℕ) (out : List ℕ) → length (shift_back records index out).1 ≡ suc (length out)
  unfolding shift_back
  length-shift_back index [] = refl
  length-shift_back index (i ∷ out) =
      if_both (λ (r : Bool × List ℕ). length r.1 ≡ suc (suc (length out)))
        ((shift_back records index out).0 && is_newer (entry_at records index) (entry_at records i))
        refl (ap suc (length-shift_back index out))
