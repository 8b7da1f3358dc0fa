-- ===== src/Transport/Cids/Table.antt =====
-- The table of channels: its channels are different and assigned, and the channel of the session and
-- the one that holds the lock are never reclaimed.
use zerofido.Base.{
  ℕ, zero, suc, ◌≤◌, ◌≡◌, ◌≢◌, inl, inr, refl, ap, ◌∙◌, false, ◌||◌, List, [], ◌∷◌, ◌++◌, ◌==◌,
  length, arith, Bool-cases,
}
use zerofido.Transport.State.{AllocatedCid}
use zerofido.Transport.Cids.{max_allocated_cids, cid_is_reserved, is_listed, touch_entry, set_entry}

unfoldable pub Distinct : List AllocatedCid → Type 0
Distinct [] = Unit
Distinct (e ∷ entries) =
    (cid_is_reserved e.cid ≡ false) × (is_listed e.cid entries ≡ false) × Distinct entries

pub record IsTable (entries : List AllocatedCid) : Type 0 where
  pub bounded : length entries ≤ max_allocated_cids
  pub distinct : Distinct entries

pub is_listed-touch_entry :
    (cid now c : ℕ) (entries : List AllocatedCid)
    → is_listed c (touch_entry cid now entries) ≡ is_listed c entries
unfolding is_listed touch_entry
is_listed-touch_entry cid now c [] = refl
is_listed-touch_entry cid now c (e ∷ entries) =
    ground (arith, is_listed-touch_entry cid now c entries)

length-touch_entry :
    (cid now : ℕ) (entries : List AllocatedCid)
    → length (touch_entry cid now entries) ≡ length entries
unfolding touch_entry
length-touch_entry cid now [] = refl
length-touch_entry cid now (e ∷ entries) = ground (arith, length-touch_entry cid now entries)

touch_entry-Distinct :
    (cid now : ℕ) (entries : List AllocatedCid)
    → Distinct entries
    → Distinct (touch_entry cid now entries)
unfolding Distinct touch_entry
touch_entry-Distinct cid now [] d = d
touch_entry-Distinct cid now (e ∷ entries) d = elim (Bool-cases (e.cid == cid)) [
  | inl y ↦ rw y d
  | inr n ↦ rw n (
    d.0,
    is_listed-touch_entry cid now e.cid entries ∙ d.1,
    touch_entry-Distinct cid now entries d.2,
  )
]

pub touch_entry-IsTable :
    (cid now : ℕ) {entries : List AllocatedCid}
    → IsTable entries
    → IsTable (touch_entry cid now entries)
touch_entry-IsTable cid now {entries} t = record {
  bounded = omega (arith, length-touch_entry cid now entries, t.bounded);
  distinct = touch_entry-Distinct cid now entries t.distinct;
}

pub is_listed-append :
    (c : ℕ) (entries : List AllocatedCid) (entry : AllocatedCid)
    → is_listed c (entries ++ entry ∷ []) ≡ (is_listed c entries || entry.cid == c)
unfolding is_listed
is_listed-append c [] entry = ground arith
is_listed-append c (e ∷ entries) entry = ground (arith, is_listed-append c entries entry)

pub append-Distinct :
    (entries : List AllocatedCid) (entry : AllocatedCid)
    → Distinct entries
    → cid_is_reserved entry.cid ≡ false
    → is_listed entry.cid entries ≡ false
    → Distinct (entries ++ entry ∷ [])
unfolding Distinct is_listed
append-Distinct [] entry d r f = (r, refl, tt)
append-Distinct (e ∷ entries) entry d r f = (
  d.0,
  is_listed-append e.cid entries entry ∙ ground arith,
  append-Distinct entries entry d.2 r (ground arith),
)

pub length-set_entry :
    (i : ℕ) (entry : AllocatedCid) (entries : List AllocatedCid)
    → length (set_entry i entry entries) ≡ length entries
unfolding set_entry
length-set_entry i entry [] = refl
length-set_entry zero entry (e ∷ entries) = refl
length-set_entry (suc i) entry (e ∷ entries) = ap suc (length-set_entry i entry entries)

-- Replacing an entry lists no channel that was not listed, but the new one.
is_listed-set_entry :
    (c i : ℕ) (entry : AllocatedCid) (entries : List AllocatedCid)
    → is_listed c entries ≡ false
    → entry.cid ≢ c
    → is_listed c (set_entry i entry entries) ≡ false
unfolding is_listed set_entry
is_listed-set_entry c i entry [] f n = refl
is_listed-set_entry c zero entry (e ∷ entries) f n = ground arith
is_listed-set_entry c (suc i) entry (e ∷ entries) f n =
    let rest = is_listed-set_entry c i entry entries (ground arith) n in ground arith

pub set_entry-Distinct :
    (i : ℕ) (entry : AllocatedCid) (entries : List AllocatedCid)
    → Distinct entries
    → cid_is_reserved entry.cid ≡ false
    → is_listed entry.cid entries ≡ false
    → Distinct (set_entry i entry entries)
unfolding Distinct is_listed set_entry
set_entry-Distinct i entry [] d r f = tt
set_entry-Distinct zero entry (e ∷ entries) d r f = (r, ground arith, d.2)
set_entry-Distinct (suc i) entry (e ∷ entries) d r f = (
  d.0,
  is_listed-set_entry e.cid i entry entries d.1 (λ eq. ground arith),
  set_entry-Distinct i entry entries d.2 r (ground arith),
)
