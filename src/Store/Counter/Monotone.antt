-- ===== src/Store/Counter/Monotone.antt =====
-- The counts that a credential signs always go up.
use zerofido.Base.{
  ℕ, ◌+◌, ◌≤◌, ◌<◌, ◌≡◌, refl, subst, Bool, not, Option, none, some, List, [], ◌∷◌, arith, ltb,
  ltb_false→le, inl, inr, ◌∙◌, Option-cases, if◌then◌else◌, if_both, if_cases,
}
use zerofido.Store.Types.{IndexEntry}
use zerofido.Store.Counter.{
  uint32_max, Enclave, Host, Disk, prepare_counter_advance, advance_entry, publish_advance,
}
use zerofido.Store.Counter.Floor.{Decrypts, Covers, by_record, by_file}
use zerofido.Store.Counter.Boot.{load_index-Covers, load_sign_count-Covers}
use zerofido.Store.Counter.Advance.{prepare-keeps, prepare-Covers}
use zerofido.Store.Counter.Device.{
  Device, load_sign_count, next_sign_count, publish_prepared, publish_counter, assert_loaded,
  assertion, Event, starts, power_off, asserts, step, emit, signed_counts,
}

-- Every count is larger than `n` and than the counts in front of it.
abbrev pub IsIncreasing : ℕ → List ℕ → Type 0
IsIncreasing n [] = Unit
IsIncreasing n (count ∷ counts) = (n < count) × IsIncreasing count counts

Covers-down :
    {enclave : Enclave} {n m : ℕ} {disk : Disk}
    → n ≤ m
    → Covers enclave m disk
    → Covers enclave n disk
Covers-down le (by_record h) = by_record (omega arith)
Covers-down le (by_file file v e d h) = by_file file v e d (omega arith)

-- The files cover the last count and the mark of the entry in memory.
IsSafe : Enclave → ℕ → Device → Type 0
IsSafe enclave n d =
    Covers enclave n d.disk
    × ((entry : IndexEntry) → d.entry ≡ some entry → Covers enclave entry.counter_high_water d.disk)

-- After a step: a count that is signed is new, and the device is safe for it.
Steps : Enclave → ℕ → Option ℕ × Device → Type 0
Steps enclave n (none, d) = IsSafe enclave n d
Steps enclave n (some count, d) = (n < count) × IsSafe enclave count d

-- The mark of the entry after its advance.
mark_after : IndexEntry → ℕ → ℕ → ℕ
mark_after entry sc hw = if ltb entry.counter_high_water sc then hw else entry.counter_high_water

publish_advance_inv :
    (entry entry' : IndexEntry) (sc hw : ℕ)
    → publish_advance entry sc hw ≡ some entry'
    → (sc ≤ hw) × (mark_after entry sc hw ≡ entry'.counter_high_water)
unfolding publish_advance advance_entry mark_after
publish_advance_inv entry entry' sc hw =
    let P = λ (r : Option IndexEntry).
      r ≡ some entry' → (sc ≤ hw) × (mark_after entry sc hw ≡ entry'.counter_high_water) in
    if_cases P (ltb hw sc) (λ _ e. cc)
      (λ le.
        if_cases P (ltb sc entry.sign_count) (λ _ e. cc)
          (λ _ e. (ltb_false→le _ _ le, ground arith)))

module _ (enclave : Enclave) (decrypts : Decrypts enclave) where
  published :
      (entry entry' : IndexEntry) (next hw : ℕ) (disk : Disk)
      → publish_advance entry next hw ≡ some entry'
      → Covers enclave entry.counter_high_water disk
      → Covers enclave hw disk
      → IsSafe enclave next (record { disk = disk; entry = some entry' })
  unfolding IsSafe mark_after
  published entry entry' next hw disk p mark covers =
      let (le, eq) = publish_advance_inv entry entry' next hw p in
      (
        Covers-down le covers,
        λ e h.
            let same : entry'.counter_high_water ≡ e.counter_high_water = ground arith in
            subst (λ t. Covers enclave t disk) (eq ∙ same)
              (if_both (λ t. Covers enclave t disk) (ltb entry.counter_high_water next) covers
                mark),
      )

  publish_prepared-Steps :
      (entry : IndexEntry) (n next : ℕ) (d : Device) (prepared : Option ℕ) (disk : Disk)
      → Covers enclave n disk
      → Covers enclave entry.counter_high_water disk
      → d.entry ≡ some entry
      → n < next
      → ((hw : ℕ) → prepared ≡ some hw → Covers enclave hw disk)
      → Steps enclave n (publish_prepared entry next d prepared disk)
  unfolding publish_prepared IsSafe Steps
  publish_prepared-Steps entry n next d none disk kept mark here le covers = (
    kept,
    λ e h.
        let eq : entry ≡ e = ground arith in
        subst (λ (e : IndexEntry). Covers enclave e.counter_high_water disk) eq mark,
  )
  publish_prepared-Steps entry n next d (some hw) disk kept mark here le covers =
      elim (Option-cases (publish_advance entry next hw)) [
        | inl p ↦
            rw (p, publish_prepared, Steps)
              (
                kept,
                λ e h.
                    let eq : entry ≡ e = ground arith in
                    subst (λ (e : IndexEntry). Covers enclave e.counter_high_water disk) eq mark,
              )
        | inr (entry', p) ↦
            rw (p, publish_prepared, Steps)
              (le, published entry entry' next hw disk p mark (covers hw refl))
      ]

  publish_counter-Steps :
      (host : Host) (entry : IndexEntry) (n next : ℕ) (d : Device)
      → IsSafe enclave n d
      → d.entry ≡ some entry
      → n < next
      → next ≤ uint32_max
      → Steps enclave n (publish_counter enclave host entry next d)
  unfolding publish_counter IsSafe
  publish_counter-Steps host entry n next d safe here le small =
      let r = prepare_counter_advance enclave host entry next d.disk in
      let kept =
        prepare-keeps enclave host decrypts entry n next d.disk safe.0 (omega arith) small in
      let (mark, covers) =
        prepare-Covers enclave host decrypts entry next d.disk (safe.1 entry here) small in
      publish_prepared-Steps entry n next d r.0 r.1 kept mark here le (λ hw e. (covers hw e).2)

  assert_loaded-Steps :
      (host : Host) (proceeds : Bool) (entry : IndexEntry) (n : ℕ) (loaded : Option ℕ) (d : Device)
      → IsSafe enclave n d
      → d.entry ≡ some entry
      → ((sc : ℕ) → loaded ≡ some sc → n ≤ sc)
      → Steps enclave n (assert_loaded enclave host proceeds entry loaded d)
  unfolding assert_loaded next_sign_count Steps
  assert_loaded-Steps host proceeds entry n none d safe here knows = safe
  assert_loaded-Steps host proceeds entry n (some sc) d safe here knows =
      if_cases {A = Option ℕ}
        (λ next. Steps enclave n (elim next [
          | none ↦ (none, d)
          | some next ↦
              if not proceeds then (none, d) else publish_counter enclave host entry next d
        ]))
        (not (ltb sc uint32_max)) (λ _. safe)
        (λ below. if_both (Steps enclave n) (not proceeds) safe (
          let le = knows sc refl in
          publish_counter-Steps host entry n (sc + 1) d safe here (omega arith) (ground arith)))

  assertion-Steps :
      (load_host host : Host) (proceeds : Bool) (n : ℕ) (d : Device)
      → IsSafe enclave n d
      → Steps enclave n (assertion enclave load_host host proceeds d)
  unfolding assertion IsSafe Steps
  assertion-Steps load_host host proceeds n d safe = elim (Option-cases d.entry) [
    | inl e ↦ rw (e, assertion) safe
    | inr (entry, e) ↦
        rw (e, assertion)
          (if_both (Steps enclave n) (not entry.in_use) safe (
            let loaded = load_sign_count enclave load_host d.disk in
            let (kept, knows) = load_sign_count-Covers enclave load_host decrypts n d.disk safe.0 in
            assert_loaded-Steps host proceeds entry n loaded.0 (record d { disk = loaded.1 })
              (
                kept,
                λ entry' h.
                    (load_sign_count-Covers enclave load_host decrypts entry'.counter_high_water
                      d.disk (safe.1 entry' h)).0,
              )
              e knows))
  ]

  step-Steps :
      (event : Event) (n : ℕ) (d : Device)
      → IsSafe enclave n d
      → Steps enclave n (step enclave event d)
  unfolding step IsSafe Steps
  step-Steps (starts host decoded) n d safe =
      let (kept, marks) = load_index-Covers enclave host decrypts n decoded d.disk safe.0 in
      (kept, λ entry e. (marks entry e).2)
  step-Steps power_off n d safe = (safe.0, λ entry e. cc)
  step-Steps (asserts load_host host proceeds) n d safe =
      assertion-Steps load_host host proceeds n d safe

  emit-IsIncreasing :
      (n : ℕ) (r : Option ℕ × Device) (counts : List ℕ)
      → Steps enclave n r
      → ((m : ℕ) → IsSafe enclave m r.1 → IsIncreasing m counts)
      → IsIncreasing n (emit r.0 counts)
  unfolding emit Steps
  emit-IsIncreasing n (none, d) counts s rest = rest n s
  emit-IsIncreasing n (some count, d) counts s rest = (s.0, rest count s.1)

  signed-IsIncreasing :
      (events : List Event) (n : ℕ) (d : Device)
      → IsSafe enclave n d
      → IsIncreasing n (signed_counts enclave events d)
  unfolding signed_counts
  signed-IsIncreasing [] n d safe = tt
  signed-IsIncreasing (event ∷ events) n d safe =
      let r = step enclave event d in
      emit-IsIncreasing n r (signed_counts enclave events r.1) (step-Steps event n d safe)
        (λ m safe'. signed-IsIncreasing events m r.1 safe')

-- If the enclave decrypts what it encrypts, the counts that a credential signs are positive and go
-- up strictly: over any starts, power losses and assertions, with whatever files the device has at
-- first, and whatever reads, writes and assertions fail in between.
pub signed_counts-IsIncreasing :
    (enclave : Enclave)
    → Decrypts enclave
    → (events : List Event) (disk : Disk)
    → IsIncreasing 0 (signed_counts enclave events (record { disk = disk; entry = none }))
unfolding IsSafe
signed_counts-IsIncreasing enclave decrypts events disk =
    signed-IsIncreasing enclave decrypts events 0 (record { disk = disk; entry = none })
      (by_record (omega arith), λ entry e. cc)
