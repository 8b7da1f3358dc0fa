-- ===== src/Store/Counter/Boot.antt =====
-- What a credential's counter is when its files are loaded.
use zerofido.Base.{
  ℕ, ◌≤◌, ◌≡◌, ◌⊎◌, inl, inr, refl, sym, ap, subst, ◌∙◌, not, Option, none, some, arith, ltb, ◌!=◌,
  Option-cases, if◌then◌else◌, if_cases,
}
use zerofido.Base.Partial.{>>=-eq-some}
use zerofido.Store.Types.{IndexEntry}
use zerofido.Store.Counter.{
  Enclave, CounterFloorFile, Host, Disk, counter_floor_decode, counter_floor_write_value,
  counter_floor_compare, counter_floor_bootstrap, counter_floor_validate, load_index,
}
use zerofido.Store.Counter.Device.{load_sign_count}
use zerofido.Store.Counter.Floor.{
  Decrypts, Covers, by_record, by_file, write_value-Covers, write_value_ok,
}

at_most :
    {enclave : Enclave} {n : ℕ} {disk : Disk} (file : CounterFloorFile) (stored : ℕ)
    → Covers enclave n disk
    → disk.counter_floor ≡ some file
    → counter_floor_decode enclave disk.credential_id disk.created_at file ≡ some stored
    → (n ≤ disk.sign_count) ⊎ (n ≤ stored)
at_most file stored (by_record h) e d = inl h
at_most {enclave} {disk = disk} file stored (by_file f v e' d' h) e d =
    let same : f ≡ file = ground arith in
    let value : some v ≡ some stored =
      sym d' ∙ ap (counter_floor_decode enclave disk.credential_id disk.created_at) same ∙ d in
    inr (ground arith)

module _ (enclave : Enclave) (host : Host) (decrypts : Decrypts enclave) where
  -- No count is lost, and the counts that are found are not smaller.
  Validates : ℕ → Option (ℕ × ℕ) × Disk → Type 0
  Validates n r =
      Covers enclave n r.1
      × ((p : ℕ × ℕ) → r.0 ≡ some p → (n ≤ p.0) × (p.1 ≡ p.0) × Covers enclave p.0 r.1)

  none-Validates : (n : ℕ) (disk : Disk) → Covers enclave n disk → Validates n (none, disk)
  unfolding Validates
  none-Validates n disk c = (c, λ p e. cc)

  some-Validates :
      (n s h : ℕ) (disk : Disk)
      → Covers enclave n disk
      → n ≤ s
      → h ≡ s
      → Covers enclave s disk
      → Validates n (some (s, h), disk)
  unfolding Validates
  some-Validates n s h disk c le e cs = (
    c,
    λ p same.
        let eq : s ≡ p.0 = ground arith in
        (ground arith, ground arith, subst (λ t. Covers enclave t disk) eq cs),
  )

  -- The record's count is written to the companion file.
  write_through :
      (n sc : ℕ) (disk : Disk)
      → Covers enclave n disk
      → n ≤ sc
      → Validates n (
          let (ok, disk') = counter_floor_write_value enclave host sc disk in
          if ok then (some (sc, sc), disk') else (none, disk'))
  write_through n sc disk c h =
      let w = counter_floor_write_value enclave host sc disk in
      let c' = write_value-Covers enclave host decrypts n sc disk c h in
      if_cases (Validates n) w.0
        (λ ok.
          some-Validates n sc sc w.1 c' h refl (write_value_ok enclave host decrypts sc disk ok))
        (λ _. none-Validates n w.1 c')

  compare-Validates :
      (n stored : ℕ) (file : CounterFloorFile) (disk : Disk)
      → Covers enclave n disk
      → disk.counter_floor ≡ some file
      → counter_floor_decode enclave disk.credential_id disk.created_at file ≡ some stored
      → Validates n (counter_floor_compare enclave host disk.sign_count stored disk)
  unfolding counter_floor_compare
  compare-Validates n stored file disk c e d =
      let most = at_most file stored c e d in
      if_cases (Validates n) (ltb disk.sign_count stored)
        (λ lt.
          some-Validates n stored stored disk c (ground (arith, most)) refl
            (by_file file stored e d (omega arith)))
        (λ ge.
          if_cases (Validates n) (ltb stored disk.sign_count)
            (λ lt. write_through n disk.sign_count disk c (ground (arith, most)))
            (λ le.
              some-Validates n disk.sign_count stored disk c (ground (arith, most)) (ground arith)
                (by_record (omega arith))))

  bootstrap-Validates :
      (n : ℕ) (disk : Disk)
      → Covers enclave n disk
      → n ≤ disk.sign_count
      → Validates n (counter_floor_bootstrap enclave host disk.sign_count disk)
  unfolding counter_floor_bootstrap
  bootstrap-Validates n disk c h = elim (Option-cases disk.embedded_floor) [
    | inl e ↦ rw (e, counter_floor_bootstrap) (write_through n disk.sign_count disk c h)
    | inr (file, e) ↦
        elim (Option-cases (counter_floor_decode enclave disk.credential_id disk.created_at file)) [
          | inl d ↦ rw (e, counter_floor_bootstrap, d) (none-Validates n disk c)
          | inr (stored, d) ↦
              rw (e, counter_floor_bootstrap, d)
                (if_cases (Validates n) (stored != disk.sign_count) (λ _. none-Validates n disk c)
                  (λ same.
                    some-Validates n disk.sign_count stored disk c h (ground arith)
                      (by_record (omega arith))))
        ]
  ]

  validate-Validates :
      (n : ℕ) (disk : Disk)
      → Covers enclave n disk
      → Validates n (counter_floor_validate enclave host disk.sign_count disk)
  unfolding counter_floor_validate
  validate-Validates n disk c = elim (Option-cases disk.counter_floor) [
    | inl e ↦ rw (e, counter_floor_validate) (bootstrap-Validates n disk c (recorded c e))
    | inr (file, e) ↦
        rw (e, counter_floor_validate)
          (if_cases (Validates n) (not host.can_read) (λ _. none-Validates n disk c)
            (λ _.
              elim (Option-cases
                (counter_floor_decode enclave disk.credential_id disk.created_at file)) [
                  | inl d ↦ rw d (none-Validates n disk c)
                  | inr (stored, d) ↦ rw d (compare-Validates n stored file disk c e d)
                ]))
  ]
    where
      recorded : Covers enclave n disk → disk.counter_floor ≡ none → n ≤ disk.sign_count
      recorded (by_record h) e = h
      recorded (by_file f v e' d h) e = cc

  -- An entry that is loaded knows at least the counts that the files cover, and they cover its mark.
  pub load_index-Covers :
      (n : ℕ) (decoded : IndexEntry) (disk : Disk)
      → Covers enclave n disk
      → Covers enclave n (load_index enclave host decoded disk).1
        × ((entry : IndexEntry)
            → (load_index enclave host decoded disk).0 ≡ some entry
            → (n ≤ entry.sign_count)
              × (entry.counter_high_water ≡ entry.sign_count)
              × Covers enclave entry.counter_high_water (load_index enclave host decoded disk).1)
  unfolding load_index Validates
  load_index-Covers n decoded disk c =
      if_cases
        (λ (r : Option IndexEntry × Disk).
          Covers enclave n r.1
          × ((entry : IndexEntry)
              → r.0 ≡ some entry
              → (n ≤ entry.sign_count)
                × (entry.counter_high_water ≡ entry.sign_count)
                × Covers enclave entry.counter_high_water r.1))
        (not host.can_read) (λ _. (c, λ entry e. cc))
        (λ _.
          let (kept, counts) = validate-Validates n disk c in
          (
            kept,
            λ entry e.
                let (p, found, done) =
                  >>=-eq-some (counter_floor_validate enclave host disk.sign_count disk).0 _ e in
                let (le, eq, covers) = counts p found in
                let s : p.0 ≡ entry.sign_count = ground arith in
                let h : p.1 ≡ entry.counter_high_water = ground arith in
                (
                  omega arith,
                  omega arith,
                  subst
                      (λ t.
                        Covers enclave t
                          (counter_floor_validate enclave host disk.sign_count disk).1)
                      (sym eq ∙ h) covers,
                ),
          ))

  -- A record that is loaded knows at least the counts that the files cover.
  pub load_sign_count-Covers :
      (n : ℕ) (disk : Disk)
      → Covers enclave n disk
      → Covers enclave n (load_sign_count enclave host disk).1
        × ((sc : ℕ) → (load_sign_count enclave host disk).0 ≡ some sc → n ≤ sc)
  unfolding load_sign_count Validates
  load_sign_count-Covers n disk c =
      if_cases (λ (r : Option ℕ × Disk). Covers enclave n r.1 × ((sc : ℕ) → r.0 ≡ some sc → n ≤ sc))
        (not host.can_read) (λ _. (c, λ sc e. cc))
        (λ _.
          let (kept, counts) = validate-Validates n disk c in
          (
            kept,
            λ sc e.
                let (p, found, done) =
                  >>=-eq-some (counter_floor_validate enclave host disk.sign_count disk).0 _ e in
                let le = (counts p found).0 in let s : p.0 ≡ sc = ground arith in omega arith,
          ))
