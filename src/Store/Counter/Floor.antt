-- ===== src/Store/Counter/Floor.antt =====
-- What the files of a credential still know of its counter after each operation.
use zerofido.Base.{
  ℕ, zero, suc, ◌≤◌, ◌≡◌, inl, inr, refl, Bool, true, not, Option, some, List, [], ◌∷◌, ◌++◌, arith,
  Option-cases, if_both, if_cases, length, take, All, IsByte, length-take,
}
use zerofido.Base.Partial.{>>=-eq-some}
use zerofido.Crypto.Hash.{sha256, sha256-IsByte, length-sha256}
use zerofido.Pin.State.{constant_time_equal}
use zerofido.Pin.Equal.{constant_time_equal_iff}
use zerofido.Store.Counter.{
  le_bytes4, Enclave, CounterFloorSeal, CounterFloorFile, Host, Disk, compute_counter_binding,
  counter_reserved_high_water, counter_floor_encode, counter_floor_decode,
  counter_floor_write_value, write_record, reserve_counter,
}

-- What is encrypted decrypts again.
abbrev pub Decrypts : Enclave → Type 0
Decrypts enclave =
    (iv : List ℕ) (plain : CounterFloorSeal) (sealed : List ℕ)
    → enclave.encrypt iv plain ≡ some sealed
    → enclave.decrypt iv sealed ≡ some plain

All-take : (n : ℕ) (a : List ℕ) → All IsByte a → All IsByte (take n a)
All-take zero a h = tt
All-take (suc n) [] h = tt
All-take (suc n) (x ∷ a) h = (h.0, All-take n a h.1)

binding_matches :
    (credential_id : List ℕ) (created_at : ℕ)
    → constant_time_equal 24
        (compute_counter_binding credential_id created_at)
        (compute_counter_binding credential_id created_at)
      ≡ true
unfolding compute_counter_binding
binding_matches credential_id created_at =
    let material = credential_id ++ le_bytes4 created_at in
    let bytes = All-take 24 (sha256 material) (sha256-IsByte material) in
    let long : 24 ≤ length (take 24 (sha256 material)) =
      omega (arith, length-take 24 (sha256 material), length-sha256 material) in
    (constant_time_equal_iff 24 (take 24 (sha256 material)) (take 24 (sha256 material)) bytes bytes
        long long).1
      refl

pub decode-encode :
    (enclave : Enclave) (iv credential_id : List ℕ) (created_at v : ℕ) {file : CounterFloorFile}
    → Decrypts enclave
    → counter_floor_encode enclave iv credential_id created_at v ≡ some file
    → counter_floor_decode enclave credential_id created_at file ≡ some v
unfolding counter_floor_encode counter_floor_decode
decode-encode enclave iv credential_id created_at v {file} d e =
    let (sealed, enc, done) = >>=-eq-some (enclave.encrypt iv _) _ e in
    let same : record { version = 1; iv = iv; sealed = sealed } ≡ file = ground arith in
    rw (← same) (rw (d iv _ sealed enc) (rw (binding_matches credential_id created_at) refl))

-- A count that the credential's files do not fall behind: it is in the record, or sealed in the
-- companion file.
pub data Covers (enclave : Enclave) (n : ℕ) (disk : Disk) : Type 0 where
  by_record : n ≤ disk.sign_count → Covers enclave n disk
  by_file :
      (file : CounterFloorFile) (v : ℕ)
      → disk.counter_floor ≡ some file
      → counter_floor_decode enclave disk.credential_id disk.created_at file ≡ some v
      → n ≤ v
      → Covers enclave n disk

module _ (enclave : Enclave) (host : Host) (decrypts : Decrypts enclave) where
  -- Whatever happens, a write of a count loses none that is not larger.
  pub write_value-Covers :
      (n v : ℕ) (disk : Disk)
      → Covers enclave n disk
      → n ≤ v
      → Covers enclave n (counter_floor_write_value enclave host v disk).1
  unfolding counter_floor_write_value
  write_value-Covers n v disk c h =
      elim (Option-cases
        (counter_floor_encode enclave host.floor_iv disk.credential_id disk.created_at v)) [
          | inl e ↦ rw (e, counter_floor_write_value) c
          | inr (file, e) ↦
              rw (e, counter_floor_write_value)
                (if_both (λ (r : Bool × Disk). Covers enclave n r.1) host.floor_written
                  (by_file file v refl
                    (decode-encode enclave host.floor_iv disk.credential_id disk.created_at v
                      decrypts e)
                    h)
                  c)
        ]

  pub write_value_ok :
      (v : ℕ) (disk : Disk)
      → (counter_floor_write_value enclave host v disk).0 ≡ true
      → Covers enclave v (counter_floor_write_value enclave host v disk).1
  unfolding counter_floor_write_value
  write_value_ok v disk =
      elim (Option-cases
        (counter_floor_encode enclave host.floor_iv disk.credential_id disk.created_at v)) [
          | inl e ↦ rw (e, counter_floor_write_value) (λ h. cc)
          | inr (file, e) ↦
              rw (e, counter_floor_write_value)
                (if_both (λ (r : Bool × Disk). r.0 ≡ true → Covers enclave v r.1) host.floor_written
                  (λ _.
                    by_file file v refl
                      (decode-encode enclave host.floor_iv disk.credential_id disk.created_at v
                        decrypts e)
                      (omega arith))
                  (λ h. cc))
        ]

  write_record-Covers :
      (n v : ℕ) (disk : Disk)
      → Covers enclave n disk
      → n ≤ v
      → Covers enclave n (write_record enclave host v disk).1
  unfolding write_record
  write_record-Covers n v disk c h =
      elim (Option-cases
        (counter_floor_encode enclave host.record_iv disk.credential_id disk.created_at v)) [
          | inl e ↦ rw (e, write_record) c
          | inr (file, e) ↦
              rw (e, write_record)
                (if_both (λ (r : Bool × Disk). Covers enclave n r.1) host.record_written
                  (by_record h) c)
        ]

  -- A reservation loses no count, and covers the mark that it returns.
  pub reserve-Covers :
      (n sc : ℕ) (disk : Disk)
      → Covers enclave n disk
      → n ≤ counter_reserved_high_water sc
      → Covers enclave n (reserve_counter enclave host sc disk).1
  unfolding reserve_counter
  reserve-Covers n sc disk c h =
      let v = counter_reserved_high_water sc in
      let w = counter_floor_write_value enclave host v disk in
      let c' = write_value-Covers n v disk c h in
      if_both (λ (r : Option ℕ × Disk). Covers enclave n r.1) (not w.0) c'
        (let c'' = write_record-Covers n v w.1 c' h in
          if_both (λ (r : Option ℕ × Disk). Covers enclave n r.1)
            (write_record enclave host v w.1).0 c'' c'')

  abbrev pub Reserved : ℕ → Option ℕ × Disk → Type 0
  Reserved v r = (hw : ℕ) → r.0 ≡ some hw → (hw ≡ v) × Covers enclave v r.1

  pub reserve_ok :
      (sc : ℕ) (disk : Disk)
      → Reserved (counter_reserved_high_water sc) (reserve_counter enclave host sc disk)
  unfolding reserve_counter
  reserve_ok sc disk =
      let v = counter_reserved_high_water sc in
      let w = counter_floor_write_value enclave host v disk in
      if_cases (Reserved v) (not w.0) (λ _ hw e. cc)
        (λ ok.
          let c = write_value_ok v disk (ground arith) in
          let c' = write_record-Covers v v w.1 c (omega arith) in
          if_both (Reserved v) (write_record enclave host v w.1).0 (λ hw e. (ground arith, c'))
            (λ hw e. cc))
