-- ===== src/Store/Counter/Advance.antt =====
-- What an advance of a counter that is prepared leaves in the files of its credential.
use zerofido.Base.{
  ℕ, ◌≤◌, ◌≡◌, sym, subst, Option, some, arith, ltb, ltb→lt, ltb_false→le, if_both, if_cases,
}
use zerofido.Store.Types.{IndexEntry}
use zerofido.Store.Counter.{
  uint32_max, Enclave, Host, Disk, counter_reserved_high_water, reserve_counter,
  prepare_counter_advance,
}
use zerofido.Store.Counter.Floor.{Decrypts, Covers, reserve-Covers, reserve_ok}

module _ (enclave : Enclave) (host : Host) (decrypts : Decrypts enclave) where
  pub prepare-keeps :
      (entry : IndexEntry) (n sc : ℕ) (disk : Disk)
      → Covers enclave n disk
      → n ≤ sc
      → sc ≤ uint32_max
      → Covers enclave n (prepare_counter_advance enclave host entry sc disk).1
  unfolding prepare_counter_advance
  prepare-keeps entry n sc disk c le small =
      let P = λ (r : Option ℕ × Disk). Covers enclave n r.1 in
      let up : sc ≤ counter_reserved_high_water sc =
        unfold counter_reserved_high_water in ground arith in
      if_both P (ltb sc entry.sign_count) c (
        if_both P (ltb entry.counter_high_water sc)
          (reserve-Covers enclave host decrypts n sc disk c (omega arith)) c)

  -- An advance that is prepared loses no count; it returns a mark that the new count does not pass
  -- and that the files cover.
  pub prepare-Covers :
      (entry : IndexEntry) (sc : ℕ) (disk : Disk)
      → Covers enclave entry.counter_high_water disk
      → sc ≤ uint32_max
      → Covers enclave entry.counter_high_water
          (prepare_counter_advance enclave host entry sc disk).1
        × ((hw : ℕ)
            → (prepare_counter_advance enclave host entry sc disk).0 ≡ some hw
            → (sc ≤ hw)
              × (entry.counter_high_water ≤ hw)
              × Covers enclave hw (prepare_counter_advance enclave host entry sc disk).1)
  unfolding prepare_counter_advance
  prepare-Covers entry sc disk c small =
      let mark = entry.counter_high_water in
      let P = λ (r : Option ℕ × Disk).
        Covers enclave mark r.1
        × ((hw : ℕ) → r.0 ≡ some hw → (sc ≤ hw) × (mark ≤ hw) × Covers enclave hw r.1) in
      let up : sc ≤ counter_reserved_high_water sc =
        unfold counter_reserved_high_water in ground arith in
      if_cases P (ltb sc entry.sign_count) (λ _. (c, λ hw e. cc))
        (λ ge.
          if_cases P (ltb mark sc)
            (λ beyond. (
              reserve-Covers enclave host decrypts mark sc disk c
                  (omega (arith, ltb→lt _ _ beyond)),
              λ hw e.
                  let (eq, covers) = reserve_ok enclave host decrypts sc disk hw e in
                  (
                    omega arith,
                    omega (arith, ltb→lt _ _ beyond),
                    subst (λ t. Covers enclave t (reserve_counter enclave host sc disk).1) (sym eq)
                        covers,
                  ),
            ))
            (λ inside. (
              c,
              λ hw e.
                  let same : mark ≡ hw = ground arith in
                  (
                    omega (arith, ltb_false→le _ _ inside),
                    omega arith,
                    subst (λ t. Covers enclave t disk) same c,
                  ),
            )))
