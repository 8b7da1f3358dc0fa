-- ===== src/Pin/Retry/Attempts.antt =====
-- One attempt at the PIN hash, from verify_hash to the persisted counter.
use zerofido.Base.{
  ℕ, ◌≡◌, ◌≢◌, true, false, Option, none, some, List, arith, if◌then◌else◌, inl, inr, ◌<◌, ◌⊎◌,
}
use zerofido.Ctap.Status.{success}
use zerofido.Pin.State.{
  ClientPinState, KeyAgreement, pin_retries_max, pin_hash_len, constant_time_equal,
}
use zerofido.Pin.Retry.{StateStore, auth_failure, auth_success, verify_hash, resume_auth_attempts}

module _ {Storage : Type 0} (store : StateStore Storage) where
  -- The hash is accepted only if a PIN is set, the throttle is off, a retry is left and the hash
  -- agrees with the stored one. The retries are then full, the throttle is off, and just this state is
  -- in the storage.
  pub verify_hash_sound :
      (fresh_key : Option KeyAgreement) (pin_hash : List ℕ) (state : ClientPinState)
      (storage : Storage)
      → (verify_hash store fresh_key pin_hash state storage).0 ≡ success
      → let (_, state', storage') = verify_hash store fresh_key pin_hash state storage in
        ((state.pin_set ≡ true)
          × (state.pin_auth_blocked ≡ false)
          × (0 < state.pin_retries)
          × (constant_time_equal pin_hash_len pin_hash state.pin_hash ≡ true))
        × ((state'.pin_retries ≡ pin_retries_max)
            × (state'.pin_consecutive_mismatches ≡ 0)
            × (state'.pin_auth_blocked ≡ false)
            × (store.persist storage state' ≡ (true, storage')))
  unfolding verify_hash auth_failure auth_success
  verify_hash_sound fresh_key pin_hash state storage e = ground arith

  -- A wrong hash that is compared is refused. With a fresh key it costs a retry at least, whatever the
  -- storage does; when the key generator fails, it is free: neither the state nor the storage changes.
  pub wrong_hash_cost :
      (fresh_key : Option KeyAgreement) (pin_hash : List ℕ) (state : ClientPinState)
      (storage : Storage)
      → state.pin_set ≡ true
      → state.pin_auth_blocked ≡ false
      → 0 < state.pin_retries
      → constant_time_equal pin_hash_len pin_hash state.pin_hash ≡ false
      → let (status, state', storage') = verify_hash store fresh_key pin_hash state storage in
        (status ≢ success)
        × ((state'.pin_retries < state.pin_retries)
            ⊎ ((fresh_key ≡ none) × (state' ≡ state) × (storage' ≡ storage)))
  unfolding verify_hash auth_failure
  wrong_hash_cost none pin_hash state storage h k l m = (ground arith, inr (ground arith))
  wrong_hash_cost (some key) pin_hash state storage h k l m = (ground arith, inl (ground arith))

  -- Lifting the throttle on the device is all or nothing: it reports success only if the PIN is set
  -- and the throttle is off, and else the state is as it was. It never gives retries back.
  pub resume_all_or_nothing :
      (state : ClientPinState) (storage : Storage)
      → let (resumed, state', _) = resume_auth_attempts store state storage in
        (state'.pin_retries ≡ state.pin_retries)
        × (if resumed
            then (state.pin_set ≡ true)
              × (state'.pin_consecutive_mismatches ≡ 0)
              × (state'.pin_auth_blocked ≡ false)
            else state' ≡ state)
  unfolding resume_auth_attempts
  resume_all_or_nothing state storage = ground arith
