-- ===== src/Pin/Lifecycle/Restart.antt =====
-- What a restart and a reset do to the PIN state.
use zerofido.Base.{ℕ, ◌≡◌, refl, true, false, Option, none, some, List, arith, if◌then◌else◌}
use zerofido.Pin.State.{ClientPinState, KeyAgreement, pin_retries_max, pin_hash_len, zeros}
use zerofido.Pin.Lifecycle.{PinFile, ok, init_ok, zero_state, init_with_result, clear}

module _ {Storage : Type 0} (file : PinFile Storage) where
  -- After a start from a stored PIN the retries and the hash are the stored ones, and no token is
  -- active; but the throttle that was stored is off.
  pub restart_lifts_throttle :
      (fresh_token : List ℕ) (key : KeyAgreement) (storage : Storage) (loaded : ClientPinState)
      → file.load (file.cleanup_temp storage) (record zero_state { pin_retries = pin_retries_max })
        ≡ (ok, loaded)
      → let (result, state, _) = init_with_result file fresh_token (some key) storage in
        (result ≡ init_ok)
        × (state.pin_set ≡ true)
        × (state.pin_hash ≡ loaded.pin_hash)
        × (state.pin_retries ≡ loaded.pin_retries)
        × (state.pin_auth_blocked ≡ false)
        × (state.pin_consecutive_mismatches ≡ 0)
        × (state.pin_token_active ≡ false)
        × (state.pin_token_permissions ≡ 0)
  unfolding init_with_result
  restart_lifts_throttle fresh_token key storage loaded e = ground arith

  -- A reset is all or nothing: where it reports success no PIN is set, its hash is zeros, the retries
  -- are full and no token is active; else the state is as it was.
  pub clear_all_or_nothing :
      (fresh_token : List ℕ) (fresh_key : Option KeyAgreement) (state : ClientPinState)
      (storage : Storage)
      → let (cleared, state', _) = clear file fresh_token fresh_key state storage in
        if cleared
        then (state'.pin_set ≡ false)
          × (state'.pin_hash ≡ zeros pin_hash_len)
          × (state'.pin_retries ≡ pin_retries_max)
          × (state'.pin_auth_blocked ≡ false)
          × (state'.pin_token ≡ fresh_token)
          × (state'.pin_token_active ≡ false)
        else state' ≡ state
  unfolding clear
  clear_all_or_nothing fresh_token none state storage = refl
  clear_all_or_nothing fresh_token (some key) state storage = ground arith
