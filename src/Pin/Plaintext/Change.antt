-- ===== src/Pin/Plaintext/Change.antt =====
-- Setting and changing the PIN.
use zerofido.Base.{ℕ, ◌≡◌, Bool, true, false, ◌&&◌, List, arith, if◌then◌else◌, take}
use zerofido.Ctap.Status.{success, is_success}
use zerofido.Pin.State.{ClientPinState, pin_retries_max, pin_hash_len}
use zerofido.Pin.Retry.{StateStore}
use zerofido.Pin.Token.{Hashes}
use zerofido.Pin.Plaintext.{validate_plaintext_policy, apply_plaintext}

module _ (hashes : Hashes) {Storage : Type 0} (store : StateStore Storage) where
  -- A new PIN is all or nothing. On success the policy accepts it, its hash is stored, the retries are
  -- full, the throttle is off, a token issued before is gone, and a PIN was in place only if it may be
  -- replaced. On any error the state is as it was.
  pub apply_plaintext_all_or_nothing :
      (fresh_token pin : List ℕ) (require_unset : Bool) (state : ClientPinState) (storage : Storage)
      → let (status, state', _) =
          apply_plaintext hashes store fresh_token pin require_unset state storage in
        if is_success status
        then (validate_plaintext_policy pin ≡ success)
          × (require_unset && state.pin_set ≡ false)
          × (state'.pin_set ≡ true)
          × (state'.pin_hash ≡ take pin_hash_len (hashes.sha256 pin))
          × (state'.pin_retries ≡ pin_retries_max)
          × (state'.pin_auth_blocked ≡ false)
          × (state'.pin_token ≡ fresh_token)
          × (state'.pin_token_active ≡ false)
          × (state'.pin_token_permissions ≡ 0)
        else state' ≡ state
  unfolding apply_plaintext
  apply_plaintext_all_or_nothing fresh_token pin require_unset state storage = ground arith
