-- ===== src/Pin/Retry.antt =====
-- pin/core/retry.c: the PIN retry counter, the throttle after three mismatches, and their
-- persistence. A function that changes the state returns its status, the state and the storage.
-- The key generator's answer is an argument: `none` where it fails.
pub mod Attempts
pub mod Budget
use zerofido.Base.{
  ℕ, ◌+◌, ◌-◌, Bool, true, false, not, ◌&&◌, ◌||◌, Option, none, some, List, ltb, leb, ◌==◌,
  if◌then◌else◌,
}
use zerofido.Ctap.Status.{
  Status, success, err_other, err_pin_auth_blocked, err_pin_auth_invalid, err_pin_blocked,
  err_pin_invalid, err_pin_not_set,
}
use zerofido.Pin.State.{
  ClientPinState, KeyAgreement, pin_retries_max, pin_hash_len, clear_auth_block_state,
  invalidate_token_state, constant_time_equal,
}

-- `zf_pin_state_store_persist` and `zf_pin_state_store_fail_closed`: what pin/store offers, over
-- whatever the storage is.
pub record StateStore (Storage : Type 0) : Type 0 where
  pub persist : Storage → ClientPinState → Bool × Storage
  pub fail_closed : Storage → ClientPinState → Bool × Storage

unfoldable pub force_runtime_block : ClientPinState → ClientPinState
unfolding invalidate_token_state
force_runtime_block state =
    invalidate_token_state
      (record state { pin_retries = 0; pin_consecutive_mismatches = 3; pin_auth_blocked = true })

-- `if (mismatches < UINT8_MAX) mismatches++; if (mismatches >= 3) blocked = true;`
unfoldable pub count_mismatch : ClientPinState → ClientPinState
count_mismatch state =
    let mismatches =
      if ltb state.pin_consecutive_mismatches 255
      then state.pin_consecutive_mismatches + 1
      else state.pin_consecutive_mismatches in
    record state {
      pin_consecutive_mismatches = mismatches;
      pin_auth_blocked = if leb 3 mismatches then true else state.pin_auth_blocked;
    }

module _ {Storage : Type 0} (store : StateStore Storage) where
  -- `if (!persist && !fail_closed) force_runtime_block`
  unfoldable pub persist_or_fail_closed : ClientPinState → Storage → ClientPinState × Storage
  unfolding force_runtime_block
  persist_or_fail_closed state storage =
      let (persisted, storage') = store.persist storage state in
      if persisted
      then (state, storage')
      else let (closed, storage'') = store.fail_closed storage' state in
        (if closed then state else force_runtime_block state, storage'')

  unfoldable pub note_pin_auth_mismatch :
      ClientPinState → Storage → Status × ClientPinState × Storage
  unfolding persist_or_fail_closed count_mismatch
  note_pin_auth_mismatch state storage =
      let (state', storage') = persist_or_fail_closed (count_mismatch state) storage in
      (
        if state'.pin_auth_blocked then err_pin_auth_blocked else err_pin_auth_invalid,
        state',
        storage',
      )

  unfoldable pub auth_failure :
      Option KeyAgreement → ClientPinState → Storage → Status × ClientPinState × Storage
  unfolding persist_or_fail_closed count_mismatch
  auth_failure fresh_key state storage =
      if state.pin_auth_blocked then (err_pin_auth_blocked, state, storage) else elim fresh_key [
        | none ↦ (err_other, state, storage)
        | some key ↦
            let counted = count_mismatch (record state {
              key_agreement = key;
              pin_retries =
                  if ltb 0 state.pin_retries then state.pin_retries - 1 else state.pin_retries;
            }) in
            let (state', storage') = persist_or_fail_closed counted storage in
            (
              if state'.pin_retries == 0
                  then err_pin_blocked
                  else if state'.pin_auth_blocked
                  then err_pin_auth_blocked
                  else err_pin_invalid,
              state',
              storage',
            )
      ]

  unfoldable pub auth_success : ClientPinState → Storage → Status × ClientPinState × Storage
  unfolding clear_auth_block_state
  auth_success state storage =
      let state' = clear_auth_block_state (record state { pin_retries = pin_retries_max }) in
      let (persisted, storage') = store.persist storage state' in
      if persisted then (success, state', storage') else (
        err_other,
        record state' {
          pin_retries = state.pin_retries;
          pin_consecutive_mismatches = state.pin_consecutive_mismatches;
          pin_auth_blocked = state.pin_auth_blocked;
        },
        storage',
      )

  unfoldable pub verify_hash :
      Option KeyAgreement → List ℕ → ClientPinState → Storage → Status × ClientPinState × Storage
  verify_hash fresh_key pin_hash state storage =
      if not state.pin_set
      then (err_pin_not_set, state, storage)
      else if state.pin_auth_blocked
      then (err_pin_auth_blocked, state, storage)
      else if state.pin_retries == 0
      then (err_pin_blocked, state, storage)
      else if not (constant_time_equal pin_hash_len pin_hash state.pin_hash)
      then auth_failure fresh_key state storage
      else auth_success state storage

  unfoldable pub resume_auth_attempts : ClientPinState → Storage → Bool × ClientPinState × Storage
  unfolding clear_auth_block_state
  resume_auth_attempts state storage =
      if not state.pin_set
      then (false, state, storage)
      else if not state.pin_auth_blocked && state.pin_consecutive_mismatches == 0
      then (true, state, storage)
      else let state' = clear_auth_block_state state in
        let (persisted, storage') = store.persist storage state' in
        if persisted then (true, state', storage') else (
          false,
          record state' {
            pin_consecutive_mismatches = state.pin_consecutive_mismatches;
            pin_auth_blocked = state.pin_auth_blocked;
          },
          storage',
        )
