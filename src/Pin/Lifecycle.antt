-- ===== src/Pin/Lifecycle.antt =====
-- pin/core/lifecycle.c: the PIN state from start to reset.
pub mod Restart
use zerofido.Base.{ℕ, Bool, true, false, ◌&&◌, Option, none, some, List, [], if◌then◌else◌}
use zerofido.Pin.State.{
  ClientPinState, KeyAgreement, pin_retries_max, pin_hash_len, zeros, clear_auth_block_state,
  reset_token_metadata, invalidate_token_state,
}

pub data LoadStatus : Type 0 where
  missing ok invalid : LoadStatus

pub data InitResult : Type 0 where
  init_ok invalid_persisted_state storage_error : InitResult

-- The rest of what pin/store offers. `load` writes through its pointers into the state, also where
-- it ends in `invalid`.
pub record PinFile (Storage : Type 0) : Type 0 where
  pub cleanup_temp : Storage → Storage
  pub load : Storage → ClientPinState → LoadStatus × ClientPinState
  pub clear : Storage → Bool × Storage

-- `memset(state, 0, sizeof(*state))`
abbrev pub zero_state : ClientPinState
zero_state = record {
  pin_set = false;
  pin_hash = zeros 16;
  pin_token = zeros 32;
  pin_token_active = false;
  pin_token_issued_at = 0;
  pin_token_permissions = 0;
  pin_token_permissions_scoped = false;
  pin_token_permissions_managed = false;
  pin_token_permissions_rp_id_set = false;
  pin_token_permissions_rp_id_hash = zeros 32;
  pin_retries = 0;
  pin_consecutive_mismatches = 0;
  pin_auth_blocked = false;
  key_agreement = record { private_key = zeros 32; public_x = zeros 32; public_y = zeros 32 };
}

module _ {Storage : Type 0} (file : PinFile Storage) where
  -- The random token and the key generator's answer are arguments; a key that could not be made
  -- leaves zeros.
  unfoldable pub init_with_result :
      List ℕ → Option KeyAgreement → Storage → InitResult × ClientPinState × Storage
  unfolding clear_auth_block_state reset_token_metadata
  init_with_result fresh_token fresh_key storage =
      let storage' = file.cleanup_temp storage in
      let (status, loaded) =
        file.load storage' (record zero_state { pin_retries = pin_retries_max }) in
      let prepared : ClientPinState = elim status [
        | ok ↦ clear_auth_block_state (record loaded { pin_set = true })
        | _ ↦ loaded
      ] in
      let with_token = record prepared { pin_token = fresh_token } in
      let finished : InitResult × ClientPinState × Storage = elim fresh_key [
        | none ↦ (
          storage_error,
          record with_token { key_agreement = zero_state.key_agreement },
          storage',
        )
        | some key ↦
            (init_ok, reset_token_metadata (record with_token { key_agreement = key }), storage')
      ] in
      elim status [
        | invalid ↦
            (invalid_persisted_state, record loaded { pin_hash = zeros pin_hash_len }, storage')
        | _ ↦ finished
      ]

  unfoldable pub clear :
      List ℕ → Option KeyAgreement → ClientPinState → Storage → Bool × ClientPinState × Storage
  unfolding clear_auth_block_state invalidate_token_state
  clear fresh_token none state storage = (false, state, storage)
  clear fresh_token (some key) state storage =
      let (cleared, storage') = file.clear storage in
      if cleared
      then (
        true,
        record (invalidate_token_state (
            clear_auth_block_state (record state {
              pin_hash = zeros pin_hash_len;
              pin_set = false;
              pin_retries = pin_retries_max;
            }))) { pin_token = fresh_token; key_agreement = key },
        storage',
      )
      else (false, state, storage')
