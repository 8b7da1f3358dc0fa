-- ===== src/Pin/Token.antt =====
-- pin/core/token.c: the pinUvAuthToken, its permissions, and the authorization of makeCredential and
-- getAssertion. The tick, the random bytes and the two hashes are arguments. A relying-party
-- identifier is `none` for a null pointer, and else the bytes in front of the terminator. The
-- diagnostics of ZF_USB_DIAGNOSTICS, which is 0 unless a build sets it, are left out.
pub mod Authorize
pub mod Expiry
pub mod SingleUse
use zerofido.Base.{
  ℕ, ◌+◌, ◌-◌, ◌*◌, ◌/◌, ◌%◌, ◌^◌, Bool, true, false, not, ◌&&◌, ◌||◌, Option, none, some, List, [],
  ◌∷◌, ltb, leb, ◌==◌, ◌!=◌, if◌then◌else◌, length,
}
use Prim.Native.Nat.{bit_and}
use zerofido.Ctap.Status.{
  Status, success, err_other, err_missing_parameter, err_invalid_parameter, err_pin_auth_blocked,
  err_pin_auth_invalid, err_pin_not_set, err_pin_required, err_pin_token_expired,
}
use zerofido.Pin.State.{
  ClientPinState, zeros, clear_auth_block_state, reset_token_metadata, invalidate_token_state,
  constant_time_equal,
}
use zerofido.Pin.Retry.{StateStore, note_pin_auth_mismatch}

abbrev pub RpId : Type 0
RpId = Option (List ℕ)

-- `zf_crypto_sha256`, and `zf_crypto_hmac_sha256` by key and message, which may fail.
pub record Hashes : Type 0 where
  pub sha256 : List ℕ → List ℕ
  pub hmac_sha256 : List ℕ → List ℕ → Option (List ℕ)

abbrev pub pin_permission_mc : ℕ
pin_permission_mc = 1

abbrev pub pin_permission_ga : ℕ
pin_permission_ga = 2

abbrev pub pin_token_timeout_ms : ℕ
pin_token_timeout_ms = 30000

-- `(int32_t)(now - then) >= bound`, at a bound that an `int32_t` holds.
unfoldable pub elapsed : ℕ → ℕ → ℕ → Bool
elapsed now before bound =
    let diff = (now + 2 ^ 32 - before) % 2 ^ 32 in ltb diff (2 ^ 31) && leb bound diff

unfoldable pub token_is_expired : ℕ → ClientPinState → Bool
unfolding elapsed
token_is_expired now state = elapsed now state.pin_token_issued_at pin_token_timeout_ms

unfoldable pub note_pin_token_issued : ℕ → ClientPinState → ClientPinState
note_pin_token_issued now state = record state {
  pin_token_active = true;
  pin_token_issued_at = now;
}

unfoldable pub uv_auth_param_len : ℕ → ℕ
uv_auth_param_len pin_protocol = if pin_protocol == 2 then 32 else 16

-- `(permissions & (MC | GA)) != 0`
abbrev pub is_up_tested : ℕ → Bool
is_up_tested permissions = permissions % 4 != 0

-- `permissions & ~(MC | GA)`
abbrev pub without_up_tested : ℕ → ℕ
without_up_tested permissions = permissions / 4 * 4

unfoldable pub consume_up_tested_permissions : ClientPinState → ℕ → ClientPinState
consume_up_tested_permissions state required_permissions =
    if not (is_up_tested required_permissions)
    then state
    else let permissions = without_up_tested state.pin_token_permissions in
      let state' = record state { pin_token_permissions = permissions } in
      if not (is_up_tested permissions)
      then record state' {
        pin_token_permissions_scoped = false;
        pin_token_permissions_managed = false;
        pin_token_permissions_rp_id_set = false;
        pin_token_permissions_rp_id_hash = zeros 32;
      }
      else state'

-- What one call of `zerofido_pin_require_auth` is given.
pub record AuthRequest : Type 0 where
  pub uv_requested : Bool
  pub has_pin_auth : Bool
  pub client_data_hash : List ℕ
  pub pin_auth : List ℕ
  pub has_pin_protocol : Bool
  pub pin_protocol : ℕ
  pub rp_id : RpId
  pub required_permissions : ℕ

pub record AuthResult (Storage : Type 0) : Type 0 where
  pub status : Status
  pub uv_verified : Bool
  pub state : ClientPinState
  pub storage : Storage

module _ (hashes : Hashes) where
  unfoldable pub hash_rp_id : RpId → Option (List ℕ)
  hash_rp_id none = none
  hash_rp_id (some []) = none
  hash_rp_id (some (c ∷ rp_id)) = some (hashes.sha256 (c ∷ rp_id))

  unfoldable pub set_token_permissions : ℕ → Bool → Bool → RpId → ClientPinState → ClientPinState
  unfolding hash_rp_id
  set_token_permissions permissions scoped managed rp_id state =
      let state' = record state {
        pin_token_permissions = permissions;
        pin_token_permissions_scoped = scoped;
        pin_token_permissions_managed = managed;
      } in
      elim (hash_rp_id rp_id) [
        | none ↦ record state' {
          pin_token_permissions_rp_id_set = false;
          pin_token_permissions_rp_id_hash = zeros 32;
        }
        | some hash ↦ record state' {
          pin_token_permissions_rp_id_set = true;
          pin_token_permissions_rp_id_hash = hash;
        }
      ]

  unfoldable pub token_rp_id_matches : ClientPinState → RpId → Bool
  unfolding hash_rp_id
  token_rp_id_matches state rp_id = elim (hash_rp_id rp_id) [
    | none ↦ false
    | some hash ↦
        if state.pin_token_permissions_rp_id_set
        then constant_time_equal 32 state.pin_token_permissions_rp_id_hash hash
        else true
  ]

  -- The scoping to a relying party: the state that goes on, or `none` for PIN_AUTH_INVALID.
  unfoldable pub scope_to_rp_id : ClientPinState → ℕ → RpId → Option ClientPinState
  unfolding token_rp_id_matches set_token_permissions
  scope_to_rp_id state required_permissions rp_id =
      if state.pin_token_permissions_scoped && is_up_tested required_permissions
      then (if not (token_rp_id_matches state rp_id)
          then none
          else if not state.pin_token_permissions_rp_id_set
          then some (
              set_token_permissions state.pin_token_permissions state.pin_token_permissions_scoped
                state.pin_token_permissions_managed rp_id state)
          else some state)
      else some state

  module _ {Storage : Type 0} (store : StateStore Storage) where
    -- The end of the branch with a pinUvAuthParam: the throttle is lifted and persisted, and the
    -- permissions of a managed token are used up.
    unfoldable pub accept_auth : ClientPinState → Storage → ℕ → AuthResult Storage
    unfolding clear_auth_block_state consume_up_tested_permissions
    accept_auth state storage required_permissions =
        let state' = clear_auth_block_state state in
        let (persisted, storage') = store.persist storage state' in
        if persisted
        then record {
          status = success;
          uv_verified = true;
          state =
              if state'.pin_token_permissions_managed
              then consume_up_tested_permissions state' required_permissions
              else state';
          storage = storage';
        }
        else record {
          status = err_other;
          uv_verified = false;
          state = record state' {
            pin_consecutive_mismatches = state.pin_consecutive_mismatches;
            pin_auth_blocked = state.pin_auth_blocked;
          };
          storage = storage';
        }

    unfoldable pub refuse : Status → ClientPinState → Storage → AuthResult Storage
    refuse status state storage = record {
      status = status;
      uv_verified = false;
      state = state;
      storage = storage;
    }

    -- The branch with a pinUvAuthParam from the comparison on.
    unfoldable pub check_auth_param :
        AuthRequest → List ℕ → ClientPinState → Storage → AuthResult Storage
    unfolding refuse
    check_auth_param request expected state storage =
        if not
          (constant_time_equal (uv_auth_param_len request.pin_protocol) expected request.pin_auth)
        then (let (status, state', storage') = note_pin_auth_mismatch store state storage in
            refuse status state' storage')
        else if bit_and state.pin_token_permissions request.required_permissions
            != request.required_permissions
        then refuse err_pin_auth_invalid state storage
        else elim (scope_to_rp_id state request.required_permissions request.rp_id) [
          | none ↦ refuse err_pin_auth_invalid state storage
          | some state' ↦ accept_auth state' storage request.required_permissions
        ]

    unfoldable pub require_auth : ℕ → AuthRequest → ClientPinState → Storage → AuthResult Storage
    unfolding refuse uv_auth_param_len
    require_auth now request state storage =
        if request.has_pin_auth
        then (if not request.has_pin_protocol
            then refuse err_missing_parameter state storage
            else if request.pin_protocol != 1 && request.pin_protocol != 2
            then refuse err_invalid_parameter state storage
            else if length request.pin_auth != uv_auth_param_len request.pin_protocol
            then refuse err_pin_auth_invalid state storage
            else if state.pin_auth_blocked
            then refuse err_pin_auth_blocked state storage
            else if not state.pin_set
            then refuse err_pin_not_set state storage
            else if not state.pin_token_active
            then refuse err_pin_auth_invalid state storage
            else if token_is_expired now state
            then refuse err_pin_token_expired (invalidate_token_state state) storage
            else elim (hashes.hmac_sha256 state.pin_token request.client_data_hash) [
              | none ↦ refuse err_other state storage
              | some expected ↦ check_auth_param request expected state storage
            ])
        else if not state.pin_set
        then refuse (if request.uv_requested then err_pin_not_set else success) state storage
        else if not request.uv_requested
        then refuse success state storage
        else refuse err_pin_required state storage
