-- ===== src/Pin/Token/Authorize.antt =====
-- What `zerofido_pin_require_auth` guarantees when it reports user verification.
use zerofido.Base.{
  ℕ, ◌≡◌, true, false, ◌&&◌, some, List, length, arith, ◌⊎◌, Bool-cases, Option-cases, inl, inr,
}
use Prim.Native.Nat.{bit_and}
use zerofido.Pin.State.{ClientPinState, constant_time_equal}
use zerofido.Pin.Retry.{StateStore}
use zerofido.Pin.Token.{
  RpId, Hashes, token_is_expired, uv_auth_param_len, is_up_tested, AuthRequest, token_rp_id_matches,
  scope_to_rp_id, check_auth_param, require_auth,
}

-- The permissions cover the request, and a scoped token serves its relying party only.
pub record IsPermitted (hashes : Hashes) (request : AuthRequest) (state : ClientPinState)
    : Type 0 where
  pub covered :
      bit_and state.pin_token_permissions request.required_permissions
      ≡ request.required_permissions
  pub scope :
      (state.pin_token_permissions_scoped && is_up_tested request.required_permissions ≡ false)
      ⊎ (token_rp_id_matches hashes state request.rp_id ≡ true)

-- The caller has the token's key: its MAC over the client data hash, in the protocol's length.
pub record KnowsToken (hashes : Hashes) (request : AuthRequest) (state : ClientPinState)
    : Type 0 where
  pub mac : List ℕ
  pub of_token : hashes.hmac_sha256 state.pin_token request.client_data_hash ≡ some mac
  pub whole : length request.pin_auth ≡ uv_auth_param_len request.pin_protocol
  pub same :
      constant_time_equal (uv_auth_param_len request.pin_protocol) mac request.pin_auth ≡ true

-- The token is in use, recent, and not throttled.
pub record IsUsable (now : ℕ) (state : ClientPinState) : Type 0 where
  pub set : state.pin_set ≡ true
  pub not_blocked : state.pin_auth_blocked ≡ false
  pub active : state.pin_token_active ≡ true
  pub fresh : token_is_expired now state ≡ false

module _ (hashes : Hashes) where
  scope_permits :
      (state : ClientPinState) (required : ℕ) (rp_id : RpId) {state' : ClientPinState}
      → scope_to_rp_id hashes state required rp_id ≡ some state'
      → (state.pin_token_permissions_scoped && is_up_tested required ≡ false)
        ⊎ (token_rp_id_matches hashes state rp_id ≡ true)
  unfolding scope_to_rp_id
  scope_permits state required rp_id e =
      elim (Bool-cases (token_rp_id_matches hashes state rp_id)) [
        | inl yes_ ↦ inr yes_
        | inr no_ ↦ inl (ground arith)
      ]

module _ (hashes : Hashes) {Storage : Type 0} (store : StateStore Storage) where
  check_same :
      (request : AuthRequest) (expected : List ℕ) (state : ClientPinState) (storage : Storage)
      → (check_auth_param hashes store request expected state storage).uv_verified ≡ true
      → constant_time_equal (uv_auth_param_len request.pin_protocol) expected request.pin_auth
        ≡ true
  unfolding check_auth_param
  check_same request expected state storage e = ground arith

  check_IsPermitted :
      (request : AuthRequest) (expected : List ℕ) (state : ClientPinState) (storage : Storage)
      → (check_auth_param hashes store request expected state storage).uv_verified ≡ true
      → IsPermitted hashes request state
  unfolding check_auth_param
  check_IsPermitted request expected state storage e =
      elim (Option-cases (scope_to_rp_id hashes state request.required_permissions request.rp_id)) [
        | inl f ↦ absurd (ground arith)
        | inr (state', f) ↦ record {
          covered = ground arith;
          scope = scope_permits hashes state _ _ f;
        }
      ]

  module _ (now : ℕ) (request : AuthRequest) (state : ClientPinState) (storage : Storage)
      (verified : (require_auth hashes store now request state storage).uv_verified ≡ true) where
    pub reaches_check :
        (mac : List ℕ) × (hashes.hmac_sha256 state.pin_token request.client_data_hash ≡ some mac)
        × ((check_auth_param hashes store request mac state storage).uv_verified ≡ true)
    unfolding require_auth
    reaches_check =
        elim (Option-cases (hashes.hmac_sha256 state.pin_token request.client_data_hash)) [
          | inl f ↦ absurd (ground arith)
          | inr (mac, f) ↦ (mac, f, ground arith)
        ]

    usable : IsUsable now state
    unfolding require_auth
    usable = ground arith

    whole_param : length request.pin_auth ≡ uv_auth_param_len request.pin_protocol
    unfolding require_auth
    whole_param = ground arith

    -- User verification is reported only to a caller who knows the token, while the token is usable
    -- and permits the request.
    pub require_auth_sound :
        IsUsable now state × KnowsToken hashes request state × IsPermitted hashes request state
    require_auth_sound =
        let (mac, f, check) = reaches_check in
        (
          usable,
          record {
            mac = mac;
            of_token = f;
            whole = whole_param;
            same = check_same request mac state storage check;
          },
          check_IsPermitted request mac state storage check,
        )
