-- ===== src/Pin/Token/SingleUse.antt =====
-- A managed token is good for one operation that tests user presence.
use zerofido.Base.{ℕ, ◌%◌, ◌≡◌, true, false, some, List, arith, Bool-cases, Option-cases, inl, inr}
use zerofido.Base.Bits.{bit_and_low_two}
use zerofido.Pin.State.{ClientPinState}
use zerofido.Pin.Retry.{StateStore}
use zerofido.Pin.Token.{
  RpId, Hashes, is_up_tested, consume_up_tested_permissions, AuthRequest, AuthResult,
  scope_to_rp_id, accept_auth, check_auth_param, require_auth,
}
use zerofido.Pin.Token.Authorize.{require_auth_sound}

consume_spends :
    (state : ClientPinState) (required : ℕ)
    → is_up_tested required ≡ true
    → (consume_up_tested_permissions state required).pin_token_permissions % 4 ≡ 0
unfolding consume_up_tested_permissions
consume_spends state required h = ground arith

module _ (hashes : Hashes) where
  scope_keeps :
      (state : ClientPinState) (required : ℕ) (rp_id : RpId) {state' : ClientPinState}
      → scope_to_rp_id hashes state required rp_id ≡ some state'
      → state'.pin_token_permissions_managed ≡ state.pin_token_permissions_managed
  unfolding scope_to_rp_id
  scope_keeps state required rp_id e = ground arith

module _ (hashes : Hashes) {Storage : Type 0} (store : StateStore Storage) where
  accept_spends :
      (state : ClientPinState) (storage : Storage) (required : ℕ)
      → state.pin_token_permissions_managed ≡ true
      → is_up_tested required ≡ true
      → (accept_auth hashes store state storage required).uv_verified ≡ true
      → (accept_auth hashes store state storage required).state.pin_token_permissions % 4 ≡ 0
  unfolding accept_auth
  accept_spends state storage required m h e = ground arith

  check_spends :
      (request : AuthRequest) (mac : List ℕ) (state : ClientPinState) (storage : Storage)
      → state.pin_token_permissions_managed ≡ true
      → is_up_tested request.required_permissions ≡ true
      → (check_auth_param hashes store request mac state storage).uv_verified ≡ true
      → (check_auth_param hashes store request mac state storage).state.pin_token_permissions % 4
        ≡ 0
  unfolding check_auth_param
  check_spends request mac state storage m h e =
      elim (Option-cases (scope_to_rp_id hashes state request.required_permissions request.rp_id)) [
        | inl f ↦ absurd (ground arith)
        | inr (state', f) ↦ ground (
          arith,
          scope_keeps hashes state request.required_permissions request.rp_id f,
          accept_spends state' storage request.required_permissions,
        )
      ]

  -- A verified request goes through the check, and its outcome is the check's.
  outcome_of_check :
      (now : ℕ) (request : AuthRequest) (state : ClientPinState) (storage : Storage)
      → (require_auth hashes store now request state storage).uv_verified ≡ true
      → (mac : List ℕ) × (require_auth hashes store now request state storage
          ≡ check_auth_param hashes store request mac state storage)
  unfolding require_auth
  outcome_of_check now request state storage e =
      elim (Option-cases (hashes.hmac_sha256 state.pin_token request.client_data_hash)) [
        | inl f ↦ absurd (ground arith)
        | inr (mac, f) ↦ (mac, ground arith)
      ]

  -- A managed token that has authorized a makeCredential or a getAssertion has neither permission
  -- left, and authorizes no second one: not with any request, at any time.
  pub managed_token_single_use :
      (now later : ℕ) (request again : AuthRequest) (state : ClientPinState) (storage : Storage)
      → state.pin_token_permissions_managed ≡ true
      → is_up_tested request.required_permissions ≡ true
      → is_up_tested again.required_permissions ≡ true
      → (require_auth hashes store now request state storage).uv_verified ≡ true
      → let first = require_auth hashes store now request state storage in
        (first.state.pin_token_permissions % 4 ≡ 0)
        × ((require_auth hashes store later again first.state first.storage).uv_verified ≡ false)
  managed_token_single_use now later request again state storage m h h' e = (spent, second)
    where
      first : AuthResult Storage
      first = require_auth hashes store now request state storage

      spent : first.state.pin_token_permissions % 4 ≡ 0
      spent =
          let (mac, eq) = outcome_of_check now request state storage e in
          rw eq (check_spends request mac state storage m h (rw eq at e))

      second : (require_auth hashes store later again first.state first.storage).uv_verified ≡ false
      second =
          elim (Bool-cases
            (require_auth hashes store later again first.state first.storage).uv_verified) [
              | inl v ↦
                  let (_, _, permitted) =
                    require_auth_sound hashes store later again first.state first.storage v in
                  let none_left = bit_and_low_two _ _ spent permitted.covered in
                  absurd (ground arith)
              | inr f ↦ f
            ]
