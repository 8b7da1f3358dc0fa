-- ===== src/Ctap/Status.antt =====
-- The `ZF_CTAP_*` status bytes of zerofido_types.h.
use zerofido.Base.{Bool, true, false}

pub data Status : Type 0 where
  success : Status
  err_invalid_command : Status
  err_invalid_parameter : Status
  err_invalid_length : Status
  err_invalid_channel : Status
  err_cbor_unexpected_type : Status
  err_invalid_cbor : Status
  err_missing_parameter : Status
  err_credential_excluded : Status
  err_unsupported_algorithm : Status
  err_operation_denied : Status
  err_key_store_full : Status
  err_unsupported_option : Status
  err_invalid_option : Status
  err_keepalive_cancel : Status
  err_no_credentials : Status
  err_user_action_timeout : Status
  err_not_allowed : Status
  err_pin_invalid : Status
  err_pin_blocked : Status
  err_pin_auth_invalid : Status
  err_pin_auth_blocked : Status
  err_pin_not_set : Status
  err_pin_required : Status
  err_pin_policy_violation : Status
  err_pin_token_expired : Status
  err_invalid_subcommand : Status
  err_unauthorized_permission : Status
  err_other : Status

-- `status == ZF_CTAP_SUCCESS`
abbrev pub is_success : Status → Bool
is_success success = true
is_success _ = false
