-- ===== src/Ctap/Parse/Extensions.antt =====
-- The extension maps: of makeCredential in ctap/parse/shared.c, of getAssertion in
-- ctap/parse/get_assertion.c, and the hmac-secret input of ctap/extensions/hmac_secret.c.
use zerofido.Base.{ℕ, ◌%◌, Bool, true, false, not, ◌||◌, List, ◌==◌, if◌then◌else◌}
use zerofido.Cbor.Decode.{Cursor, read_uint, read_bool, read_text_ptr, read_map_start}
use zerofido.Cbor.Skip.{skip}
use zerofido.Ctap.Status.{err_invalid_cbor, err_invalid_option, err_missing_parameter}
use zerofido.Ctap.Extensions.CredProtect.{cred_protect_value_is_valid}
use zerofido.Ctap.Parse.Parsed.{Parsed, parsed, ◌>>=◌, ◌>>◌, refuse, cbor, for_items}
use zerofido.Ctap.Parse.Shared.{TextKey, classify_text_key, SeenKeys, no_keys, mark_seen_key}
use zerofido.Ctap.Parse.Cose.{read_bytes_copy, parse_cose_p256_key_agreement}

-- What the extensions map of makeCredential sets, and what was seen in it.
pub record CreateExtensions : Type 0 where
  pub saw_cred_protect : Bool
  pub saw_hmac_secret : Bool
  pub has_cred_protect : Bool
  pub cred_protect : ℕ
  pub hmac_secret_requested : Bool

unfoldable pub create_extension :
    TextKey → CreateExtensions → Cursor → Parsed (CreateExtensions × Cursor)
create_extension TextKey.cred_protect e cursor = do
  refuse e.saw_cred_protect err_invalid_cbor
  (raw, c) ← cbor (read_uint cursor)
  refuse (not (cred_protect_value_is_valid raw)) err_invalid_option
  parsed
      (record e { saw_cred_protect = true; has_cred_protect = true; cred_protect = raw % 256 }, c)
create_extension TextKey.hmac_secret e cursor = do
  refuse e.saw_hmac_secret err_invalid_cbor
  (requested, c) ← cbor (read_bool cursor)
  parsed (record e { saw_hmac_secret = true; hmac_secret_requested = requested }, c)
create_extension _ e cursor = do c ← cbor (skip cursor); parsed (e, c)

unfoldable pub create_extension_pair :
    CreateExtensions → Cursor → Parsed (CreateExtensions × Cursor)
create_extension_pair e cursor = do
  (key, c) ← cbor (read_text_ptr cursor)
  create_extension (classify_text_key key) e c

-- The two flags of what was seen are the function's own variables.
unfoldable pub parse_make_credential_extensions_map :
    CreateExtensions → Cursor → Parsed (CreateExtensions × Cursor)
parse_make_credential_extensions_map e cursor = do
  (pairs, c) ← cbor (read_map_start cursor)
  for_items create_extension_pair pairs
      (record e { saw_cred_protect = false; saw_hmac_secret = false }) c

-- `ZfAssertionRequestData`
pub record AssertionRequestData : Type 0 where
  pub client_data_hash : List ℕ
  pub has_client_data_hash : Bool
  pub rp_id : List ℕ
  pub has_hmac_secret : Bool
  pub hmac_secret_has_pin_protocol : Bool
  pub hmac_secret_pin_protocol : ℕ
  pub hmac_secret_platform_x : List ℕ
  pub hmac_secret_platform_y : List ℕ
  pub hmac_secret_salt_enc : List ℕ
  pub hmac_secret_salt_auth : List ℕ

abbrev pub salt_enc_max_len : ℕ
salt_enc_max_len = 80

abbrev pub salt_auth_max_len : ℕ
salt_auth_max_len = 32

-- The request's data with the variables of `zf_ctap_hmac_secret_parse_get_assertion_input`.
pub record HmacInput : Type 0 where
  pub seen_keys : SeenKeys
  pub saw_key_agreement : Bool
  pub saw_salt_enc : Bool
  pub saw_salt_auth : Bool
  pub assertion : AssertionRequestData

unfoldable pub hmac_input_value : ℕ → HmacInput → Cursor → Parsed (HmacInput × Cursor)
hmac_input_value key h cursor =
    if key == 1
    then (do
      (x, y, c) ← cbor (parse_cose_p256_key_agreement cursor)
      parsed (
        record h {
          saw_key_agreement = true;
          assertion = record h.assertion { hmac_secret_platform_x = x; hmac_secret_platform_y = y };
        },
        c,
      ))
    else if key == 2
    then (do
      (salt, c) ← cbor (read_bytes_copy salt_enc_max_len cursor)
      parsed (
        record h {
          saw_salt_enc = true;
          assertion = record h.assertion { hmac_secret_salt_enc = salt };
        },
        c,
      ))
    else if key == 3
    then (do
      (auth, c) ← cbor (read_bytes_copy salt_auth_max_len cursor)
      parsed (
        record h {
          saw_salt_auth = true;
          assertion = record h.assertion { hmac_secret_salt_auth = auth };
        },
        c,
      ))
    else if key == 4
    then (do
      (protocol, c) ← cbor (read_uint cursor)
      parsed (
        record h {
          assertion = record h.assertion {
            hmac_secret_pin_protocol = protocol;
            hmac_secret_has_pin_protocol = true;
          };
        },
        c,
      ))
    else (do c ← cbor (skip cursor); parsed (h, c))

unfoldable pub hmac_input_pair : HmacInput → Cursor → Parsed (HmacInput × Cursor)
hmac_input_pair h cursor = do
  (key, c) ← cbor (read_uint cursor)
  seen_keys ← cbor (mark_seen_key h.seen_keys key)
  hmac_input_value key (record h { seen_keys = seen_keys }) c

unfoldable pub hmac_secret_parse_get_assertion_input :
    AssertionRequestData → Cursor → Parsed (AssertionRequestData × Cursor)
hmac_secret_parse_get_assertion_input assertion cursor = do
  (pairs, c) ← cbor (read_map_start cursor)
  (h, c') ←
      for_items hmac_input_pair pairs
        (record {
          seen_keys = no_keys;
          saw_key_agreement = false;
          saw_salt_enc = false;
          saw_salt_auth = false;
          assertion = record assertion { hmac_secret_pin_protocol = 1 };
        })
        c
  refuse (not h.saw_key_agreement || not h.saw_salt_enc || not h.saw_salt_auth)
      err_missing_parameter
  parsed (record h.assertion { has_hmac_secret = true }, c')

-- The flag says whether hmac-secret was seen.
unfoldable pub assertion_extension :
    TextKey → Bool × AssertionRequestData → Cursor → Parsed ((Bool × AssertionRequestData) × Cursor)
assertion_extension TextKey.hmac_secret (saw_hmac_secret, assertion) cursor = do
  refuse saw_hmac_secret err_invalid_cbor
  (assertion', c) ← hmac_secret_parse_get_assertion_input assertion cursor
  parsed ((true, assertion'), c)
assertion_extension _ s cursor = do c ← cbor (skip cursor); parsed (s, c)

unfoldable pub assertion_extension_pair :
    Bool × AssertionRequestData → Cursor → Parsed ((Bool × AssertionRequestData) × Cursor)
assertion_extension_pair s cursor = do
  (key, c) ← cbor (read_text_ptr cursor)
  assertion_extension (classify_text_key key) s c

unfoldable pub parse_get_assertion_extensions :
    AssertionRequestData → Cursor → Parsed (AssertionRequestData × Cursor)
parse_get_assertion_extensions assertion cursor = do
  (pairs, c) ← cbor (read_map_start cursor)
  (s, c') ← for_items assertion_extension_pair pairs (false, assertion) c
  parsed (s.1, c')
