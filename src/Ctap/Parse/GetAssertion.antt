-- ===== src/Ctap/Parse/GetAssertion.antt =====
-- ctap/parse/get_assertion.c
pub mod Accepted
use zerofido.Base.{
  ℕ, zero, suc, Bool, true, false, not, ◌&&◌, ◌||◌, List, [], ◌∷◌, ◌==◌, ◌!=◌, if◌then◌else◌,
  length, replicate,
}
use zerofido.Cbor.Decode.{Cursor, read_uint, read_map_start}
use zerofido.Cbor.Skip.{skip}
use zerofido.Ctap.Status.{err_invalid_cbor, err_missing_parameter, err_unsupported_option}
use zerofido.Ctap.Parse.Parsed.{Parsed, parsed, ◌>>=◌, ◌>>◌, refuse, cbor, for_items}
use zerofido.Ctap.Parse.Shared.{SeenKeys, no_keys, mark_seen_key, read_text_copy}
use zerofido.Ctap.Parse.Keys.{keyed_pair}
use zerofido.Ctap.Parse.Cose.{read_bytes_copy}
use zerofido.Ctap.Parse.Options.{Options, parse_options_map}
use zerofido.Ctap.Parse.Descriptors.{DescriptorList, parse_descriptor_array}
use zerofido.Ctap.Parse.Extensions.{AssertionRequestData, parse_get_assertion_extensions}
use zerofido.Ctap.Parse.MakeCredential.{parse_client_data_hash, max_rp_id_len, pin_auth_max_len}

-- `ZfGetAssertionRequest`; the options are a record of their own.
pub record GetAssertionRequest : Type 0 where
  pub assertion : AssertionRequestData
  pub allow_list : DescriptorList
  pub options : Options
  pub pin_auth : List ℕ
  pub pin_protocol : ℕ
  pub has_pin_auth : Bool
  pub has_pin_protocol : Bool

-- The `switch` on the key.
unfoldable pub parse_field :
    ℕ → GetAssertionRequest → Cursor → Parsed (GetAssertionRequest × Cursor)
parse_field key request cursor =
    if key == 1
    then (do
      (text, c) ← cbor (read_text_copy max_rp_id_len cursor)
      parsed (record request { assertion = record request.assertion { rp_id = text } }, c))
    else if key == 2
    then (do
      (hash, c) ← parse_client_data_hash cursor
      parsed (
        record request {
          assertion = record request.assertion {
            client_data_hash = hash;
            has_client_data_hash = true;
          };
        },
        c,
      ))
    else if key == 3
    then (do
      (list, c) ← parse_descriptor_array request.allow_list cursor
      parsed (record request { allow_list = list }, c))
    else if key == 4
    then (do
      (assertion, c) ← parse_get_assertion_extensions request.assertion cursor
      parsed (record request { assertion = assertion }, c))
    else if key == 5
    then (do
      (options, c) ← parse_options_map request.options cursor
      parsed (record request { options = options }, c))
    else if key == 6
    then (do
      (auth, c) ← cbor (read_bytes_copy pin_auth_max_len cursor)
      parsed (record request { pin_auth = auth; has_pin_auth = true }, c))
    else if key == 7
    then (do
      (protocol, c) ← cbor (read_uint cursor)
      parsed (record request { pin_protocol = protocol; has_pin_protocol = true }, c))
    else (do c ← cbor (skip cursor); parsed (request, c))

unfoldable pub validate_request : GetAssertionRequest → Cursor → Parsed GetAssertionRequest
validate_request request cursor = do
  refuse (length request.assertion.rp_id == 0 || not request.assertion.has_client_data_hash)
      err_missing_parameter
  refuse (request.options.has_rk && request.options.rk) err_unsupported_option
  refuse (length cursor != 0) err_invalid_cbor
  parsed request

abbrev pub empty_request : DescriptorList → GetAssertionRequest
empty_request allow_list = record {
  assertion = record {
    client_data_hash = replicate 32 0;
    has_client_data_hash = false;
    rp_id = [];
    has_hmac_secret = false;
    hmac_secret_has_pin_protocol = false;
    hmac_secret_pin_protocol = 0;
    hmac_secret_platform_x = replicate 32 0;
    hmac_secret_platform_y = replicate 32 0;
    hmac_secret_salt_enc = [];
    hmac_secret_salt_auth = [];
  };
  allow_list = allow_list;
  options = record {
    up = true;
    has_up = false;
    uv = false;
    has_uv = false;
    rk = false;
    has_rk = false;
  };
  pin_auth = [];
  pin_protocol = 0;
  has_pin_auth = false;
  has_pin_protocol = false;
}

unfoldable pub parse_get_assertion : List ℕ → DescriptorList → Parsed GetAssertionRequest
parse_get_assertion input allow_list = do
  (pairs, c) ← cbor (read_map_start input)
  (s, c') ← for_items (keyed_pair parse_field) pairs (no_keys, empty_request allow_list) c
  validate_request s.1 c'
