-- ===== src/Ctap/Parse/MakeCredential.antt =====
-- ctap/parse/make_credential.c
pub mod Parts
pub mod Complete
pub mod Accepted
use zerofido.Base.{
  ℕ, zero, suc, Bool, true, false, not, ◌&&◌, ◌||◌, List, [], ◌∷◌, ◌==◌, ◌!=◌, if◌then◌else◌,
  length, replicate,
}
use zerofido.Cbor.Decode.{Cursor, read_uint, read_text_ptr, read_map_start, read_array_start}
use zerofido.Cbor.Skip.{skip}
use zerofido.Ctap.Status.{
  Status, success, err_invalid_cbor, err_missing_parameter, err_invalid_parameter,
  err_unsupported_algorithm, err_invalid_option,
}
use zerofido.Ctap.Parse.Parsed.{Parsed, parsed, stop, ◌>>=◌, ◌>>◌, refuse, cbor, for_items}
use zerofido.Ctap.Parse.Shared.{
  TextKey, codes, bytes_equal, classify_text_key, SeenKeys, no_keys, mark_seen_key, has_nul,
  read_text_copy, read_text_discard,
}
use zerofido.Ctap.Parse.Keys.{keyed_pair}
use zerofido.Ctap.Parse.Cose.{read_bytes_copy}
use zerofido.Ctap.Parse.Options.{Options, parse_options_map, parse_pubkey_cred_params}
use zerofido.Ctap.Parse.Descriptors.{DescriptorList, parse_descriptor_array}
use zerofido.Ctap.Parse.Extensions.{CreateExtensions, parse_make_credential_extensions_map}

pub data AttestationMode : Type 0 where
  packed : AttestationMode
  none : AttestationMode

-- `ZfMakeCredentialRequest`. A text is what stands in front of its NUL, a byte array with a length
-- the bytes up to it; the fields of the options and of the extensions are records of their own.
pub record MakeCredentialRequest : Type 0 where
  pub client_data_hash : List ℕ
  pub has_client_data_hash : Bool
  pub rp_id : List ℕ
  pub user_name : List ℕ
  pub user_display_name : List ℕ
  pub user_id : List ℕ
  pub exclude_list : DescriptorList
  pub options : Options
  pub extensions : CreateExtensions
  pub has_user_id : Bool
  pub has_pubkey_cred_params : Bool
  pub es256_supported : Bool
  pub pin_auth : List ℕ
  pub pin_protocol : ℕ
  pub has_pin_auth : Bool
  pub has_pin_protocol : Bool
  pub has_attestation_format_preference : Bool
  pub preferred_attestation_mode : AttestationMode

abbrev pub client_data_hash_len : ℕ
client_data_hash_len = 32

abbrev pub max_rp_id_len : ℕ
max_rp_id_len = 256

abbrev pub max_user_id_len : ℕ
max_user_id_len = 64

abbrev pub max_user_name_len : ℕ
max_user_name_len = 65

abbrev pub pin_auth_max_len : ℕ
pin_auth_max_len = 32

unfoldable pub parse_client_data_hash : Cursor → Parsed (List ℕ × Cursor)
parse_client_data_hash cursor = do
  (hash, c) ← cbor (read_bytes_copy client_data_hash_len cursor)
  refuse (length hash != client_data_hash_len) err_invalid_cbor
  parsed (hash, c)

-- The relying party's name that is read, with what was seen of it.
pub record Rp : Type 0 where
  pub saw_id : Bool
  pub saw_name : Bool
  pub saw_icon : Bool
  pub rp_id : List ℕ

unfoldable pub rp_value : TextKey → Rp → Cursor → Parsed (Rp × Cursor)
rp_value TextKey.name r cursor = do
  refuse r.saw_name err_invalid_cbor
  c ← cbor (read_text_discard cursor)
  parsed (record r { saw_name = true }, c)
rp_value TextKey.icon r cursor = do
  refuse r.saw_icon err_invalid_cbor
  c ← cbor (read_text_discard cursor)
  parsed (record r { saw_icon = true }, c)
rp_value TextKey.id r cursor = do
  refuse r.saw_id err_invalid_cbor
  (text, c) ← cbor (read_text_copy max_rp_id_len cursor)
  parsed (record r { saw_id = true; rp_id = text }, c)
rp_value _ r cursor = do c ← cbor (skip cursor); parsed (r, c)

unfoldable pub rp_pair : Rp → Cursor → Parsed (Rp × Cursor)
rp_pair r cursor = do
  (field, c) ← cbor (read_text_ptr cursor)
  rp_value (classify_text_key field) r c

unfoldable pub parse_rp : List ℕ → Cursor → Parsed (Rp × Cursor)
parse_rp rp_id cursor = do
  (pairs, c) ← cbor (read_map_start cursor)
  for_items rp_pair pairs
      (record { saw_id = false; saw_name = false; saw_icon = false; rp_id = rp_id }) c

-- The user that is read, with what was seen of it.
pub record User : Type 0 where
  pub saw_id : Bool
  pub saw_name : Bool
  pub saw_display_name : Bool
  pub saw_icon : Bool
  pub has_user_id : Bool
  pub user_id : List ℕ
  pub user_name : List ℕ
  pub user_display_name : List ℕ

unfoldable pub user_value : TextKey → User → Cursor → Parsed (User × Cursor)
user_value TextKey.id u cursor = do
  refuse u.saw_id err_invalid_cbor
  (content, c) ← cbor (read_bytes_copy max_user_id_len cursor)
  parsed (record u { saw_id = true; has_user_id = true; user_id = content }, c)
user_value TextKey.name u cursor = do
  refuse u.saw_name err_invalid_cbor
  (text, c) ← cbor (read_text_copy max_user_name_len cursor)
  parsed (record u { saw_name = true; user_name = text }, c)
user_value TextKey.display_name u cursor = do
  refuse u.saw_display_name err_invalid_cbor
  (text, c) ← cbor (read_text_copy max_user_name_len cursor)
  parsed (record u { saw_display_name = true; user_display_name = text }, c)
user_value TextKey.icon u cursor = do
  refuse u.saw_icon err_invalid_cbor
  c ← cbor (read_text_discard cursor)
  parsed (record u { saw_icon = true }, c)
user_value _ u cursor = do c ← cbor (skip cursor); parsed (u, c)

unfoldable pub user_pair : User → Cursor → Parsed (User × Cursor)
user_pair u cursor = do
  (field, c) ← cbor (read_text_ptr cursor)
  user_value (classify_text_key field) u c

unfoldable pub parse_user : MakeCredentialRequest → Cursor → Parsed (User × Cursor)
parse_user request cursor = do
  (pairs, c) ← cbor (read_map_start cursor)
  for_items user_pair pairs
      (record {
        saw_id = false;
        saw_name = false;
        saw_display_name = false;
        saw_icon = false;
        has_user_id = request.has_user_id;
        user_id = request.user_id;
        user_name = request.user_name;
        user_display_name = request.user_display_name;
      })
      c

-- Whether a preference was found, and the mode; a build without ZF_PACKED_ATTESTATION.
unfoldable pub format_item :
    Bool × AttestationMode → Cursor → Parsed ((Bool × AttestationMode) × Cursor)
format_item (found, mode) cursor = do
  (format, c) ← cbor (read_text_ptr cursor)
  refuse (has_nul format) err_invalid_cbor
  parsed (
    if found
        then (found, mode)
        else if bytes_equal format (codes "none")
        then (true, AttestationMode.none)
        else (found, mode),
    c,
  )

unfoldable pub parse_attestation_formats :
    Bool × AttestationMode → Cursor → Parsed ((Bool × AttestationMode) × Cursor)
parse_attestation_formats s cursor = do
  (count, c) ← cbor (read_array_start cursor)
  for_items format_item count s c

-- The `switch` of `zf_parse_make_credential_field`.
unfoldable pub parse_field :
    ℕ → MakeCredentialRequest → Cursor → Parsed (MakeCredentialRequest × Cursor)
parse_field key request cursor =
    if key == 1
    then (do
      (hash, c) ← parse_client_data_hash cursor
      parsed (record request { client_data_hash = hash; has_client_data_hash = true }, c))
    else if key == 2
    then (do
      (rp, c) ← parse_rp request.rp_id cursor
      parsed (record request { rp_id = rp.rp_id }, c))
    else if key == 3
    then (do
      (user, c) ← parse_user request cursor
      parsed (
        record request {
          has_user_id = user.has_user_id;
          user_id = user.user_id;
          user_name = user.user_name;
          user_display_name = user.user_display_name;
        },
        c,
      ))
    else if key == 4
    then (do
      (supported, c) ← parse_pubkey_cred_params request.es256_supported cursor
      parsed (record request { has_pubkey_cred_params = true; es256_supported = supported }, c))
    else if key == 5
    then (do
      (list, c) ← parse_descriptor_array request.exclude_list cursor
      parsed (record request { exclude_list = list }, c))
    else if key == 6
    then (do
      (extensions, c) ← parse_make_credential_extensions_map request.extensions cursor
      parsed (record request { extensions = extensions }, c))
    else if key == 7
    then (do
      (options, c) ← parse_options_map request.options cursor
      parsed (record request { options = options }, c))
    else if key == 8
    then (do
      (auth, c) ← cbor (read_bytes_copy pin_auth_max_len cursor)
      parsed (record request { pin_auth = auth; has_pin_auth = true }, c))
    else if key == 9
    then (do
      (protocol, c) ← cbor (read_uint cursor)
      parsed (record request { pin_protocol = protocol; has_pin_protocol = true }, c))
    else if key == 11
    then (do
      (s, c) ←
          parse_attestation_formats
            (request.has_attestation_format_preference, request.preferred_attestation_mode) cursor
      parsed (
        record request {
          has_attestation_format_preference = s.0;
          preferred_attestation_mode = s.1;
        },
        c,
      ))
    else (do c ← cbor (skip cursor); parsed (request, c))

unfoldable pub validate_request : MakeCredentialRequest → Cursor → Parsed MakeCredentialRequest
validate_request request cursor = do
  refuse (not request.has_client_data_hash || length request.rp_id == 0 || not request.has_user_id)
      err_missing_parameter
  refuse (length request.user_id == 0) err_invalid_parameter
  refuse (not request.has_pubkey_cred_params) err_missing_parameter
  refuse (not request.es256_supported) err_unsupported_algorithm
  refuse (request.options.has_up && not request.options.up) err_invalid_option
  refuse (length cursor != 0) err_invalid_cbor
  parsed request

-- `memset(request, 0, sizeof(*request))`, the list's storage kept, and `up` by default.
abbrev pub empty_request : DescriptorList → MakeCredentialRequest
empty_request exclude_list = record {
  client_data_hash = replicate 32 0;
  has_client_data_hash = false;
  rp_id = [];
  user_name = [];
  user_display_name = [];
  user_id = [];
  exclude_list = exclude_list;
  options = record {
    up = true;
    has_up = false;
    uv = false;
    has_uv = false;
    rk = false;
    has_rk = false;
  };
  extensions = record {
    saw_cred_protect = false;
    saw_hmac_secret = false;
    has_cred_protect = false;
    cred_protect = 0;
    hmac_secret_requested = false;
  };
  has_user_id = false;
  has_pubkey_cred_params = false;
  es256_supported = false;
  pin_auth = [];
  pin_protocol = 0;
  has_pin_auth = false;
  has_pin_protocol = false;
  has_attestation_format_preference = false;
  preferred_attestation_mode = AttestationMode.packed;
}

unfoldable pub parse_make_credential : List ℕ → DescriptorList → Parsed MakeCredentialRequest
parse_make_credential input exclude_list = do
  (pairs, c) ← cbor (read_map_start input)
  (s, c') ← for_items (keyed_pair parse_field) pairs (no_keys, empty_request exclude_list) c
  validate_request s.1 c'
