-- ===== src/Ctap/Tests.antt =====
-- Runs of the request parsers.
use zerofido.Base.{
  ℕ, ◌<◌, ◌≡◌, ◌↔◌, refl, true, some, List, [], ◌∷◌, ◌++◌, arith, replicate, length, read_be,
}
use zerofido.Cbor.Utf8.{utf8_step, utf8_loop, utf8_is_valid}
use zerofido.Ctap.Parse.Parsed.{parsed, for_items}
use zerofido.Ctap.Parse.Shared.{
  codes, bytes_equal, find_key, classify_text_key, mark_seen_key, has_nul, read_text_copy,
}
use zerofido.Ctap.Parse.Keys.{keyed_pair}
use zerofido.Ctap.Parse.Options.{parse_pubkey_cred_params, param_item, param_pair, param_value}
use zerofido.Ctap.Parse.Descriptors.{DescriptorList}
use zerofido.Ctap.Parse.MakeCredential
use zerofido.Ctap.Parse.MakeCredential.{
  MakeCredentialRequest, parse_client_data_hash, parse_rp, rp_pair, rp_value, parse_user, user_pair,
  user_value, parse_make_credential,
}
use zerofido.Ctap.Parse.MakeCredential.Accepted.{parse_make_credential_iff}
use zerofido.Ctap.Parse.MakeCredential.Complete.{Bounded, parse_make_credential-Bounded}
use zerofido.Ctap.Parse.GetAssertion
use zerofido.Ctap.Parse.GetAssertion.{GetAssertionRequest, parse_get_assertion}
use zerofido.Ctap.Parse.GetAssertion.Accepted.{parse_get_assertion_iff}
use zerofido.Base.Int.{negsuc}
use zerofido.Cbor.Encode.{Encoder, encode_p256_cose_key}
use zerofido.Cbor.Encode.Writes.{push}
use zerofido.Cbor.Decode.{
  read_head, read_uint, read_int, read_bytes_ptr, read_text_ptr, read_map_start, read_array_start,
}
use zerofido.Ctap.Parse.Cose.{
  read_bytes_copy, expect_int, read_coordinate, cose_value, cose_pair, cose_pairs,
  parse_cose_p256_key_agreement,
}
use zerofido.Ctap.Parse.Cose.RoundTrip.{encoded_key_parses}
use mathlib.Core.List.{Perm}
use zerofido.Cbor.Encode.{head_bytes}
use zerofido.Ctap.Parse.Cose.Entry.{Entry, kty, alg, crv, x_coordinate, y_coordinate, entries_bytes}
use zerofido.Ctap.Parse.Cose.Sound.{accepted_key_form}

abbrev buffer : Encoder
buffer = record { capacity = 100; written = [] }

abbrev some_x : List ℕ
some_x = replicate 32 1

abbrev some_y : List ℕ
some_y = replicate 32 2

encoded_key_parses_example :
    (bs : List ℕ) × (encode_p256_cose_key (negsuc 24) some_x some_y buffer ≡ (true, push buffer bs))
    × (parse_cose_p256_key_agreement (bs ++ 7 ∷ []) ≡ some (some_x, some_y, 7 ∷ []))
encoded_key_parses_example =
    encoded_key_parses some_x some_y (7 ∷ []) buffer refl refl (omega arith)

-- {1: 2, 3: -25, -1: 1, -2: h'01..', -3: h'02..'}
abbrev key_bytes : List ℕ
key_bytes =
    0xa5
    ∷ 0x01
    ∷ 0x02
    ∷ 0x03
    ∷ 0x38
    ∷ 0x18
    ∷ 0x20
    ∷ 0x01
    ∷ 0x21
    ∷ 0x58
    ∷ 0x20
    ∷ (some_x ++ 0x22 ∷ 0x58 ∷ 0x20 ∷ some_y)

key_bytes_parse : parse_cose_p256_key_agreement key_bytes ≡ some (some_x, some_y, [])
unfolding parse_cose_p256_key_agreement cose_pairs cose_pair cose_value expect_int read_coordinate
    read_bytes_copy read_map_start read_int read_bytes_ptr read_head read_be
key_bytes_parse = refl

accepted_key_form_example :
    (entries : List Entry) × Perm
      (kty ∷ alg ∷ crv ∷ x_coordinate some_x ∷ y_coordinate some_y ∷ [])
      entries
    × (key_bytes ≡ head_bytes 5 5 ++ (entries_bytes entries ++ []))
    × (length some_x ≡ 32)
    × (length some_y ≡ 32)
accepted_key_form_example = accepted_key_form key_bytes (omega arith) key_bytes_parse

abbrev some_hash : List ℕ
some_hash = replicate 32 1

abbrev no_list : DescriptorList
no_list = record { entries = []; capacity = 32 }

-- {1: h'01..', 2: {"id": "a.b"}, 3: {"id": h'01'}, 4: [{"alg": -7, "type": "public-key"}]}
abbrev create_bytes : List ℕ
create_bytes =
    0xa4
    ∷ 0x01
    ∷ 0x58
    ∷ 0x20
    ∷ (some_hash
        ++ 0x02 ∷ 0xa1 ∷ 0x62 ∷ 0x69 ∷ 0x64 ∷ 0x63 ∷ 0x61 ∷ 0x2e ∷ 0x62 ∷ 0x03 ∷ 0xa1 ∷ 0x62 ∷ 0x69
          ∷ 0x64 ∷ 0x41 ∷ 0x01 ∷ 0x04 ∷ 0x81 ∷ 0xa2 ∷ 0x63 ∷ 0x61 ∷ 0x6c ∷ 0x67 ∷ 0x26 ∷ 0x64 ∷ 0x74
          ∷ 0x79 ∷ 0x70 ∷ 0x65 ∷ 0x6a ∷ 0x70 ∷ 0x75 ∷ 0x62 ∷ 0x6c ∷ 0x69 ∷ 0x63 ∷ 0x2d ∷ 0x6b ∷ 0x65
          ∷ 0x79 ∷ [])

abbrev created : MakeCredentialRequest
created = record (MakeCredential.empty_request no_list) {
  client_data_hash = some_hash;
  has_client_data_hash = true;
  rp_id = codes "a.b";
  user_id = 1 ∷ [];
  has_user_id = true;
  has_pubkey_cred_params = true;
  es256_supported = true;
}

create_bytes_parse : parse_make_credential create_bytes no_list ≡ parsed created
unfolding parse_make_credential keyed_pair for_items mark_seen_key MakeCredential.parse_field
    MakeCredential.validate_request parse_client_data_hash parse_rp rp_pair rp_value parse_user
    user_pair user_value parse_pubkey_cred_params param_item param_pair param_value read_text_copy
    has_nul classify_text_key find_key bytes_equal read_bytes_copy read_map_start read_array_start
    read_int read_uint read_bytes_ptr read_text_ptr utf8_is_valid utf8_loop utf8_step read_head
    read_be
create_bytes_parse = refl

parse_make_credential_iff_example :
    (parse_make_credential create_bytes no_list ≡ parsed created)
    ↔ MakeCredential.Accepted.Describes create_bytes no_list created
parse_make_credential_iff_example = parse_make_credential_iff create_bytes no_list created

parse_make_credential-Bounded_example :
    Bounded 32 created × (0 < length created.rp_id) × (0 < length created.user_id)
parse_make_credential-Bounded_example =
    parse_make_credential-Bounded create_bytes no_list create_bytes_parse refl

-- {1: "a.b", 2: h'01..'}
abbrev assert_bytes : List ℕ
assert_bytes = 0xa2 ∷ 0x01 ∷ 0x63 ∷ 0x61 ∷ 0x2e ∷ 0x62 ∷ 0x02 ∷ 0x58 ∷ 0x20 ∷ some_hash

abbrev asserted : GetAssertionRequest
asserted =
    let request = GetAssertion.empty_request no_list in
    record request {
      assertion = record request.assertion {
        client_data_hash = some_hash;
        has_client_data_hash = true;
        rp_id = codes "a.b";
      };
    }

assert_bytes_parse : parse_get_assertion assert_bytes no_list ≡ parsed asserted
unfolding parse_get_assertion keyed_pair for_items mark_seen_key GetAssertion.parse_field
    GetAssertion.validate_request parse_client_data_hash read_text_copy has_nul read_bytes_copy
    read_map_start read_uint read_bytes_ptr read_text_ptr utf8_is_valid utf8_loop utf8_step
    read_head read_be
assert_bytes_parse = refl

parse_get_assertion_iff_example :
    (parse_get_assertion assert_bytes no_list ≡ parsed asserted)
    ↔ GetAssertion.Accepted.Describes assert_bytes no_list asserted
parse_get_assertion_iff_example = parse_get_assertion_iff assert_bytes no_list asserted
