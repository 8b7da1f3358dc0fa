-- ===== src/Ctap/Parse/MakeCredential/Accepted.antt =====
-- Which makeCredential requests are accepted.
use zerofido.Base.{
  ℕ, ◌<◌, ◌≡◌, ◌↔◌, ◌⊎◌, refl, sym, ap, subst, ◌∙◌, true, false, not, ◌&&◌, some, List, [], arith,
  ◌==◌, length,
}
use zerofido.Cbor.Decode.{Cursor, read_map_start}
use zerofido.Ctap.Parse.Parsed.{parsed, cbor, cbor_inv, for_items, >>=-parsed}
use zerofido.Ctap.Parse.Shared.{no_keys}
use zerofido.Ctap.Parse.Keys.{
  NoRepeat, Fields, Fresh-no_keys, keyed_pair, keyed_pairs-Fields, Fields-keyed_pairs,
}
use zerofido.Ctap.Parse.Descriptors.{DescriptorList}
use zerofido.Ctap.Parse.MakeCredential.{
  MakeCredentialRequest, parse_field, validate_request, empty_request, parse_make_credential,
}

-- What a request must have.
pub record HasRequired (r : MakeCredentialRequest) : Type 0 where
  pub hash : r.has_client_data_hash ≡ true
  pub rp : 0 < length r.rp_id
  pub user : r.has_user_id ≡ true
  pub user_id : 0 < length r.user_id
  pub params : r.has_pubkey_cred_params ≡ true
  pub es256 : r.es256_supported ≡ true
  pub presence : (r.options.has_up ≡ false) ⊎ (r.options.up ≡ true)

pub validate_sound :
    (r : MakeCredentialRequest) (c : Cursor) {r' : MakeCredentialRequest}
    → validate_request r c ≡ parsed r'
    → (r ≡ r') × (c ≡ []) × HasRequired r
unfolding validate_request
validate_sound r c e = (
  ground arith,
  ground arith,
  record {
    hash = ground arith;
    rp = ground arith;
    user = ground arith;
    user_id = ground arith;
    params = ground arith;
    es256 = ground arith;
    presence = ground arith;
  },
)

validate_complete : (r : MakeCredentialRequest) → HasRequired r → validate_request r [] ≡ parsed r
unfolding validate_request
validate_complete r h =
    let rp : (length r.rp_id == 0) ≡ false = ground (arith, h.rp) in
    let user : (length r.user_id == 0) ≡ false = ground (arith, h.user_id) in
    let presence : (r.options.has_up && not r.options.up) ≡ false = ground (arith, h.presence) in
    rw (h.hash, rp, h.user, user, h.params, h.es256, presence) refl

-- What the code accepts: as many pairs as the map announces, no known key twice, each value parsed
-- into the request in the order of the pairs, nothing behind the map, and what is required.
pub record Describes (input : List ℕ) (list : DescriptorList) (r : MakeCredentialRequest)
    : Type 0 where
  pub keys : List ℕ
  pub start : Cursor
  pub header : read_map_start input ≡ some (length keys, start)
  pub distinct : NoRepeat keys
  pub fields : Fields parse_field keys (empty_request list) start r []
  pub required : HasRequired r

accepted-Describes :
    (input : List ℕ) (list : DescriptorList) {r : MakeCredentialRequest}
    → parse_make_credential input list ≡ parsed r
    → Describes input list r
unfolding parse_make_credential
accepted-Describes input list {r} e =
    let ((pairs, start), header, body) = >>=-parsed (cbor (read_map_start input)) _ e in
    let ((s, c'), loop, last) =
      >>=-parsed (for_items (keyed_pair parse_field) pairs (no_keys, empty_request list) start) _
        body in
    let (same, end, required) = validate_sound s.1 c' {r' = r} last in
    let (keys, count, distinct, _, fields) =
      keyed_pairs-Fields parse_field pairs no_keys (empty_request list) start {s = s} {c' = c'} refl
        loop in
    record {
      keys = keys;
      start = start;
      header = cbor_inv (read_map_start input) header ∙ ap (λ n. some (n, start)) (sym count);
      distinct = distinct;
      fields =
          subst
            (λ (t : MakeCredentialRequest). Fields parse_field keys (empty_request list) start t [])
            same (subst (λ t. Fields parse_field keys (empty_request list) start s.1 t) end fields);
      required = subst HasRequired same required;
    }

Describes-accepted :
    (input : List ℕ) (list : DescriptorList) {r : MakeCredentialRequest}
    → Describes input list r
    → parse_make_credential input list ≡ parsed r
unfolding parse_make_credential
Describes-accepted input list {r} d =
    let (b, loop) =
      Fields-keyed_pairs parse_field d.keys no_keys (empty_request list) d.start refl d.distinct
        (Fresh-no_keys d.keys) d.fields in
    rw (d.header, loop) (validate_complete r d.required)

-- A makeCredential request is accepted exactly if its map has as many pairs as it announces, no
-- known key twice, each value parses in its turn, nothing follows, and the client data hash, the
-- relying party, a nonempty user id, ES256 and no refusal of user presence are there.
pub parse_make_credential_iff :
    (input : List ℕ) (list : DescriptorList) (r : MakeCredentialRequest)
    → (parse_make_credential input list ≡ parsed r) ↔ Describes input list r
parse_make_credential_iff input list r =
    (accepted-Describes input list {r = r}, Describes-accepted input list)
