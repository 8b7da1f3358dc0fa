-- ===== src/Ctap/Parse/GetAssertion/Accepted.antt =====
-- Which getAssertion requests are accepted.
use zerofido.Base.{
  ℕ, ◌<◌, ◌≡◌, ◌↔◌, ◌⊎◌, refl, sym, ap, subst, ◌∙◌, true, false, ◌&&◌, some, List, [], arith, ◌==◌,
  length,
}
use zerofido.Cbor.Decode.{Cursor, read_map_start}
use zerofido.Ctap.Parse.Parsed.{parsed, cbor, cbor_inv, for_items, >>=-parsed}
use zerofido.Ctap.Parse.Shared.{no_keys}
use zerofido.Ctap.Parse.Keys.{
  NoRepeat, Fields, Fresh-no_keys, keyed_pair, keyed_pairs-Fields, Fields-keyed_pairs,
}
use zerofido.Ctap.Parse.Descriptors.{DescriptorList}
use zerofido.Ctap.Parse.GetAssertion.{
  GetAssertionRequest, parse_field, validate_request, empty_request, parse_get_assertion,
}

-- What a request must have.
pub record HasRequired (r : GetAssertionRequest) : Type 0 where
  pub rp : 0 < length r.assertion.rp_id
  pub hash : r.assertion.has_client_data_hash ≡ true
  pub no_rk : (r.options.has_rk ≡ false) ⊎ (r.options.rk ≡ false)

validate_sound :
    (r : GetAssertionRequest) (c : Cursor) {r' : GetAssertionRequest}
    → validate_request r c ≡ parsed r'
    → (r ≡ r') × (c ≡ []) × HasRequired r
unfolding validate_request
validate_sound r c e = (
  ground arith,
  ground arith,
  record { rp = ground arith; hash = ground arith; no_rk = ground arith },
)

validate_complete : (r : GetAssertionRequest) → HasRequired r → validate_request r [] ≡ parsed r
unfolding validate_request
validate_complete r h =
    let rp : (length r.assertion.rp_id == 0) ≡ false = ground (arith, h.rp) in
    let resident : (r.options.has_rk && r.options.rk) ≡ false = ground (arith, h.no_rk) in
    rw (rp, h.hash, resident) refl

-- What the code accepts: as many pairs as the map announces, no known key twice, each value parsed
-- into the request in the order of the pairs, nothing behind the map, and what is required.
pub record Describes (input : List ℕ) (list : DescriptorList) (r : GetAssertionRequest)
    : Type 0 where
  pub keys : List ℕ
  pub start : Cursor
  pub header : read_map_start input ≡ some (length keys, start)
  pub distinct : NoRepeat keys
  pub fields : Fields parse_field keys (empty_request list) start r []
  pub required : HasRequired r

accepted-Describes :
    (input : List ℕ) (list : DescriptorList) {r : GetAssertionRequest}
    → parse_get_assertion input list ≡ parsed r
    → Describes input list r
unfolding parse_get_assertion
accepted-Describes input list {r} e =
    let ((pairs, start), header, body) = >>=-parsed (cbor (read_map_start input)) _ e in
    let ((s, c'), loop, last) =
      >>=-parsed (for_items (keyed_pair parse_field) pairs (no_keys, empty_request list) start) _
        body in
    let (same, end, required) = validate_sound s.1 c' {r' = r} last in
    let (keys, count, distinct, _, fields) =
      keyed_pairs-Fields parse_field pairs no_keys (empty_request list) start {s = s} {c' = c'} refl
        loop in
    record {
      keys = keys;
      start = start;
      header = cbor_inv (read_map_start input) header ∙ ap (λ n. some (n, start)) (sym count);
      distinct = distinct;
      fields =
          subst
            (λ (t : GetAssertionRequest). Fields parse_field keys (empty_request list) start t [])
            same (subst (λ t. Fields parse_field keys (empty_request list) start s.1 t) end fields);
      required = subst HasRequired same required;
    }

Describes-accepted :
    (input : List ℕ) (list : DescriptorList) {r : GetAssertionRequest}
    → Describes input list r
    → parse_get_assertion input list ≡ parsed r
unfolding parse_get_assertion
Describes-accepted input list {r} d =
    let (b, loop) =
      Fields-keyed_pairs parse_field d.keys no_keys (empty_request list) d.start refl d.distinct
        (Fresh-no_keys d.keys) d.fields in
    rw (d.header, loop) (validate_complete r d.required)

-- A getAssertion request is accepted exactly if its map has as many pairs as it announces, no
-- known key twice, each value parses in its turn, nothing follows, and the relying party and the
-- client data hash are there and a resident key is not asked for.
pub parse_get_assertion_iff :
    (input : List ℕ) (list : DescriptorList) (r : GetAssertionRequest)
    → (parse_get_assertion input list ≡ parsed r) ↔ Describes input list r
parse_get_assertion_iff input list r =
    (accepted-Describes input list {r = r}, Describes-accepted input list)
