-- ===== src/Ctap/Parse/MakeCredential/Complete.antt =====
-- What an accepted makeCredential request is sure to hold.
use zerofido.Base.{ℕ, ◌≤◌, ◌<◌, ◌≡◌, refl, sym, true, List, [], arith, ◌==◌, if_both, subst, length}
use zerofido.Cbor.Decode.{Cursor, read_uint, read_map_start}
use zerofido.Cbor.Skip.{skip}
use zerofido.Ctap.Parse.Parsed.{
  Parsed, parsed, ◌>>=◌, cbor, cbor_inv, for_items, >>=-parsed, Ensures, parsed-Ensures,
  bind-Ensures, for_items-Ensures, Ensures-at,
}
use zerofido.Ctap.Parse.Shared.{has_nul, SeenKeys, no_keys, mark_seen_key}
use zerofido.Ctap.Parse.Shared.Bounds.{IsText, read_bytes_copy-le}
use zerofido.Ctap.Parse.Cose.{read_bytes_copy}
use zerofido.Ctap.Parse.Keys.{keyed_pair}
use zerofido.Ctap.Parse.Options.{parse_options_map, parse_pubkey_cred_params}
use zerofido.Ctap.Parse.Descriptors.{DescriptorList, parse_descriptor_array}
use zerofido.Ctap.Parse.Descriptors.Distinct.{Fits, Distinct, parse_descriptor_array-Fits}
use zerofido.Ctap.Parse.Extensions.{CreateExtensions, parse_make_credential_extensions_map}
use zerofido.Ctap.Parse.MakeCredential.{
  Rp, User, MakeCredentialRequest, client_data_hash_len, max_rp_id_len, pin_auth_max_len,
  parse_client_data_hash, parse_rp, parse_user, parse_attestation_formats, parse_field,
  empty_request, parse_make_credential,
}
use zerofido.Ctap.Parse.MakeCredential.Accepted.{validate_sound}
use zerofido.Ctap.Parse.MakeCredential.Parts.{
  parse_rp-IsText, IsUser, HoldsUser, parse_user-IsUser, HasLevel, extensions-HasLevel,
  parse_client_data_hash-size,
}

-- Every field within its array, the list within its storage, the level one of the three.
pub record IsBounded (capacity : ℕ) (hash rp_id user_id user_name user_display_name : List ℕ)
    (exclude_list : DescriptorList) (extensions : CreateExtensions) (pin_auth : List ℕ)
    : Type 0 where
  pub hash_size : length hash ≡ client_data_hash_len
  pub rp : IsText max_rp_id_len rp_id
  pub user : IsUser user_id user_name user_display_name
  pub list : Fits capacity exclude_list
  pub level : HasLevel extensions
  pub auth : length pin_auth ≤ pin_auth_max_len

abbrev pub Bounded : ℕ → MakeCredentialRequest → Type 0
Bounded capacity r =
    IsBounded capacity r.client_data_hash r.rp_id r.user_id r.user_name r.user_display_name
      r.exclude_list r.extensions r.pin_auth

module _ (capacity : ℕ) where
  After : MakeCredentialRequest × Cursor → Type 0
  After s = Bounded capacity s.0

  -- A field that is read, and the request with it.
  sets :
      {A : Type 0} (m : Parsed (A × Cursor)) (f : A → MakeCredentialRequest)
      → ((t : A × Cursor) → m ≡ parsed t → Bounded capacity (f t.0))
      → Ensures After (m >>= λ t. parsed (f t.0, t.1))
  unfolding After
  sets m f h = bind-Ensures After m _ (λ t e. parsed-Ensures After _ (h t e))

  module _ (r : MakeCredentialRequest) (c : Cursor) (b : Bounded capacity r) where
    hash_field : Ensures After (
        parse_client_data_hash c >>= λ t.
        parsed (record r { client_data_hash = t.0; has_client_data_hash = true }, t.1))
    hash_field = sets (parse_client_data_hash c) _ (λ t e. record {
      hash_size = Ensures-at _ (parse_client_data_hash-size c) e;
      rp = b.rp;
      user = b.user;
      list = b.list;
      level = b.level;
      auth = b.auth;
    })

    rp_field :
        Ensures After (parse_rp r.rp_id c >>= λ t. parsed (record r { rp_id = t.0.rp_id }, t.1))
    rp_field = sets (parse_rp r.rp_id c) _ (λ t e. record {
      hash_size = b.hash_size;
      rp =
          Ensures-at (λ (s : Rp × Cursor). IsText max_rp_id_len s.0.rp_id)
            (parse_rp-IsText r.rp_id c b.rp) e;
      user = b.user;
      list = b.list;
      level = b.level;
      auth = b.auth;
    })

    user_field : Ensures After (
        parse_user r c >>= λ t. parsed (
          record r {
            has_user_id = t.0.has_user_id;
            user_id = t.0.user_id;
            user_name = t.0.user_name;
            user_display_name = t.0.user_display_name;
          },
          t.1,
        ))
    user_field = sets (parse_user r c) _ (λ t e. record {
      hash_size = b.hash_size;
      rp = b.rp;
      user = Ensures-at (λ (s : User × Cursor). HoldsUser s.0) (parse_user-IsUser r c b.user) e;
      list = b.list;
      level = b.level;
      auth = b.auth;
    })

    list_field : Ensures After (
        parse_descriptor_array r.exclude_list c >>= λ t.
        parsed (record r { exclude_list = t.0 }, t.1))
    list_field = sets (parse_descriptor_array r.exclude_list c) _ (λ t e. record {
      hash_size = b.hash_size;
      rp = b.rp;
      user = b.user;
      list =
          subst (λ n. Fits n t.0) b.list.storage
            (Ensures-at (λ (s : DescriptorList × Cursor). Fits r.exclude_list.capacity s.0)
              (parse_descriptor_array-Fits r.exclude_list c) e);
      level = b.level;
      auth = b.auth;
    })

    extensions_field : Ensures After (
        parse_make_credential_extensions_map r.extensions c >>= λ t.
        parsed (record r { extensions = t.0 }, t.1))
    extensions_field = sets (parse_make_credential_extensions_map r.extensions c) _ (λ t e. record {
      hash_size = b.hash_size;
      rp = b.rp;
      user = b.user;
      list = b.list;
      level =
          Ensures-at (λ (s : CreateExtensions × Cursor). HasLevel s.0)
            (extensions-HasLevel r.extensions c b.level) e;
      auth = b.auth;
    })

    auth_field : Ensures After (
        cbor (read_bytes_copy pin_auth_max_len c) >>= λ t.
        parsed (record r { pin_auth = t.0; has_pin_auth = true }, t.1))
    auth_field = sets (cbor (read_bytes_copy pin_auth_max_len c)) _ (λ t e. record {
      hash_size = b.hash_size;
      rp = b.rp;
      user = b.user;
      list = b.list;
      level = b.level;
      auth =
          read_bytes_copy-le pin_auth_max_len c {r = t}
            (cbor_inv (read_bytes_copy pin_auth_max_len c) e);
    })

    parse_field-Bounded : (key : ℕ) → Ensures After (parse_field key r c)
    unfolding parse_field After
    parse_field-Bounded key =
        let P = Ensures After in
        if_both P (key == 1) hash_field (
          if_both P (key == 2) rp_field (
            if_both P (key == 3) user_field (
              if_both P (key == 4)
                (sets (parse_pubkey_cred_params r.es256_supported c) _ (λ t e. b))
                (if_both P (key == 5) list_field (
                  if_both P (key == 6) extensions_field (
                    if_both P (key == 7) (sets (parse_options_map r.options c) _ (λ t e. b)) (
                      if_both P (key == 8) auth_field (
                        if_both P (key == 9) (sets (cbor (read_uint c)) _ (λ t e. b)) (
                          if_both P (key == 11)
                            (sets
                              (parse_attestation_formats
                                (r.has_attestation_format_preference, r.preferred_attestation_mode)
                                c)
                              _ (λ t e. b))
                            (bind-Ensures After (cbor (skip c)) _
                              (λ c' e. parsed-Ensures After _ b)))))))))))

  pair-Bounded :
      (s : SeenKeys × MakeCredentialRequest) (c : Cursor)
      → Bounded capacity s.1
      → Ensures
          (λ (t : (SeenKeys × MakeCredentialRequest) × Cursor). Bounded capacity t.0.1)
          (keyed_pair parse_field s c)
  unfolding keyed_pair After
  pair-Bounded s c b =
      let P = λ (t : (SeenKeys × MakeCredentialRequest) × Cursor). Bounded capacity t.0.1 in
      bind-Ensures P (cbor (read_uint c)) _ (λ k e.
        bind-Ensures P (cbor (mark_seen_key s.0 k.0)) _ (λ m e'.
          bind-Ensures P (parse_field k.0 s.1 k.1) _
            (λ t f. parsed-Ensures P _ (Ensures-at After (parse_field-Bounded s.1 k.1 b k.0) f))))

-- An accepted makeCredential request has a client data hash of 32 bytes, a relying party of 1 to
-- 255 bytes and names of at most 64, all without a NUL, a user id of 1 to 64 bytes, an exclude list
-- within its storage that names no credential twice, a level from 1 to 3 if it asks for one, and a
-- PIN proof of at most 32 bytes.
pub parse_make_credential-Bounded :
    (input : List ℕ) (list : DescriptorList) {r : MakeCredentialRequest}
    → parse_make_credential input list ≡ parsed r
    → list.entries ≡ []
    → Bounded list.capacity r × (0 < length r.rp_id) × (0 < length r.user_id)
unfolding parse_make_credential
parse_make_credential-Bounded input list {r} e empty =
    let ((pairs, start), header, body) = >>=-parsed (cbor (read_map_start input)) _ e in
    let ((s, c'), loop, last) =
      >>=-parsed (for_items (keyed_pair parse_field) pairs (no_keys, empty_request list) start) _
        body in
    let (same, end, required) = validate_sound s.1 c' {r' = r} last in
    let initial : Bounded list.capacity (empty_request list) = record {
      hash_size = refl;
      rp = record { fits = omega arith; clean = unfold has_nul in refl };
      user = record {
        id = omega arith;
        name = record { fits = omega arith; clean = unfold has_nul in refl };
        display_name = record { fits = omega arith; clean = unfold has_nul in refl };
      };
      list = record {
        storage = refl;
        within = subst (λ (t : List (List ℕ)). length t ≤ list.capacity) (sym empty) (omega arith);
        distinct = subst Distinct (sym empty) tt;
      };
      level = λ h. cc;
      auth = omega arith;
    } in
    let bounded =
      Ensures-at (λ (t : (SeenKeys × MakeCredentialRequest) × Cursor). Bounded list.capacity t.0.1)
        (for_items-Ensures (λ (t : SeenKeys × MakeCredentialRequest). Bounded list.capacity t.1)
          (keyed_pair parse_field) (pair-Bounded list.capacity) pairs (no_keys, empty_request list)
          start initial)
        loop in
    (
      subst (λ (t : MakeCredentialRequest). Bounded list.capacity t) same bounded,
      subst (λ (t : MakeCredentialRequest). 0 < length t.rp_id) same required.rp,
      subst (λ (t : MakeCredentialRequest). 0 < length t.user_id) same required.user_id,
    )
