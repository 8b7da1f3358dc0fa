-- ===== src/Ctap/Parse/MakeCredential/Parts.antt =====
-- What the parsed parts of a makeCredential request are sure to hold.
use zerofido.Base.{ℕ, ◌≤◌, ◌≡◌, true, not, List, arith, ◌!=◌, length}
use zerofido.Cbor.Decode.{Cursor, read_uint, read_bool, read_text_ptr, read_map_start}
use zerofido.Cbor.Skip.{skip}
use zerofido.Ctap.Extensions.CredProtect.{cred_protect_value_is_valid}
use zerofido.Ctap.Parse.Parsed.{
  cbor, cbor_inv, Ensures, parsed-Ensures, refuse-Ensures, bind-Ensures, for_items-Ensures,
}
use zerofido.Ctap.Parse.Shared.{TextKey, classify_text_key, read_text_copy, read_text_discard}
use zerofido.Ctap.Parse.Shared.Bounds.{IsText, read_text_copy-IsText, read_bytes_copy-le}
use zerofido.Ctap.Parse.Cose.{read_bytes_copy}
use zerofido.Ctap.Parse.Extensions.{
  CreateExtensions, create_extension, create_extension_pair, parse_make_credential_extensions_map,
}
use zerofido.Ctap.Parse.MakeCredential.{
  Rp, User, MakeCredentialRequest, client_data_hash_len, max_rp_id_len, max_user_id_len,
  max_user_name_len, parse_client_data_hash, rp_value, rp_pair, parse_rp, user_value, user_pair,
  parse_user,
}

-- The relying party.
rp_value-IsText :
    (key : TextKey) (r : Rp) (c : Cursor)
    → IsText max_rp_id_len r.rp_id
    → Ensures (λ (s : Rp × Cursor). IsText max_rp_id_len s.0.rp_id) (rp_value key r c)
unfolding rp_value
rp_value-IsText TextKey.name r c h =
    let P = λ (s : Rp × Cursor). IsText max_rp_id_len s.0.rp_id in
    refuse-Ensures P r.saw_name _ _
      (λ _. bind-Ensures P (cbor (read_text_discard c)) _ (λ c' e. parsed-Ensures P _ h))
rp_value-IsText TextKey.icon r c h =
    let P = λ (s : Rp × Cursor). IsText max_rp_id_len s.0.rp_id in
    refuse-Ensures P r.saw_icon _ _
      (λ _. bind-Ensures P (cbor (read_text_discard c)) _ (λ c' e. parsed-Ensures P _ h))
rp_value-IsText TextKey.id r c h =
    let P = λ (s : Rp × Cursor). IsText max_rp_id_len s.0.rp_id in
    refuse-Ensures P r.saw_id _ _ (λ _.
      bind-Ensures P (cbor (read_text_copy max_rp_id_len c)) _ (λ t e. parsed-Ensures P _ (
        read_text_copy-IsText max_rp_id_len c {r = t}
          (cbor_inv (read_text_copy max_rp_id_len c) e))))
rp_value-IsText _ r c h =
    let P = λ (s : Rp × Cursor). IsText max_rp_id_len s.0.rp_id in
    bind-Ensures P (cbor (skip c)) _ (λ c' e. parsed-Ensures P _ h)

pub parse_rp-IsText :
    (rp_id : List ℕ) (c : Cursor)
    → IsText max_rp_id_len rp_id
    → Ensures (λ (s : Rp × Cursor). IsText max_rp_id_len s.0.rp_id) (parse_rp rp_id c)
unfolding parse_rp rp_pair
parse_rp-IsText rp_id c h =
    let P = λ (s : Rp × Cursor). IsText max_rp_id_len s.0.rp_id in
    bind-Ensures P (cbor (read_map_start c)) _ (λ n e.
      for_items-Ensures (λ (r : Rp). IsText max_rp_id_len r.rp_id) rp_pair
        (λ r c' g.
          bind-Ensures P (cbor (read_text_ptr c')) _
            (λ f e'. rp_value-IsText (classify_text_key f.0) r f.1 g))
        n.0 _ n.1 h)

-- The user's id and names within their arrays.
pub record IsUser (user_id user_name user_display_name : List ℕ) : Type 0 where
  pub id : length user_id ≤ max_user_id_len
  pub name : IsText max_user_name_len user_name
  pub display_name : IsText max_user_name_len user_display_name

abbrev pub HoldsUser : User → Type 0
HoldsUser u = IsUser u.user_id u.user_name u.user_display_name

user_value-IsUser :
    (key : TextKey) (u : User) (c : Cursor)
    → HoldsUser u
    → Ensures (λ (s : User × Cursor). HoldsUser s.0) (user_value key u c)
unfolding user_value
user_value-IsUser TextKey.id u c h =
    let P = λ (s : User × Cursor). HoldsUser s.0 in
    refuse-Ensures P u.saw_id _ _ (λ _.
      bind-Ensures P (cbor (read_bytes_copy max_user_id_len c)) _ (λ t e.
        parsed-Ensures P _ (record {
          id =
              read_bytes_copy-le max_user_id_len c {r = t}
                (cbor_inv (read_bytes_copy max_user_id_len c) e);
          name = h.name;
          display_name = h.display_name;
        })))
user_value-IsUser TextKey.name u c h =
    let P = λ (s : User × Cursor). HoldsUser s.0 in
    refuse-Ensures P u.saw_name _ _ (λ _.
      bind-Ensures P (cbor (read_text_copy max_user_name_len c)) _ (λ t e.
        parsed-Ensures P _ (record {
          id = h.id;
          name =
              read_text_copy-IsText max_user_name_len c {r = t}
                (cbor_inv (read_text_copy max_user_name_len c) e);
          display_name = h.display_name;
        })))
user_value-IsUser TextKey.display_name u c h =
    let P = λ (s : User × Cursor). HoldsUser s.0 in
    refuse-Ensures P u.saw_display_name _ _ (λ _.
      bind-Ensures P (cbor (read_text_copy max_user_name_len c)) _ (λ t e.
        parsed-Ensures P _ (record {
          id = h.id;
          name = h.name;
          display_name =
              read_text_copy-IsText max_user_name_len c {r = t}
                (cbor_inv (read_text_copy max_user_name_len c) e);
        })))
user_value-IsUser TextKey.icon u c h =
    let P = λ (s : User × Cursor). HoldsUser s.0 in
    refuse-Ensures P u.saw_icon _ _
      (λ _. bind-Ensures P (cbor (read_text_discard c)) _ (λ c' e. parsed-Ensures P _ h))
user_value-IsUser _ u c h =
    let P = λ (s : User × Cursor). HoldsUser s.0 in
    bind-Ensures P (cbor (skip c)) _ (λ c' e. parsed-Ensures P _ h)

pub parse_user-IsUser :
    (r : MakeCredentialRequest) (c : Cursor)
    → IsUser r.user_id r.user_name r.user_display_name
    → Ensures (λ (s : User × Cursor). HoldsUser s.0) (parse_user r c)
unfolding parse_user user_pair
parse_user-IsUser r c h =
    let P = λ (s : User × Cursor). HoldsUser s.0 in
    bind-Ensures P (cbor (read_map_start c)) _ (λ n e.
      for_items-Ensures HoldsUser user_pair
        (λ u c' g.
          bind-Ensures P (cbor (read_text_ptr c')) _
            (λ f e'. user_value-IsUser (classify_text_key f.0) u f.1 g))
        n.0 _ n.1 h)

-- A protection level that is asked for is one of the three.
abbrev pub HasLevel : CreateExtensions → Type 0
HasLevel e = e.has_cred_protect ≡ true → (1 ≤ e.cred_protect) × (e.cred_protect ≤ 3)

create_extension-HasLevel :
    (key : TextKey) (x : CreateExtensions) (c : Cursor)
    → HasLevel x
    → Ensures (λ (s : CreateExtensions × Cursor). HasLevel s.0) (create_extension key x c)
unfolding create_extension cred_protect_value_is_valid
create_extension-HasLevel TextKey.cred_protect x c h =
    let P = λ (s : CreateExtensions × Cursor). HasLevel s.0 in
    refuse-Ensures P x.saw_cred_protect _ _ (λ _. bind-Ensures P (cbor (read_uint c)) _ (λ raw e.
      refuse-Ensures P (not (cred_protect_value_is_valid raw.0)) _ _
        (λ valid. parsed-Ensures P _ (λ _. ground arith))))
create_extension-HasLevel TextKey.hmac_secret x c h =
    let P = λ (s : CreateExtensions × Cursor). HasLevel s.0 in
    refuse-Ensures P x.saw_hmac_secret _ _
      (λ _. bind-Ensures P (cbor (read_bool c)) _ (λ b e. parsed-Ensures P _ h))
create_extension-HasLevel _ x c h =
    let P = λ (s : CreateExtensions × Cursor). HasLevel s.0 in
    bind-Ensures P (cbor (skip c)) _ (λ c' e. parsed-Ensures P _ h)

pub extensions-HasLevel :
    (x : CreateExtensions) (c : Cursor)
    → HasLevel x
    → Ensures
        (λ (s : CreateExtensions × Cursor). HasLevel s.0)
        (parse_make_credential_extensions_map x c)
unfolding parse_make_credential_extensions_map create_extension_pair
extensions-HasLevel x c h =
    let P = λ (s : CreateExtensions × Cursor). HasLevel s.0 in
    bind-Ensures P (cbor (read_map_start c)) _ (λ n e.
      for_items-Ensures HasLevel create_extension_pair
        (λ x' c' g.
          bind-Ensures P (cbor (read_text_ptr c')) _
            (λ f e'. create_extension-HasLevel (classify_text_key f.0) x' f.1 g))
        n.0 _ n.1 h)

pub parse_client_data_hash-size :
    (c : Cursor)
    → Ensures
        (λ (s : List ℕ × Cursor). length s.0 ≡ client_data_hash_len)
        (parse_client_data_hash c)
unfolding parse_client_data_hash
parse_client_data_hash-size c =
    let P = λ (s : List ℕ × Cursor). length s.0 ≡ client_data_hash_len in
    bind-Ensures P (cbor (read_bytes_copy client_data_hash_len c)) _ (λ t e.
      refuse-Ensures P (length t.0 != client_data_hash_len) _ _
        (λ same. parsed-Ensures P _ (ground arith)))
