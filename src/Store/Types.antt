-- ===== src/Store/Types.antt =====
-- The records and the index entries of zerofido_types.h, in a production build: an entry holds the
-- hash of the relying party's id and no names.
use zerofido.Base.{ℕ, Bool, List}
use zerofido.Crypto.Hash.{sha256}
use zerofido.Ctap.Extensions.CredProtect.{cred_protect_effective}

abbrev pub max_credentials : ℕ
max_credentials = 32

-- `ZfCredentialRecord`; a text is what stands in front of its NUL.
pub record CredentialRecord : Type 0 where
  pub in_use : Bool
  pub resident_key : Bool
  pub file_name : List ℕ
  pub storage_version : ℕ
  pub credential_id : List ℕ
  pub credential_id_len : ℕ
  pub rp_id : List ℕ
  pub user_id : List ℕ
  pub user_name : List ℕ
  pub user_display_name : List ℕ
  pub public_x : List ℕ
  pub public_y : List ℕ
  pub private_wrapped : List ℕ
  pub private_iv : List ℕ
  pub sign_count : ℕ
  pub created_at : ℕ
  pub cred_protect : ℕ
  pub hmac_secret : Bool
  pub hmac_secret_without_uv : List ℕ
  pub hmac_secret_with_uv : List ℕ

-- `ZfCredentialIndexEntry`
pub record IndexEntry : Type 0 where
  pub in_use : Bool
  pub resident_key : Bool
  pub credential_id : List ℕ
  pub credential_id_len : ℕ
  pub rp_id_hash : List ℕ
  pub sign_count : ℕ
  pub counter_high_water : ℕ
  pub created_at : ℕ
  pub cred_protect : ℕ

-- `zf_store_index_entry_from_record`
unfoldable pub entry_from_record : CredentialRecord → IndexEntry
entry_from_record r = record {
  in_use = r.in_use;
  resident_key = r.resident_key;
  credential_id = r.credential_id;
  credential_id_len = r.credential_id_len;
  rp_id_hash = sha256 r.rp_id;
  sign_count = r.sign_count;
  counter_high_water = r.sign_count;
  created_at = r.created_at;
  cred_protect = cred_protect_effective r.cred_protect;
}
