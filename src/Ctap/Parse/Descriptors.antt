-- ===== src/Ctap/Parse/Descriptors.antt =====
-- The credential descriptors of ctap/parse/shared.c: allow lists and exclude lists.
pub mod Distinct
use zerofido.Base.{
  ℕ, zero, suc, Bool, true, false, not, ◌&&◌, ◌||◌, List, [], ◌∷◌, ◌++◌, ltb, leb, ◌==◌,
  if◌then◌else◌, length, replicate,
}
use zerofido.Cbor.Decode.{Cursor, read_bytes_ptr, read_text_ptr, read_map_start, read_array_start}
use zerofido.Cbor.Skip.{skip}
use zerofido.Crypto.Hash.{sha256}
use zerofido.Ctap.Status.{err_invalid_cbor, err_invalid_parameter}
use zerofido.Ctap.Parse.Parsed.{Parsed, parsed, ◌>>=◌, ◌>>◌, refuse, cbor, for_items}
use zerofido.Ctap.Parse.Shared.{
  TextKey, id, type_key, is_public_key, classify_text_key, bytes_equal,
}

abbrev pub max_descriptor_id_len : ℕ
max_descriptor_id_len = 1023

abbrev pub credential_id_len : ℕ
credential_id_len = 32

-- `ZfCredentialDescriptorList`: the digests up to `count`, and the capacity of the caller's storage,
-- which is 0 where there is none.
pub record DescriptorList : Type 0 where
  pub entries : List (List ℕ)
  pub capacity : ℕ

-- The variables of `zf_ctap_parse_credential_descriptor`.
pub record Descriptor : Type 0 where
  pub saw_id : Bool
  pub saw_type : Bool
  pub public_key : Bool
  pub digest : List ℕ

unfoldable pub descriptor_value : TextKey → Descriptor → Cursor → Parsed (Descriptor × Cursor)
descriptor_value TextKey.id d cursor = do
  refuse d.saw_id err_invalid_cbor
  (content, c) ← cbor (read_bytes_ptr cursor)
  refuse (length content == 0 || ltb max_descriptor_id_len (length content)) err_invalid_cbor
  parsed (record d { saw_id = true; digest = sha256 content }, c)
descriptor_value TextKey.type_key d cursor = do
  refuse d.saw_type err_invalid_cbor
  (text, c) ← cbor (read_text_ptr cursor)
  parsed (record d { saw_type = true; public_key = is_public_key (classify_text_key text) }, c)
descriptor_value _ d cursor = do c ← cbor (skip cursor); parsed (d, c)

unfoldable pub descriptor_pair : Descriptor → Cursor → Parsed (Descriptor × Cursor)
descriptor_pair d cursor = do
  (key, c) ← cbor (read_text_ptr cursor)
  descriptor_value (classify_text_key key) d c

abbrev pub no_descriptor : Descriptor
no_descriptor = record {
  saw_id = false;
  saw_type = false;
  public_key = false;
  digest = replicate 32 0;
}

unfoldable pub parse_credential_descriptor : Cursor → Parsed (Descriptor × Cursor)
parse_credential_descriptor cursor = do
  (pairs, c) ← cbor (read_map_start cursor)
  (d, c') ← for_items descriptor_pair pairs no_descriptor c
  refuse (not (d.saw_id && d.saw_type)) err_invalid_cbor
  parsed (d, c')

unfoldable pub contains : List (List ℕ) → List ℕ → Bool
contains [] digest = false
contains (entry ∷ entries) digest = bytes_equal entry digest || contains entries digest

unfoldable pub descriptor_item : DescriptorList → Cursor → Parsed (DescriptorList × Cursor)
descriptor_item list cursor = do
  (d, c) ← parse_credential_descriptor cursor
  if not d.public_key then parsed (list, c) else (do
    refuse (leb list.capacity (length list.entries)) err_invalid_parameter
    refuse (contains list.entries d.digest) err_invalid_parameter
    parsed (record list { entries = list.entries ++ d.digest ∷ [] }, c))

unfoldable pub parse_descriptor_array : DescriptorList → Cursor → Parsed (DescriptorList × Cursor)
parse_descriptor_array list cursor = do
  (items, c) ← cbor (read_array_start cursor)
  for_items descriptor_item items (record list { entries = [] }) c

unfoldable pub descriptor_list_contains_id : DescriptorList → List ℕ → Bool
descriptor_list_contains_id list credential_id =
    if length list.entries == 0
      || length credential_id == 0
      || ltb credential_id_len (length credential_id)
    then false
    else contains list.entries (sha256 credential_id)
