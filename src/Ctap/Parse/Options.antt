-- ===== src/Ctap/Parse/Options.antt =====
-- `zf_ctap_parse_options_map` and `zf_ctap_parse_pubkey_cred_params` of ctap/parse/shared.c.
use zerofido.Base.{Bool, true, false, not, ◌&&◌, ◌||◌, if◌then◌else◌}
use zerofido.Base.Int.{ℤ, pos, negsuc}
use zerofido.Cbor.Decode.{
  Cursor, read_int, read_bool, read_text_ptr, read_map_start, read_array_start,
}
use zerofido.Cbor.Skip.{skip}
use zerofido.Ctap.Status.{err_invalid_cbor}
use zerofido.Ctap.Parse.Parsed.{Parsed, parsed, ◌>>=◌, ◌>>◌, refuse, cbor, for_items}
use zerofido.Ctap.Parse.Shared.{TextKey, is_public_key, classify_text_key}
use zerofido.Ctap.Parse.Cose.{is_int}

pub record Options : Type 0 where
  pub up : Bool
  pub has_up : Bool
  pub uv : Bool
  pub has_uv : Bool
  pub rk : Bool
  pub has_rk : Bool

-- The options with what was seen in this map.
pub record OptionsSeen : Type 0 where
  pub saw_up : Bool
  pub saw_uv : Bool
  pub saw_rk : Bool
  pub options : Options

unfoldable pub set_option : TextKey → Bool → OptionsSeen → Parsed OptionsSeen
set_option TextKey.up value s = do
  refuse s.saw_up err_invalid_cbor
  parsed (record s { saw_up = true; options = record s.options { up = value; has_up = true } })
set_option TextKey.uv value s = do
  refuse s.saw_uv err_invalid_cbor
  parsed (record s { saw_uv = true; options = record s.options { uv = value; has_uv = true } })
set_option TextKey.rk value s = do
  refuse s.saw_rk err_invalid_cbor
  parsed (record s { saw_rk = true; options = record s.options { rk = value; has_rk = true } })
set_option _ value s = parsed s

unfoldable pub options_pair : OptionsSeen → Cursor → Parsed (OptionsSeen × Cursor)
options_pair s cursor = do
  (key, c) ← cbor (read_text_ptr cursor)
  (value, c') ← cbor (read_bool c)
  s' ← set_option (classify_text_key key) value s
  parsed (s', c')

unfoldable pub parse_options_map : Options → Cursor → Parsed (Options × Cursor)
parse_options_map options cursor = do
  (pairs, c) ← cbor (read_map_start cursor)
  (s, c') ←
      for_items options_pair pairs
        (record { saw_up = false; saw_uv = false; saw_rk = false; options = options }) c
  parsed (s.options, c')

-- The variables of one entry of pubKeyCredParams.
pub record Param : Type 0 where
  pub alg : ℤ
  pub have_alg : Bool
  pub have_type : Bool
  pub public_key : Bool

unfoldable pub param_value : TextKey → Param → Cursor → Parsed (Param × Cursor)
param_value TextKey.alg p cursor = do
  refuse p.have_alg err_invalid_cbor
  (number, c) ← cbor (read_int cursor)
  parsed (record p { alg = number; have_alg = true }, c)
param_value TextKey.type_key p cursor = do
  refuse p.have_type err_invalid_cbor
  (value, c) ← cbor (read_text_ptr cursor)
  parsed (record p { have_type = true; public_key = is_public_key (classify_text_key value) }, c)
param_value _ p cursor = do c ← cbor (skip cursor); parsed (p, c)

unfoldable pub param_pair : Param → Cursor → Parsed (Param × Cursor)
param_pair p cursor = do
  (key, c) ← cbor (read_text_ptr cursor)
  param_value (classify_text_key key) p c

abbrev pub no_param : Param
no_param = record { alg = pos 0; have_alg = false; have_type = false; public_key = false }

unfoldable pub param_item : Bool → Cursor → Parsed (Bool × Cursor)
param_item es256_supported cursor = do
  (pairs, c) ← cbor (read_map_start cursor)
  (p, c') ← for_items param_pair pairs no_param c
  refuse (not p.have_alg || not p.have_type) err_invalid_cbor
  parsed (if p.public_key && is_int p.alg (negsuc 6) then true else es256_supported, c')

unfoldable pub parse_pubkey_cred_params : Bool → Cursor → Parsed (Bool × Cursor)
parse_pubkey_cred_params es256_supported cursor = do
  (items, c) ← cbor (read_array_start cursor)
  for_items param_item items es256_supported c
