-- ===== src/Ctap/Parse/Shared.antt =====
-- The small functions of ctap/parse/shared.c: text keys, duplicate keys, bounded texts.
pub mod Bounds
use zerofido.Base.{
  ℕ, zero, suc, ◌+◌, Bool, true, false, ◌&&◌, ◌||◌, Option, none, some, List, [], ◌∷◌, ltb, leb,
  ◌==◌, if◌then◌else◌, length, get_or, replicate,
}
use zerofido.Base.Partial.{◌>>=◌}
use zerofido.Cbor.Decode.{Cursor, read_text_ptr}
use Prim.Native.Char.{code}
use Prim.Native.String.{String}

-- `ZfCtapTextKey`
pub data TextKey : Type 0 where
  unknown : TextKey
  alg : TextKey
  cred_protect : TextKey
  display_name : TextKey
  hmac_secret : TextKey
  icon : TextKey
  id : TextKey
  name : TextKey
  public_key : TextKey
  rk : TextKey
  type_key : TextKey
  up : TextKey
  uv : TextKey

abbrev pub codes : String → List ℕ
codes String.[] = []
codes (String.◌∷◌ c s) = code c ∷ codes s

-- `size == n && memcmp(ptr, text, n) == 0`
unfoldable pub bytes_equal : List ℕ → List ℕ → Bool
bytes_equal [] [] = true
bytes_equal [] (t ∷ text) = false
bytes_equal (b ∷ bytes) [] = false
bytes_equal (b ∷ bytes) (t ∷ text) = b == t && bytes_equal bytes text

-- The table of `zf_ctap_classify_text_key`.
abbrev keys : List (List ℕ × TextKey)
keys =
    (codes "alg", alg)
    ∷ (codes "credProtect", cred_protect)
    ∷ (codes "displayName", display_name)
    ∷ (codes "hmac-secret", hmac_secret)
    ∷ (codes "icon", icon)
    ∷ (codes "id", id)
    ∷ (codes "name", name)
    ∷ (codes "public-key", public_key)
    ∷ (codes "rk", rk)
    ∷ (codes "type", type_key)
    ∷ (codes "up", up)
    ∷ (codes "uv", uv)
    ∷ []

unfoldable pub find_key : List (List ℕ × TextKey) → List ℕ → TextKey
find_key [] text = unknown
find_key ((known, key) ∷ table) text = if bytes_equal text known then key else find_key table text

unfoldable pub classify_text_key : List ℕ → TextKey
classify_text_key = find_key keys

abbrev pub is_public_key : TextKey → Bool
is_public_key public_key = true
is_public_key _ = false

-- The sixteen bits of `seen_keys`, the lowest first.
abbrev pub SeenKeys : Type 0
SeenKeys = List Bool

abbrev pub no_keys : SeenKeys
no_keys = replicate 16 false

abbrev pub mark : ℕ → SeenKeys → SeenKeys
mark key [] = []
mark zero (bit ∷ bits) = true ∷ bits
mark (suc key) (bit ∷ bits) = bit ∷ mark key bits

-- `none` where the key was seen before.
unfoldable pub mark_seen_key : SeenKeys → ℕ → Option SeenKeys
mark_seen_key seen_keys key =
    if leb 16 key
    then some seen_keys
    else if get_or seen_keys key false
    then none
    else some (mark key seen_keys)

-- `memchr(ptr, '\0', size) != NULL`
unfoldable pub has_nul : List ℕ → Bool
has_nul [] = false
has_nul (byte ∷ text) = byte == 0 || has_nul text

-- The text that is copied, without the NUL behind it.
unfoldable pub read_text_copy : ℕ → Cursor → Option (List ℕ × Cursor)
read_text_copy out_size cursor = do
  (text, c) ← read_text_ptr cursor
  if leb out_size (length text) || has_nul text then none else some (text, c)

unfoldable pub read_text_discard : Cursor → Option Cursor
read_text_discard cursor = do
  (text, c) ← read_text_ptr cursor
  if has_nul text then none else some c
