-- ===== src/Ctap/Extensions/CredProtect.antt =====
-- ctap/extensions/cred_protect.c
use zerofido.Base.{ℕ, Bool, true, false, ◌&&◌, ◌||◌, leb, ◌==◌, if◌then◌else◌}

abbrev pub uv_optional : ℕ
uv_optional = 1

abbrev pub uv_optional_with_cred_id : ℕ
uv_optional_with_cred_id = 2

abbrev pub uv_required : ℕ
uv_required = 3

unfoldable pub cred_protect_effective : ℕ → ℕ
cred_protect_effective cred_protect = if cred_protect == 0 then uv_optional else cred_protect

unfoldable pub cred_protect_value_is_valid : ℕ → Bool
cred_protect_value_is_valid cred_protect =
    leb uv_optional cred_protect && leb cred_protect uv_required

unfoldable pub cred_protect_allows_assertion : ℕ → Bool → Bool → Bool
cred_protect_allows_assertion cred_protect uv_verified uses_allow_list =
    let level = cred_protect_effective cred_protect in
    if level == uv_optional
    then true
    else if level == uv_optional_with_cred_id
    then uv_verified || uses_allow_list
    else if level == uv_required
    then uv_verified
    else false
