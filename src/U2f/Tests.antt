-- ===== src/U2f/Tests.antt =====
-- Runs of the validation of U2F requests.
use zerofido.Base.{◌↔◌, inl, inr, ℕ, ◌≡◌, refl, List, [], ◌∷◌, ◌++◌, replicate}
use zerofido.U2f.Apdu.{parse_apdu_header, validate_authenticate_status, validate_request_status}
use zerofido.U2f.Apdu.Bounds.{IsAuthenticate, IsValidRequest, validate_request_status_iff}

-- An authentication with a key handle of 3 bytes.
abbrev authentication : List ℕ
authentication = 0 ∷ 2 ∷ 3 ∷ 0 ∷ 0 ∷ 0 ∷ 68 ∷ replicate 64 0xaa ++ 3 ∷ 1 ∷ 2 ∷ 3 ∷ []

authentication_is_valid : validate_request_status authentication ≡ 0
unfolding validate_request_status validate_authenticate_status parse_apdu_header
authentication_is_valid = refl

validate_request_status_iff_example :
    (validate_request_status authentication ≡ 0) ↔ IsValidRequest authentication
validate_request_status_iff_example = validate_request_status_iff authentication

-- The data of an extended request begins at byte 7.
authentication_data : IsAuthenticate authentication
authentication_data = (refl, inr (inl refl), (7, inl (refl, refl, refl, inl refl)))
