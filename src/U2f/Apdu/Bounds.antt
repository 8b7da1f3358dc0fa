-- ===== src/U2f/Apdu/Bounds.antt =====
-- What a request that passes validation looks like: where its data stands, and how long it is.
use zerofido.Base.{
  ℕ, ◌+◌, ◌*◌, ◌≤◌, ◌<◌, ◌≡◌, ap, subst, ◌≢◌, ◌⊎◌, ◌↔◌, inl, inr, refl, sym, ◌∙◌, true, false, some,
  List, arith, length, Option-cases,
}
use native.Mathlib.Decide.{ℕ_discrete, dec_le}
use zerofido.U2f.Apdu.{
  ParsedApdu, cmd_register, cmd_authenticate, cmd_version, byte_at, parse_apdu_header,
  validate_apdu_status, validate_authenticate_status, validate_request_status,
}

-- The two envelopes of a request with `lc` bytes of data from index `start` on. An extended one has a
-- zero and the length in two bytes, a short one the length in one byte; behind the data there is the
-- expected length of the answer, in two bytes or in one, or nothing.
abbrev pub IsExtended : List ℕ → ℕ → ℕ → Type 0
IsExtended buf start lc =
    (start ≡ 7)
    × (byte_at buf 4 ≡ 0)
    × (byte_at buf 5 * 256 + byte_at buf 6 ≡ lc)
    × ((length buf ≡ start + lc) ⊎ (length buf ≡ start + lc + 2))

abbrev pub IsShort : List ℕ → ℕ → ℕ → Type 0
IsShort buf start lc =
    (start ≡ 5)
    × ((byte_at buf 4 ≢ 0) ⊎ (length buf < 7))
    × (byte_at buf 4 ≡ lc)
    × ((length buf ≡ start + lc) ⊎ (length buf ≡ start + lc + 1))

abbrev pub HasData : List ℕ → ℕ → ℕ → Type 0
HasData buf start lc = IsExtended buf start lc ⊎ IsShort buf start lc

parsed_by : List ℕ → ℕ → ℕ → ParsedApdu
parsed_by buf start lc = record {
  cla = byte_at buf 0;
  ins = byte_at buf 1;
  p1 = byte_at buf 2;
  p2 = byte_at buf 3;
  data_at = some start;
  lc = lc;
}

parse_form :
    (buf : List ℕ) {apdu : ParsedApdu}
    → parse_apdu_header buf false ≡ some apdu
    → (start : ℕ) × (lc : ℕ) × (apdu ≡ parsed_by buf start lc) × HasData buf start lc
unfolding parse_apdu_header parsed_by
parse_form buf {apdu} e =
    let long_lc = byte_at buf 5 * 256 + byte_at buf 6 in
    elim (dec_le 7 (length buf)) [
      | yes long ↦ elim (ℕ_discrete (byte_at buf 4) 0) [
        | yes zero ↦ (7, long_lc, ground arith, inl (refl, zero, refl, ground arith))
        | no other ↦ (5, byte_at buf 4, ground arith, inr (refl, inl other, refl, ground arith))
      ]
      | no few ↦ (5, byte_at buf 4, ground arith, inr (refl, inr (omega arith), refl, ground arith))
    ]

form_parses :
    (buf : List ℕ) (start lc : ℕ)
    → HasData buf start lc
    → parse_apdu_header buf false ≡ some (parsed_by buf start lc)
unfolding parse_apdu_header parsed_by
form_parses buf start lc (inl (s, z, l, n)) = ground arith
form_parses buf start lc (inr (s, z, l, n)) = ground arith

-- The requests that are valid: of class 0, and a VERSION without data or in the short form of four or
-- five bytes, or a REGISTER with 64 bytes of data, or an AUTHENTICATE of a known kind with 64 bytes, the
-- length of a key handle and just so many bytes.
abbrev pub IsVersion : List ℕ → Type 0
IsVersion buf =
    (byte_at buf 1 ≡ cmd_version)
    × ((length buf ≡ 4) ⊎ (length buf ≡ 5) ⊎ ((start : ℕ) × HasData buf start 0))

abbrev pub IsRegister : List ℕ → Type 0
IsRegister buf = (byte_at buf 1 ≡ cmd_register) × ((start : ℕ) × HasData buf start 64)

abbrev pub IsAuthenticate : List ℕ → Type 0
IsAuthenticate buf =
    (byte_at buf 1 ≡ cmd_authenticate)
    × ((byte_at buf 2 ≡ 7) ⊎ (byte_at buf 2 ≡ 3) ⊎ (byte_at buf 2 ≡ 8))
    × ((start : ℕ) × HasData buf start (65 + byte_at buf (start + 64)))

abbrev pub IsValidRequest : List ℕ → Type 0
IsValidRequest buf = (byte_at buf 0 ≡ 0) × (IsVersion buf ⊎ IsRegister buf ⊎ IsAuthenticate buf)

-- What the header test for a given command and length comes to.
status_sound :
    (buf : List ℕ) (ins lc : ℕ)
    → validate_apdu_status buf ins lc false ≡ 0
    → (start : ℕ) × HasData buf start lc
unfolding validate_apdu_status parsed_by
status_sound buf ins lc e = elim (Option-cases (parse_apdu_header buf false)) [
  | inl f ↦ absurd (ground arith)
  | inr (apdu, f) ↦
      let (start, n, same, form) = parse_form buf f in
      let fields = ap (λ (a : ParsedApdu). a.lc) same in
      let right : n ≡ lc = ground arith in (start, subst (HasData buf start) right form)
]

status_complete :
    (buf : List ℕ) (ins lc start : ℕ)
    → byte_at buf 0 ≡ 0
    → byte_at buf 1 ≡ ins
    → HasData buf start lc
    → validate_apdu_status buf ins lc false ≡ 0
unfolding validate_apdu_status parsed_by
status_complete buf ins lc start class command form =
    rw (form_parses buf start lc form, validate_apdu_status) (ground arith)

authenticate_sound :
    (buf : List ℕ)
    → validate_authenticate_status buf ≡ 0
    → ((byte_at buf 2 ≡ 7) ⊎ (byte_at buf 2 ≡ 3) ⊎ (byte_at buf 2 ≡ 8))
      × ((start : ℕ) × HasData buf start (65 + byte_at buf (start + 64)))
unfolding validate_authenticate_status parsed_by
authenticate_sound buf e = elim (Option-cases (parse_apdu_header buf false)) [
  | inl f ↦ absurd (ground arith)
  | inr (apdu, f) ↦
      let (start, n, same, form) = parse_form buf f in
      let length_field = ap (λ (a : ParsedApdu). a.lc) same in
      let kind = ap (λ (a : ParsedApdu). a.p1) same in
      let place = ap (λ (a : ParsedApdu). a.data_at) same in
      let right : n ≡ 65 + byte_at buf (start + 64) = ground arith in
      (ground arith, (start, subst (HasData buf start) right form))
]

authenticate_complete :
    (buf : List ℕ) (start : ℕ)
    → (byte_at buf 2 ≡ 7) ⊎ (byte_at buf 2 ≡ 3) ⊎ (byte_at buf 2 ≡ 8)
    → HasData buf start (65 + byte_at buf (start + 64))
    → validate_authenticate_status buf ≡ 0
unfolding validate_authenticate_status parsed_by
authenticate_complete buf start kind form =
    rw (form_parses buf start (65 + byte_at buf (start + 64)) form, validate_authenticate_status)
      (ground arith)

not_short :
    (buf : List ℕ) → length buf ≢ 5 → parse_apdu_header buf true ≡ parse_apdu_header buf false
unfolding parse_apdu_header
not_short buf h = ground arith

not_short_status :
    (buf : List ℕ) (ins lc : ℕ)
    → length buf ≢ 5
    → validate_apdu_status buf ins lc true ≡ validate_apdu_status buf ins lc false
unfolding validate_apdu_status
not_short_status buf ins lc h = rw (not_short buf h, validate_apdu_status) refl

version_sound :
    (buf : List ℕ)
    → validate_apdu_status buf cmd_version 0 true ≡ 0
    → (length buf ≡ 5) ⊎ ((start : ℕ) × HasData buf start 0)
version_sound buf e = elim (ℕ_discrete (length buf) 5) [
  | yes five ↦ inl five
  | no other ↦
      inr (status_sound buf cmd_version 0 (sym (not_short_status buf cmd_version 0 other) ∙ e))
]

version_complete :
    (buf : List ℕ)
    → byte_at buf 0 ≡ 0
    → byte_at buf 1 ≡ cmd_version
    → (length buf ≡ 5) ⊎ ((start : ℕ) × HasData buf start 0)
    → validate_apdu_status buf cmd_version 0 true ≡ 0
version_complete buf class command (inl five) =
    unfold validate_apdu_status parse_apdu_header in ground arith
version_complete buf class command (inr (start, form)) = elim (ℕ_discrete (length buf) 5) [
  | yes five ↦ unfold validate_apdu_status parse_apdu_header in ground arith
  | no other ↦
      not_short_status buf cmd_version 0 other
      ∙ status_complete buf cmd_version 0 start class command form
]

authenticates :
    (buf : List ℕ)
    → byte_at buf 1 ≡ cmd_authenticate
    → validate_authenticate_status buf ≡ 0
    → IsAuthenticate buf
authenticates buf command e = let (kind, form) = authenticate_sound buf e in (command, kind, form)

has_header :
    (buf : List ℕ) → (length buf ≡ 5) ⊎ ((start : ℕ) × HasData buf start 0) → 4 ≤ length buf
has_header buf (inl five) = omega arith
has_header buf (inr (start, inl (s, z, l, n))) = ground arith
has_header buf (inr (start, inr (s, z, l, n))) = ground arith

request_sound : (buf : List ℕ) → validate_request_status buf ≡ 0 → IsValidRequest buf
unfolding validate_request_status
request_sound buf e = (
  ground arith,
  elim (ℕ_discrete (byte_at buf 1) cmd_version) [
    | yes v ↦ inl (
      v,
      elim (ℕ_discrete (length buf) 4) [
        | yes four ↦ inl four
        | no longer ↦ inr (version_sound buf (ground arith))
      ],
    )
    | no v ↦ elim (ℕ_discrete (byte_at buf 1) cmd_register) [
      | yes r ↦ inr (inl (r, status_sound buf cmd_register 64 (ground arith)))
      | no r ↦ inr (inr (authenticates buf (ground arith) (ground arith)))
    ]
  ],
)

request_complete : (buf : List ℕ) → IsValidRequest buf → validate_request_status buf ≡ 0
unfolding validate_request_status
request_complete buf (class, inl (v, inl four)) = ground arith
request_complete buf (class, inl (v, inr form)) =
    let status = version_complete buf class v form in let long = has_header buf form in ground arith
request_complete buf (class, inr (inl (r, (start, form)))) =
    let status = status_complete buf cmd_register 64 start class r form in ground arith
request_complete buf (class, inr (inr (a, kind, (start, form)))) =
    let status = authenticate_complete buf start kind form in ground arith

-- The validation accepts a request exactly if it is of class 0 and is a VERSION of four or five bytes or
-- without data, or a REGISTER with 64 bytes of data, or an AUTHENTICATE of kind 7, 3 or 8 with 64 bytes,
-- the length of a key handle and just so many bytes. The data begins at byte 7 in an extended envelope
-- and at byte 5 in a short one, and fills the request up to the expected length of the answer.
pub validate_request_status_iff :
    (buf : List ℕ) → (validate_request_status buf ≡ 0) ↔ IsValidRequest buf
validate_request_status_iff buf = (request_sound buf, request_complete buf)
