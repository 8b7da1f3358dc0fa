-- ===== src/U2f/Apdu.antt =====
-- u2f/apdu.c: the shape of a U2F request. A request is the list of its `request_len` bytes.
pub mod Bounds
use zerofido.Base.{
  ℕ, ◌+◌, ◌*◌, Bool, true, false, not, ◌&&◌, ◌||◌, Option, none, some, List, [], ◌∷◌, ltb, leb,
  ◌==◌, ◌!=◌, if◌then◌else◌, length, get_or, u8, ◌/◌,
}

-- `data_at` holds where the data begins: `&buf[7]` is `some 7`, and the null pointer `none`.
pub record ParsedApdu : Type 0 where
  pub cla : ℕ
  pub ins : ℕ
  pub p1 : ℕ
  pub p2 : ℕ
  pub data_at : Option ℕ
  pub lc : ℕ

abbrev pub sw_wrong_length : ℕ
sw_wrong_length = 0x6700

abbrev pub sw_wrong_data : ℕ
sw_wrong_data = 0x6a80

abbrev pub sw_ins_not_supported : ℕ
sw_ins_not_supported = 0x6d00

abbrev pub sw_cla_not_supported : ℕ
sw_cla_not_supported = 0x6e00

abbrev pub cmd_register : ℕ
cmd_register = 1

abbrev pub cmd_authenticate : ℕ
cmd_authenticate = 2

abbrev pub cmd_version : ℕ
cmd_version = 3

abbrev pub byte_at : List ℕ → ℕ → ℕ
byte_at buf i = get_or buf i 0

unfoldable pub parse_apdu_header : List ℕ → Bool → Option ParsedApdu
parse_apdu_header buf allow_short =
    let len = length buf in
    let apdu : ParsedApdu = record {
      cla = byte_at buf 0;
      ins = byte_at buf 1;
      p1 = byte_at buf 2;
      p2 = byte_at buf 3;
      data_at = none;
      lc = 0;
    } in
    let long_lc = byte_at buf 5 * 256 + byte_at buf 6 in
    let short_lc = byte_at buf 4 in
    if ltb len 4
    then none
    else if allow_short && len == 5
    then some apdu
    else if leb 7 len && byte_at buf 4 == 0
    then (if len != 7 + long_lc && len != 9 + long_lc
        then none
        else some (record apdu { data_at = some 7; lc = long_lc }))
    else if len != 5 + short_lc && len != 6 + short_lc
    then none
    else some (record apdu { data_at = some 5; lc = short_lc })

unfoldable pub validate_apdu_status : List ℕ → ℕ → ℕ → Bool → ℕ
validate_apdu_status buf ins expected_lc allow_short = elim (parse_apdu_header buf allow_short) [
  | none ↦ sw_wrong_length
  | some apdu ↦
      if apdu.cla != 0
      then sw_cla_not_supported
      else if apdu.ins != ins
      then sw_ins_not_supported
      else if apdu.lc != expected_lc
      then sw_wrong_length
      else 0
]

-- The branch of `U2F_CMD_AUTHENTICATE`.
unfoldable pub validate_authenticate_status : List ℕ → ℕ
validate_authenticate_status buf = elim (parse_apdu_header buf false) [
  | none ↦ sw_wrong_length
  | some apdu ↦
      if apdu.p1 != 7 && apdu.p1 != 3 && apdu.p1 != 8
      then sw_wrong_data
      else if ltb apdu.lc 65
      then sw_wrong_length
      else elim apdu.data_at [
        | none ↦ sw_wrong_length
        | some data_at ↦ if apdu.lc != 65 + byte_at buf (data_at + 64) then sw_wrong_length else 0
      ]
]

-- 0 for a valid request.
unfoldable pub validate_request_status : List ℕ → ℕ
validate_request_status buf =
    let request_len = length buf in
    let command = byte_at buf 1 in
    if ltb request_len 4
    then sw_wrong_length
    else if byte_at buf 0 != 0
    then sw_cla_not_supported
    else if command == cmd_version
    then (if request_len == 4 then 0 else validate_apdu_status buf cmd_version 0 true)
    else if ltb request_len 5
    then sw_wrong_length
    else if ltb request_len 7
    then sw_wrong_length
    else if command == cmd_register
    then validate_apdu_status buf cmd_register 64 false
    else if command == cmd_authenticate
    then validate_authenticate_status buf
    else sw_ins_not_supported

-- The two status bytes, or nothing for a valid request.
unfoldable pub validate_request_into_response : List ℕ → List ℕ
validate_request_into_response request =
    let status = validate_request_status request in
    if status != 0 then u8 (status / 256) ∷ u8 status ∷ [] else []

unfoldable pub request_needs_user_presence : List ℕ → Bool
request_needs_user_presence buf =
    if ltb (length buf) 2
    then false
    else if byte_at buf 1 == cmd_register
    then true
    else if byte_at buf 1 == cmd_authenticate
    then (if ltb (length buf) 3 then false else byte_at buf 2 == 3)
    else false
