-- ===== src/Pin/Tests.antt =====
-- Runs of pin/core on small states, over a storage that keeps the last state that was persisted.
use zerofido.Base.{
  ℕ, ◌+◌, ◌%◌, ◌^◌, ◌<◌, ◌≤◌, ◌≡◌, ◌↔◌, ◌≢◌, ◌⊎◌, ◌↔◌, inr, refl, true, false, ◌&&◌, Option, none,
  some, List, [], ◌∷◌, ◌++◌, arith, length, take, replicate, All, if◌then◌else◌,
}
use zerofido.Cbor.Utf8.{utf8_text, utf8_step, IsScalar}
use zerofido.Ctap.Status.{success, is_success}
use zerofido.Pin.State.{
  ClientPinState, KeyAgreement, pin_retries_max, pin_hash_len, zeros, byte_diff,
  constant_time_equal,
}
use zerofido.Pin.Equal.{constant_time_equal_iff}
use zerofido.Pin.Retry.{StateStore, verify_hash, auth_success}
use zerofido.Pin.Retry.Attempts.{verify_hash_sound, wrong_hash_cost}
use zerofido.Pin.Retry.Budget.{Session, guessed, Reach, here, next, guess, wrong_guesses_bounded}
use zerofido.Pin.Token.{
  Hashes, AuthRequest, token_is_expired, note_pin_token_issued, require_auth, check_auth_param,
  scope_to_rp_id, token_rp_id_matches, hash_rp_id, set_token_permissions, accept_auth, elapsed,
  uv_auth_param_len,
}
use zerofido.Pin.Token.Authorize.{IsUsable, KnowsToken, IsPermitted, require_auth_sound}
use zerofido.Pin.Token.SingleUse.{managed_token_single_use}
use zerofido.Pin.Token.Expiry.{token_is_expired_window}
use zerofido.Pin.Plaintext.{
  count_loop, validate_utf8, validate_plaintext_length, validate_plaintext_policy, unpadded_length,
  is_zero_from, validate_plaintext_block, apply_plaintext,
}
use zerofido.Pin.Plaintext.Policy.{plaintext_checks_iff}
use zerofido.Pin.Plaintext.Change.{apply_plaintext_all_or_nothing}
use zerofido.Pin.Lifecycle.{PinFile, ok, missing, init_ok, zero_state, init_with_result, clear}
use zerofido.Pin.Lifecycle.Restart.{restart_lifts_throttle, clear_all_or_nothing}

abbrev Stored : Type 0
Stored = Option ClientPinState

-- A storage that always works, and one that never does.
abbrev good_store : StateStore Stored
good_store = record {
  persist = λ s state. (true, some state);
  fail_closed = λ s state. (true, some state);
}

abbrev bad_store : StateStore Stored
bad_store = record { persist = λ s state. (false, s); fail_closed = λ s state. (false, s) }

abbrev good_file : PinFile Stored
good_file = record {
  cleanup_temp = λ s. s;
  load = λ s state. elim s [ none ↦ (missing, state) | some stored ↦ (ok, stored) ];
  clear = λ s. (true, none);
}

-- A hash that keeps the first 32 bytes, and a MAC that puts the key in front of the message.
abbrev toy_hashes : Hashes
toy_hashes = record {
  sha256 = λ m. take 32 (m ++ zeros 32);
  hmac_sha256 = λ key m. some (take 32 (key ++ m ++ zeros 32));
}

abbrev key : KeyAgreement
key = record { private_key = 1 ∷ []; public_x = 2 ∷ []; public_y = 3 ∷ [] }

abbrev right_hash : List ℕ
right_hash = replicate 16 5

abbrev wrong_hash : List ℕ
wrong_hash = replicate 16 6

abbrev with_pin : ClientPinState
with_pin = record zero_state { pin_set = true; pin_hash = right_hash; pin_retries = 8 }

compares :
    (constant_time_equal 16 right_hash right_hash ≡ true)
    × (constant_time_equal 16 wrong_hash right_hash ≡ false)
unfolding constant_time_equal byte_diff
compares = (refl, refl)

abbrev left : List ℕ
left = 1 ∷ 2 ∷ 3 ∷ []

abbrev right : List ℕ
right = 1 ∷ 2 ∷ 4 ∷ []

constant_time_equal_iff_example :
    (constant_time_equal 2 left right ≡ true) ↔ (take 2 left ≡ take 2 right)
constant_time_equal_iff_example =
    constant_time_equal_iff 2 left right (omega arith) (omega arith) (omega arith) (omega arith)

-- Three wrong hashes, over a storage that does not work.
abbrev at_start : Session Stored
at_start = record { state = with_pin; storage = none; guesses = 0; streak = 0 }

abbrev after_three : Session Stored
after_three =
    guess bad_store key wrong_hash
      (guess bad_store key wrong_hash (guess bad_store key wrong_hash at_start))

three_guesses : Reach bad_store at_start after_three
three_guesses =
    next (next (next here (guessed key wrong_hash)) (guessed key wrong_hash))
      (guessed key wrong_hash)

wrong_guesses_bounded_example :
    (after_three.guesses + after_three.state.pin_retries ≤ pin_retries_max)
    × (after_three.streak ≤ 3)
wrong_guesses_bounded_example =
    wrong_guesses_bounded bad_store refl refl (omega arith) (inr (omega arith)) three_guesses

accepted : (verify_hash good_store (some key) right_hash with_pin none).0 ≡ success
unfolding verify_hash auth_success constant_time_equal byte_diff
accepted = refl

verify_hash_sound_example :
    let (_, state', storage') = verify_hash good_store (some key) right_hash with_pin none in
    ((with_pin.pin_set ≡ true)
      × (with_pin.pin_auth_blocked ≡ false)
      × (0 < with_pin.pin_retries)
      × (constant_time_equal pin_hash_len right_hash with_pin.pin_hash ≡ true))
    × ((state'.pin_retries ≡ pin_retries_max)
        × (state'.pin_consecutive_mismatches ≡ 0)
        × (state'.pin_auth_blocked ≡ false)
        × (good_store.persist none state' ≡ (true, storage')))
verify_hash_sound_example =
    verify_hash_sound good_store (some key) right_hash with_pin none accepted

wrong_hash_cost_example :
    let (status, state', storage') = verify_hash bad_store (some key) wrong_hash with_pin none in
    (status ≢ success)
    × ((state'.pin_retries < with_pin.pin_retries)
        ⊎ ((◌≡◌ {A = Option KeyAgreement} (some key) none)
            × (state' ≡ with_pin)
            × (storage' ≡ none)))
wrong_hash_cost_example =
    wrong_hash_cost bad_store (some key) wrong_hash with_pin none refl refl (omega arith) compares.1

abbrev throttled : ClientPinState
throttled = record with_pin {
  pin_consecutive_mismatches = 3;
  pin_auth_blocked = true;
  pin_retries = 5;
}

-- A managed token for makeCredential and getAssertion, without a relying party so far.
abbrev with_token : ClientPinState
with_token = record with_pin {
  pin_token = replicate 32 7;
  pin_token_active = true;
  pin_token_issued_at = 1000;
  pin_token_permissions = 3;
  pin_token_permissions_scoped = true;
  pin_token_permissions_managed = true;
}

abbrev assertion : AuthRequest
assertion = record {
  uv_requested = false;
  has_pin_auth = true;
  client_data_hash = replicate 32 9;
  pin_auth = replicate 32 7;
  has_pin_protocol = true;
  pin_protocol = 2;
  rp_id = some (0x61 ∷ 0x62 ∷ []);
  required_permissions = 2;
}

verified : (require_auth toy_hashes good_store 2000 assertion with_token none).uv_verified ≡ true
unfolding require_auth check_auth_param scope_to_rp_id token_rp_id_matches hash_rp_id
    set_token_permissions accept_auth token_is_expired elapsed uv_auth_param_len constant_time_equal
    byte_diff
verified = refl

require_auth_sound_example :
    IsUsable 2000 with_token
    × KnowsToken toy_hashes assertion with_token
    × IsPermitted toy_hashes assertion with_token
require_auth_sound_example =
    require_auth_sound toy_hashes good_store 2000 assertion with_token none verified

managed_token_single_use_example :
    let first = require_auth toy_hashes good_store 2000 assertion with_token none in
    (first.state.pin_token_permissions % 4 ≡ 0)
    × ((require_auth toy_hashes good_store 2100 assertion first.state first.storage).uv_verified
        ≡ false)
managed_token_single_use_example =
    managed_token_single_use toy_hashes good_store 2000 2100 assertion assertion with_token none
      refl refl refl verified

token_is_expired_window_example :
    (token_is_expired
        ((4294967000 + 2147483648) % 2 ^ 32)
        (note_pin_token_issued 4294967000 with_token)
      ≡ true)
    ↔ ((30000 ≤ 2147483648 % 2 ^ 32) × (2147483648 % 2 ^ 32 < 2 ^ 31))
token_is_expired_window_example =
    token_is_expired_window 4294967000 2147483648 with_token (omega arith)

-- "é€12"
abbrev pin_points : List ℕ
pin_points = 0xe9 ∷ 0x20ac ∷ 0x31 ∷ 0x32 ∷ []

abbrev pin_text : List ℕ
pin_text = 0xc3 ∷ 0xa9 ∷ 0xe2 ∷ 0x82 ∷ 0xac ∷ 0x31 ∷ 0x32 ∷ []

pin_text_is_valid : validate_plaintext_policy pin_text ≡ success
unfolding validate_plaintext_policy validate_utf8 count_loop utf8_step validate_plaintext_length
pin_text_is_valid = refl

abbrev IsNonzeroByte : ℕ → Type 0
IsNonzeroByte c = c ≢ 0

abbrev pin_block : List ℕ
pin_block = pin_text ++ replicate 57 0

pin_block_has_pin : validate_plaintext_block pin_block ≡ some 7
unfolding validate_plaintext_block unpadded_length is_zero_from
pin_block_has_pin = refl

plaintext_checks_iff_example :
    ((validate_plaintext_policy pin_text ≡ success) ↔ (
      (cs : List ℕ) × All IsScalar cs
      × (pin_text ≡ utf8_text cs)
      × (4 ≤ length cs)
      × (length pin_text ≤ 63)))
    × ((validate_plaintext_block pin_block ≡ some 7) ↔ (
        (pin : List ℕ) × (k : ℕ) × All IsNonzeroByte pin
        × (pin_block ≡ pin ++ replicate k 0)
        × (length pin ≡ 7)
        × (7 ≤ 63)
        × (0 < k)))
plaintext_checks_iff_example = plaintext_checks_iff pin_text pin_block 7

apply_plaintext_all_or_nothing_example :
    let (status, state', _) =
      apply_plaintext toy_hashes good_store (zeros 32) pin_text false with_token none in
    if is_success status
    then (validate_plaintext_policy pin_text ≡ success)
      × (false && with_token.pin_set ≡ false)
      × (state'.pin_set ≡ true)
      × (state'.pin_hash ≡ take pin_hash_len (toy_hashes.sha256 pin_text))
      × (state'.pin_retries ≡ pin_retries_max)
      × (state'.pin_auth_blocked ≡ false)
      × (state'.pin_token ≡ zeros 32)
      × (state'.pin_token_active ≡ false)
      × (state'.pin_token_permissions ≡ 0)
    else state' ≡ with_token
apply_plaintext_all_or_nothing_example =
    apply_plaintext_all_or_nothing toy_hashes good_store (zeros 32) pin_text false with_token none

restart_lifts_throttle_example :
    let (result, state, _) = init_with_result good_file (zeros 32) (some key) (some throttled) in
    (result ≡ init_ok)
    × (state.pin_set ≡ true)
    × (state.pin_hash ≡ throttled.pin_hash)
    × (state.pin_retries ≡ throttled.pin_retries)
    × (state.pin_auth_blocked ≡ false)
    × (state.pin_consecutive_mismatches ≡ 0)
    × (state.pin_token_active ≡ false)
    × (state.pin_token_permissions ≡ 0)
restart_lifts_throttle_example =
    restart_lifts_throttle good_file (zeros 32) key (some throttled) throttled refl

clear_all_or_nothing_example :
    let (cleared, state', _) = clear good_file (zeros 32) (some key) throttled (some throttled) in
    if cleared
    then (state'.pin_set ≡ false)
      × (state'.pin_hash ≡ zeros pin_hash_len)
      × (state'.pin_retries ≡ pin_retries_max)
      × (state'.pin_auth_blocked ≡ false)
      × (state'.pin_token ≡ zeros 32)
      × (state'.pin_token_active ≡ false)
    else state' ≡ throttled
clear_all_or_nothing_example =
    clear_all_or_nothing good_file (zeros 32) (some key) throttled (some throttled)
