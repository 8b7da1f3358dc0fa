-- ===== src/Pin/Plaintext.antt =====
-- pin/core/plaintext.c: the PIN policy, the padded PIN block, and setting a PIN.
pub mod Change
pub mod Policy
use zerofido.Base.{
  ℕ, zero, suc, ◌+◌, ◌-◌, ◌%◌, ◌≡◌, Bool, true, false, not, ◌&&◌, ◌||◌, Option, none, some, List,
  [], ◌∷◌, ltb, leb, ◌==◌, if◌then◌else◌, length, take,
}
use zerofido.Cbor.Utf8.{utf8_step}
use zerofido.Ctap.Status.{
  Status, success, is_success, err_other, err_pin_auth_invalid, err_pin_policy_violation,
}
use zerofido.Pin.State.{
  ClientPinState, KeyAgreement, pin_retries_max, pin_hash_len, clear_auth_block_state,
  invalidate_token_state,
}
use zerofido.Pin.Retry.{StateStore, verify_hash}
use zerofido.Pin.Token.{Hashes}

abbrev pub max_pin_utf8_bytes : ℕ
max_pin_utf8_bytes = 63

abbrev pub min_pin_length : ℕ
min_pin_length = 4

unfoldable pub new_pin_enc_length_is_valid : ℕ → Bool
new_pin_enc_length_is_valid len = leb 64 len && leb len 64 && len % 16 == 0

-- `zf_pin_validate_utf8`: the loop's body is that of the CBOR validator, and counts a code point in
-- each round. The length of the text is fuel enough.
unfoldable pub count_loop : ℕ → ℕ → List ℕ → Option ℕ
count_loop fuel count [] = some count
count_loop zero count (lead ∷ s) = none
count_loop (suc fuel) count (lead ∷ s) = elim (utf8_step lead s) [
  | none ↦ none
  | some rest ↦ count_loop fuel (count + 1) rest
]

unfoldable pub validate_utf8 : List ℕ → Option ℕ
validate_utf8 pin = count_loop (length pin) 0 pin

unfoldable pub validate_plaintext_length : ℕ → Status
validate_plaintext_length pin_len =
    if ltb pin_len min_pin_length || ltb max_pin_utf8_bytes pin_len
    then err_pin_policy_violation
    else success

unfoldable pub validate_plaintext_policy : List ℕ → Status
unfolding validate_plaintext_length
validate_plaintext_policy pin =
    if ltb max_pin_utf8_bytes (length pin)
    then err_pin_policy_violation
    else elim (validate_utf8 pin) [
      | none ↦ err_pin_policy_violation
      | some pin_codepoints ↦ validate_plaintext_length pin_codepoints
    ]

unfoldable pub unpadded_length : List ℕ → ℕ
unpadded_length [] = 0
unpadded_length (c ∷ block) = if c == 0 then 0 else suc (unpadded_length block)

unfoldable pub is_zero_from : ℕ → List ℕ → Bool
is_zero_from zero [] = true
is_zero_from zero (c ∷ block) = c == 0 && is_zero_from zero block
is_zero_from (suc i) [] = true
is_zero_from (suc i) (c ∷ block) = is_zero_from i block

-- The length of the PIN in the block, or `none` where the code returns false.
unfoldable pub validate_plaintext_block : List ℕ → Option ℕ
validate_plaintext_block block =
    let pin_len = unpadded_length block in
    if pin_len == length block
    then none
    else if ltb max_pin_utf8_bytes pin_len
    then none
    else if is_zero_from pin_len block
    then some pin_len
    else none

module _ (hashes : Hashes) {Storage : Type 0} (store : StateStore Storage) where
  unfoldable pub apply_plaintext :
      List ℕ → List ℕ → Bool → ClientPinState → Storage → Status × ClientPinState × Storage
  unfolding clear_auth_block_state invalidate_token_state
  apply_plaintext fresh_token pin require_unset state storage =
      let policy = validate_plaintext_policy pin in
      if not (is_success policy)
      then (policy, state, storage)
      else if require_unset && state.pin_set
      then (err_pin_auth_invalid, state, storage)
      else let state' = record (clear_auth_block_state state) {
        pin_set = true;
        pin_retries = pin_retries_max;
        pin_hash = take pin_hash_len (hashes.sha256 pin);
      } in
        let (persisted, storage') = store.persist storage state' in
        if persisted
        then (success, record (invalidate_token_state state') { pin_token = fresh_token }, storage')
        else (
          err_other,
          record state' {
            pin_hash = state.pin_hash;
            pin_set = state.pin_set;
            pin_retries = state.pin_retries;
            pin_consecutive_mismatches = state.pin_consecutive_mismatches;
            pin_auth_blocked = state.pin_auth_blocked;
          },
          storage',
        )

  unfoldable pub verify_plaintext :
      Option KeyAgreement → List ℕ → ClientPinState → Storage → Status × ClientPinState × Storage
  verify_plaintext fresh_key pin state storage =
      let policy = validate_plaintext_policy pin in
      if not (is_success policy)
      then (policy, state, storage)
      else verify_hash store fresh_key (take pin_hash_len (hashes.sha256 pin)) state storage

  unfoldable pub set_plaintext :
      List ℕ → List ℕ → ClientPinState → Storage → Status × ClientPinState × Storage
  set_plaintext fresh_token pin = apply_plaintext fresh_token pin true

  unfoldable pub replace_plaintext :
      List ℕ → List ℕ → ClientPinState → Storage → Status × ClientPinState × Storage
  replace_plaintext fresh_token new_pin = apply_plaintext fresh_token new_pin false
