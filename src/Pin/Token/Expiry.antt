-- ===== src/Pin/Token/Expiry.antt =====
-- When a token counts as expired: the tick is 32 bits wide, and the difference is read as signed.
use zerofido.Base.{ℕ, ◌+◌, ◌-◌, ◌%◌, ◌^◌, ◌<◌, ◌≤◌, ◌≡◌, ◌↔◌, true, arith}
use zerofido.Pin.State.{ClientPinState}
use zerofido.Pin.Token.{elapsed, token_is_expired, note_pin_token_issued}

-- A token that was issued `age` milliseconds ago is expired exactly if its age, modulo 2^32, is at
-- least 30 seconds and below 2^31: the test is right for ages below 2^31 milliseconds, and then wrong
-- for as long again.
pub token_is_expired_window :
    (issued age : ℕ) (state : ClientPinState)
    → issued < 2 ^ 32
    → (token_is_expired ((issued + age) % 2 ^ 32) (note_pin_token_issued issued state) ≡ true)
      ↔ ((30000 ≤ age % 2 ^ 32) × (age % 2 ^ 32 < 2 ^ 31))
unfolding token_is_expired note_pin_token_issued elapsed
token_is_expired_window issued age state h =
    let diff : ((issued + age) % 2 ^ 32 + 2 ^ 32 - issued) % 2 ^ 32 ≡ age % 2 ^ 32 = omega arith in
    rw diff (λ e. (ground arith, ground arith), λ p. ground arith)
