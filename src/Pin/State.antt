-- ===== src/Pin/State.antt =====
-- `ZfClientPinState` of zerofido_pin.h, and the small functions on it that the others share.
use zerofido.Base.{ℕ, Bool, false, List, [], ◌∷◌, ◌==◌, replicate}
use Prim.Native.Nat.{bit_or, bit_xor}

-- `ZfP256KeyAgreementKey`
pub record KeyAgreement : Type 0 where
  pub private_key : List ℕ
  pub public_x : List ℕ
  pub public_y : List ℕ

pub record ClientPinState : Type 0 where
  pub pin_set : Bool
  pub pin_hash : List ℕ
  pub pin_token : List ℕ
  pub pin_token_active : Bool
  pub pin_token_issued_at : ℕ
  pub pin_token_permissions : ℕ
  pub pin_token_permissions_scoped : Bool
  pub pin_token_permissions_managed : Bool
  pub pin_token_permissions_rp_id_set : Bool
  pub pin_token_permissions_rp_id_hash : List ℕ
  pub pin_retries : ℕ
  pub pin_consecutive_mismatches : ℕ
  pub pin_auth_blocked : Bool
  pub key_agreement : KeyAgreement

abbrev pub pin_retries_max : ℕ
pin_retries_max = 8

abbrev pub pin_hash_len : ℕ
pin_hash_len = 16

-- `memset(.., 0, n)` and `zf_crypto_secure_zero`
abbrev pub zeros : ℕ → List ℕ
zeros n = replicate n 0

unfoldable pub clear_auth_block_state : ClientPinState → ClientPinState
clear_auth_block_state state = record state {
  pin_consecutive_mismatches = 0;
  pin_auth_blocked = false;
}

unfoldable pub reset_token_metadata : ClientPinState → ClientPinState
reset_token_metadata state = record state {
  pin_token_active = false;
  pin_token_issued_at = 0;
  pin_token_permissions = 0;
  pin_token_permissions_scoped = false;
  pin_token_permissions_managed = false;
  pin_token_permissions_rp_id_set = false;
  pin_token_permissions_rp_id_hash = zeros 32;
}

unfoldable pub invalidate_token_state : ClientPinState → ClientPinState
unfolding reset_token_metadata
invalidate_token_state state = reset_token_metadata (record state { pin_token = zeros 32 })

-- The loop of `zf_crypto_constant_time_equal`; a list that is too short reads as zeros.
unfoldable pub byte_diff : ℕ → ℕ → List ℕ → List ℕ → ℕ
byte_diff ℕ.zero diff left right = diff
byte_diff (ℕ.suc size) diff [] [] = byte_diff size (bit_or diff (bit_xor 0 0)) [] []
byte_diff (ℕ.suc size) diff (l ∷ left) [] = byte_diff size (bit_or diff (bit_xor l 0)) left []
byte_diff (ℕ.suc size) diff [] (r ∷ right) = byte_diff size (bit_or diff (bit_xor 0 r)) [] right
byte_diff (ℕ.suc size) diff (l ∷ left) (r ∷ right) =
    byte_diff size (bit_or diff (bit_xor l r)) left right

unfoldable pub constant_time_equal : ℕ → List ℕ → List ℕ → Bool
unfolding byte_diff
constant_time_equal size left right = byte_diff size 0 left right == 0
