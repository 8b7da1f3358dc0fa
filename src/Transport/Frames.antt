-- ===== src/Transport/Frames.antt =====
-- `zf_transport_session_send_frames` and what is sent through it.
pub mod Fields
use zerofido.Base.{
  ℕ, zero, suc, ◌+◌, ◌-◌, ◌*◌, ◌/◌, ◌%◌, ◌^◌, Bool, true, false, Option, none, some, List, [], ◌∷◌,
  ◌++◌, ltb, leb, ◌==◌, if◌then◌else◌, length, take, drop, replicate, min, u8,
}
use zerofido.Transport.State.{
  TransportState, Capabilities, Outcome, Packet, packet_size, cmd_init, cmd_lock, cmd_error,
  err_channel_busy, err_invalid_len, err_invalid_seq,
}

-- `memcpy(packet, &cid, 4)` on a little-endian machine.
unfoldable pub cid_bytes : ℕ → List ℕ
cid_bytes cid = u8 cid ∷ u8 (cid / 2 ^ 8) ∷ u8 (cid / 2 ^ 16) ∷ u8 (cid / 2 ^ 24) ∷ []

-- A report starts as 64 zeros; what is written to it is its front.
unfoldable pub pad : List ℕ → Packet
pad content = content ++ replicate (packet_size - length content) 0

-- The continuation packets: each takes up to 59 bytes of what is left, so its length is fuel enough.
unfoldable pub continuation_frames : ℕ → ℕ → ℕ → List ℕ → List Packet
continuation_frames fuel cid seq [] = []
continuation_frames zero cid seq (b ∷ rest) = []
continuation_frames (suc fuel) cid seq (b ∷ rest) =
    pad (cid_bytes cid ++ seq ∷ take 59 (b ∷ rest))
    ∷ continuation_frames fuel cid (u8 (seq + 1)) (drop 59 (b ∷ rest))

-- The settle time before a MSG response is no part of the model.
unfoldable pub send_frames : ℕ → ℕ → List ℕ → List Packet
send_frames cid cmd content =
    let size = length content in
    pad (cid_bytes cid ++ cmd ∷ u8 (size / 2 ^ 8) ∷ u8 size ∷ take 57 content)
    ∷ continuation_frames size cid 0 (drop 57 content)

unfoldable pub send_error : ℕ → ℕ → List Packet
send_error cid hid_error = send_frames cid cmd_error (hid_error ∷ [])

unfoldable pub send_lock_response : ℕ → List Packet
send_lock_response cid = send_frames cid cmd_lock []

unfoldable pub handle_init : ℕ → ℕ → List ℕ → Capabilities → List Packet
handle_init response_cid assigned_cid payload capabilities =
    let flags =
      (if capabilities.transport_wink_enabled then 1 else 0)
      + (if capabilities.fido2_enabled then 4 else 0) in
    send_frames response_cid cmd_init (
      take 8 payload
      ++ (replicate (8 - length (take 8 payload)) 0
          ++ (cid_bytes assigned_cid ++ 2 ∷ 1 ∷ 4 ∷ 3 ∷ flags ∷ [])))

unfoldable pub send_busy_or_invalid_len : TransportState → ℕ → List Packet
send_busy_or_invalid_len state cid =
    send_error cid (if cid == state.cid then err_invalid_len else err_channel_busy)

unfoldable pub send_busy_or_invalid_seq : TransportState → ℕ → List Packet
send_busy_or_invalid_seq state cid =
    send_error cid (if cid == state.cid then err_invalid_seq else err_channel_busy)
