-- ===== src/Transport/Assembly.antt =====
-- transport/usb_hid_session.c: a message from its first packet to its last.
pub mod Begin
pub mod Buffer
pub mod Pieces
pub mod RoundTrip
pub mod Whole
use zerofido.Base.Memory.{write_at}
use zerofido.Base.{
  ℕ, ◌+◌, ◌-◌, ◌*◌, ◌/◌, ◌%◌, ◌^◌, Bool, true, false, not, ◌&&◌, ◌||◌, Option, none, some, List, [],
  ◌∷◌, ◌++◌, ltb, leb, ◌==◌, ◌!=◌, if◌then◌else◌, length, take, drop, get_or, u8, min,
}
use zerofido.U2f.Apdu.{validate_request_into_response}
use zerofido.Transport.State.{
  TransportState, Host, Protocol, ping, u2f, wink, ctap2, Outcome, Packet, max_msg_size, cmd_ping,
  cmd_msg, cmd_lock, cmd_wink, cmd_cbor, err_invalid_cmd, err_invalid_len, err_invalid_seq,
  err_invalid_channel, err_other, packet_cid, session_reset, payload_capacity,
}
use zerofido.Transport.Frames.{send_frames, send_error}
use zerofido.Transport.Cids.{cid_is_allocated, touch_cid}

-- A call that ends in these reports.
abbrev pub sends : TransportState → List Packet → Outcome
sends state sent = record { state = state; sent = sent; cancels = false; completed = none }

-- The message so far, `payload[0 .. total_len)`.
abbrev pub message : TransportState → List ℕ
message state = elim state.payload [ none ↦ [] | some payload ↦ take state.total_len payload ]

-- The arena that is acquired is attached with a capacity of ZF_MAX_MSG_SIZE.
unfoldable pub ensure_payload : Host → TransportState → Bool × TransportState
ensure_payload host state = elim state.payload [
  | none ↦ elim host.arena [
    | none ↦ (false, state)
    | some arena ↦
        let attached = take max_msg_size arena in
        (leb max_msg_size (length attached), record state { payload = some attached })
  ]
  | some payload ↦ (leb max_msg_size (length payload), state)
]

-- The reply to a U2F request that fails validation; `none` where the code returns false.
unfoldable pub try_send_u2f_validation_error : Host → TransportState → Option Outcome
try_send_u2f_validation_error host state =
    let status = validate_request_into_response (message state) in
    if state.cmd != cmd_msg
    then none
    else if not host.capabilities.u2f_enabled
    then none
    else if length status == 0
    then none
    else some (sends (session_reset state) (send_frames state.cid cmd_msg status))

unfoldable pub protocol_of : ℕ → Option Protocol
protocol_of cmd =
    if cmd == cmd_ping
    then some ping
    else if cmd == cmd_msg
    then some u2f
    else if cmd == cmd_wink
    then some wink
    else if cmd == cmd_cbor
    then some ctap2
    else none

unfoldable pub complete_message : Host → TransportState → Outcome
complete_message host state = elim (try_send_u2f_validation_error host state) [
  | some outcome ↦ outcome
  | none ↦ elim (protocol_of state.cmd) [
    | none ↦ sends state (send_error state.cid err_invalid_cmd)
    | some protocol ↦
        let (has_payload, state') = ensure_payload host state in
        if not has_payload
        then sends state' (send_error state'.cid err_other)
        else record (sends state' []) { completed = some (protocol, message state') }
  ]
]

unfoldable pub complete_if_ready : Host → TransportState → Outcome
complete_if_ready host state =
    if state.received_len != state.total_len
    then sends state []
    else complete_message host (record state { active = false })

unfoldable pub command_length_is_valid : ℕ → ℕ → Bool
command_length_is_valid cmd msg_len =
    if cmd == cmd_msg || cmd == cmd_cbor
    then ltb 0 msg_len
    else if cmd == cmd_lock
    then msg_len == 1
    else if cmd == cmd_wink
    then msg_len == 0
    else true

-- The state with the message begun, or the reports of the refusal; the caller goes on only with the
-- first.
unfoldable pub begin_message :
    Host → ℕ → ℕ → ℕ → TransportState → Bool × TransportState × List Packet
begin_message host cid cmd msg_len state =
    let reset = session_reset state in
    let has_payload : Bool = elim state.payload [ none ↦ false | some payload ↦ true ] in
    if not has_payload || ltb (payload_capacity state) msg_len || ltb max_msg_size msg_len
    then (false, reset, send_error cid err_invalid_len)
    else if not (command_length_is_valid cmd msg_len)
    then (false, reset, send_error cid err_invalid_len)
    else (
      true,
      record reset {
        active = true;
        cid = cid;
        cmd = cmd;
        total_len = msg_len;
        next_seq = 0;
        last_activity = host.tick;
      },
      [],
    )

-- Both copies: `chunk` bytes of what the packet carries behind its header go to `offset`.
unfoldable pub copy_payload : ℕ → List ℕ → TransportState → TransportState
copy_payload offset content state =
    let chunk = min (length content) (state.total_len - offset) in
    if chunk == 0 then state else record state {
      payload = elim state.payload [
        | none ↦ none
        | some payload ↦ some (write_at offset (take chunk content) payload)
      ];
      received_len = offset + chunk;
    }

unfoldable pub copy_init_payload : Packet → TransportState → TransportState
copy_init_payload packet = copy_payload 0 (drop 7 packet)

unfoldable pub copy_continuation_payload : Packet → TransportState → TransportState
copy_continuation_payload packet state = copy_payload state.received_len (drop 5 packet) state

-- The end of `zf_transport_handle_init_packet`, where the packet begins a message.
unfoldable pub begin_packet : Host → ℕ → ℕ → ℕ → Packet → TransportState → Outcome
begin_packet host cid cmd msg_len packet state =
    if not (cid_is_allocated state cid)
    then sends state (send_error cid err_invalid_channel)
    else let (has_payload, ready) = ensure_payload host (touch_cid host.tick cid state) in
      if not has_payload
      then sends ready (send_error cid err_other)
      else let (begun, state', refusal) = begin_message host cid cmd msg_len ready in
        if begun
        then complete_if_ready host (copy_init_payload packet state')
        else sends state' refusal

unfoldable pub handle_cont_packet : Host → Packet → TransportState → Outcome
handle_cont_packet host packet state =
    let cid = packet_cid packet in
    let seq = get_or packet 4 0 in
    if not state.active
    then sends state []
    else if seq != state.next_seq || cid != state.cid
    then sends (session_reset state) (send_error cid err_invalid_seq)
    else let touched = touch_cid host.tick cid state in
      complete_if_ready host (
        copy_continuation_payload packet
          (record touched { next_seq = u8 (touched.next_seq + 1); last_activity = host.tick }))
