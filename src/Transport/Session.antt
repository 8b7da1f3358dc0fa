-- ===== src/Transport/Session.antt =====
-- transport/usb_hid_session.c: what each packet does to a session.
pub mod Invariant
pub mod Undisturbed
pub mod Valid
use zerofido.Base.{
  ℕ, suc, ◌+◌, ◌-◌, ◌*◌, ◌/◌, ◌%◌, ◌^◌, Bool, true, false, not, ◌&&◌, ◌||◌, Option, none, some,
  List, [], ◌∷◌, ◌++◌, ltb, leb, ◌==◌, ◌!=◌, if◌then◌else◌, length, take, drop, get_or,
}
use zerofido.Ctap.Status.{Status, success, err_keepalive_cancel}
use zerofido.Transport.State.{
  TransportState, Host, Protocol, Outcome, Packet, broadcast_cid, cmd_lock, cmd_init, cmd_cbor,
  cmd_cancel, err_invalid_par, err_invalid_len, err_invalid_seq, err_msg_timeout, err_channel_busy,
  err_invalid_channel, err_other, packet_cid, is_due, session_reset, refresh_lock, lock_blocks,
  is_busy_for_cid,
}
use zerofido.Transport.Frames.{
  send_error, send_lock_response, handle_init, send_busy_or_invalid_len, send_busy_or_invalid_seq,
}
use zerofido.Transport.Cids.{cid_is_allocated, touch_cid, allocate_cid}
use zerofido.Transport.Assembly.{sends, begin_packet, handle_cont_packet}

abbrev pub packet_cmd : Packet → ℕ
packet_cmd packet = get_or packet 4 0

-- `(packet[4] & ZF_CTAPHID_TYPE_INIT) != 0`
abbrev pub is_init_packet : Packet → Bool
is_init_packet packet = get_or packet 4 0 / 128 % 2 == 1

abbrev pub packet_msg_len : Packet → ℕ
packet_msg_len packet = get_or packet 5 0 * 256 + get_or packet 6 0

-- `&packet[7]`, `msg_len` bytes
abbrev pub packet_payload : Packet → List ℕ
packet_payload packet = take (packet_msg_len packet) (drop 7 packet)

-- `msg_len != 8 || packet_len - 7 < msg_len`
abbrev pub init_is_malformed : Packet → Bool
init_is_malformed packet =
    packet_msg_len packet != 8 || ltb (length packet - 7) (packet_msg_len packet)

unfoldable pub resync_processing : Host → ℕ → Packet → TransportState → Status × Outcome
resync_processing host cid packet state =
    if init_is_malformed packet
    then (success, sends state (send_error cid err_invalid_len))
    else if not (cid_is_allocated state cid)
    then (success, sends state (send_error cid err_invalid_channel))
    else let state' = record state {
      processing_resync = true;
      processing = false;
      processing_generation = (state.processing_generation + 1) % 2 ^ 32;
    } in
      (
        err_keepalive_cancel,
        record (sends (touch_cid host.tick cid state')
            (handle_init cid cid (packet_payload packet) host.capabilities)) { cancels = true },
      )

unfoldable pub recover_with_broadcast_init : Host → Packet → TransportState → Status × Outcome
recover_with_broadcast_init host packet state =
    if init_is_malformed packet
    then (success, sends state (send_error broadcast_cid err_invalid_len))
    else let (allocated, state') = allocate_cid host state in
      elim allocated [
        | none ↦ (success, sends state' (send_error broadcast_cid err_other))
        | some assigned_cid ↦ (
          err_keepalive_cancel,
          record (sends
              (record state' {
                processing_resync = true;
                processing = false;
                processing_cancel_requested = true;
                processing_generation = (state'.processing_generation + 1) % 2 ^ 32;
              })
              (handle_init broadcast_cid assigned_cid (packet_payload packet) host.capabilities)) {
                cancels = true;
              },
        )
      ]

abbrev pub cancel_hits : ℕ → TransportState → Bool
cancel_hits cid state = state.processing && state.cmd == cmd_cbor && cid == state.cid

unfoldable pub handle_processing_control : Host → Packet → TransportState → Status × Outcome
handle_processing_control host packet state =
    let cid = packet_cid packet in
    let cmd = packet_cmd packet in
    if ltb (length packet) 5
    then (success, sends state [])
    else if not (is_init_packet packet)
    then (success, sends state [])
    else if ltb (length packet) 7
    then (success, sends state (send_busy_or_invalid_len state cid))
    else if cmd == cmd_cancel
    then (if packet_msg_len packet != 0
        then (success, sends state (send_error cid err_invalid_len))
        else if cancel_hits cid state
        then (
          err_keepalive_cancel,
          record (sends (record state { processing_cancel_requested = true }) []) {
            cancels = true;
          },
        )
        else (success, sends state []))
    else if cmd == cmd_init && cid == state.cid
    then resync_processing host cid packet state
    else if cmd == cmd_init && cid == broadcast_cid
    then recover_with_broadcast_init host packet state
    else if cid != state.cid
    then (success, sends state (send_error cid err_channel_busy))
    else (success, sends state [])

unfoldable pub handle_cancel : ℕ → ℕ → TransportState → Outcome
handle_cancel cid msg_len state =
    if msg_len != 0
    then sends state (send_error cid err_invalid_len)
    else if cancel_hits cid state
    then record (sends (record state { processing_cancel_requested = true }) []) { cancels = true }
    else sends state []

unfoldable pub handle_lock : Host → ℕ → Packet → TransportState → Outcome
handle_lock host cid packet state =
    let msg_len = packet_msg_len packet in
    let lock_seconds = get_or packet 7 0 in
    if msg_len != 1 || ltb (length packet - 7) msg_len
    then sends state (send_error cid err_invalid_len)
    else if not (cid_is_allocated state cid)
    then sends state (send_error cid err_invalid_channel)
    else if ltb 10 lock_seconds
    then sends state (send_error cid err_invalid_par)
    else let touched = touch_cid host.tick cid state in
      let locked =
        if lock_seconds == 0
        then (if touched.lock_cid == cid
            then record touched { lock_cid = 0; lock_expires_at = 0 }
            else touched)
        else record touched {
          lock_cid = cid;
          lock_expires_at = (host.tick + lock_seconds * 1000) % 2 ^ 32;
        } in
      sends locked (send_lock_response cid)

-- The command INIT outside of processing.
unfoldable pub handle_init_request : Host → ℕ → Packet → TransportState → Outcome
handle_init_request host cid packet state =
    let reply = λ (assigned_cid : ℕ) (state' : TransportState).
      sends (session_reset state')
        (handle_init cid assigned_cid (packet_payload packet) host.capabilities) in
    if init_is_malformed packet
    then sends state (send_error cid err_invalid_len)
    else if state.active && cid != state.cid
    then sends state (send_error cid err_channel_busy)
    else if cid == broadcast_cid
    then (let (allocated, state') = allocate_cid host state in
        elim allocated [
          | none ↦ sends state' (send_error cid err_other)
          | some assigned_cid ↦ reply assigned_cid state'
        ])
    else if not (cid_is_allocated state cid)
    then sends state (send_error cid err_invalid_channel)
    else reply cid (touch_cid host.tick cid state)

-- `none` where the code returns false.
unfoldable pub handle_init_command : Host → ℕ → Packet → TransportState → Option Outcome
handle_init_command host cid packet state =
    let cmd = packet_cmd packet in
    if cmd == cmd_cancel
    then some (handle_cancel cid (packet_msg_len packet) state)
    else if cmd == cmd_lock
    then some (handle_lock host cid packet state)
    else if cmd == cmd_init
    then some (handle_init_request host cid packet state)
    else if state.active
    then some (
        sends (if cid == state.cid then session_reset state else state)
          (send_busy_or_invalid_seq state cid))
    else none

unfoldable pub handle_init_packet : Host → Packet → TransportState → Outcome
handle_init_packet host packet state =
    let cid = packet_cid packet in
    let cmd = packet_cmd packet in
    if ltb (length packet) 7
    then sends state (
        send_error cid (
          if leb 5 (length packet) && is_busy_for_cid state cid
          then err_channel_busy
          else err_invalid_len))
    else if cmd != cmd_cancel && is_busy_for_cid state cid
    then sends state (send_error cid err_channel_busy)
    else elim (handle_init_command host cid packet state) [
      | some outcome ↦ outcome
      | none ↦ begin_packet host cid cmd (packet_msg_len packet) packet state
    ]

unfoldable pub handle_processing_packet : Host → Packet → TransportState → Outcome
handle_processing_packet host packet state =
    let cid = packet_cid packet in
    let cmd = packet_cmd packet in
    if ltb (length packet) 7
    then sends state (send_busy_or_invalid_len state cid)
    else if not (is_init_packet packet)
    then sends state (send_error cid err_invalid_seq)
    else if cmd == cmd_cancel
    then handle_init_packet host packet state
    else if cmd == cmd_init && cid == state.cid
    then (resync_processing host cid packet state).1
    else if cmd == cmd_init && cid == broadcast_cid
    then (recover_with_broadcast_init host packet state).1
    else sends state (send_busy_or_invalid_seq state cid)

unfoldable pub handle_idle_packet : Host → Packet → TransportState → Outcome
handle_idle_packet host packet state =
    if is_init_packet packet
    then handle_init_packet host packet state
    else handle_cont_packet host packet state

unfoldable pub handle_packet : Host → Packet → TransportState → Outcome
handle_packet host packet state =
    let cid = packet_cid packet in
    let current = refresh_lock host.tick state in
    if ltb (length packet) 5
    then sends state []
    else if lock_blocks current cid
    then sends current (send_error cid err_channel_busy)
    else if current.processing
    then handle_processing_packet host packet current
    else if not current.active && is_busy_for_cid current cid
    then sends current (send_error cid err_channel_busy)
    else handle_idle_packet host packet current

unfoldable pub expire_lock : TransportState → TransportState
expire_lock state = record state { lock_cid = 0; lock_expires_at = 0 }

unfoldable pub tick : ℕ → TransportState → TransportState × List Packet
unfolding expire_lock
tick now state =
    let timed_out = state.active && leb 3000 ((now + 2 ^ 32 - state.last_activity) % 2 ^ 32) in
    let state' = if timed_out then session_reset state else state in
    (
      if state'.lock_cid != 0 && state'.lock_expires_at != 0 && is_due now state'.lock_expires_at
          then expire_lock state'
          else state',
      if timed_out then send_error state.cid err_msg_timeout else [],
    )

-- What one call sends and hands over, and then what follows in the state that it leaves.
abbrev pub followed_by :
    Outcome
    → (TransportState → List Packet × List (Protocol × List ℕ))
    → List Packet × List (Protocol × List ℕ)
followed_by o next =
    let (sent, completed) = next o.state in
    (o.sent ++ sent, elim o.completed [ none ↦ completed | some message ↦ message ∷ completed ])

-- A sequence of packets, each with what the host supplies to its call: the reports that are sent and
-- the messages that are handed over, in order.
unfoldable pub deliver :
    (ℕ → Host) → List Packet → TransportState → List Packet × List (Protocol × List ℕ)
deliver hosts [] state = ([], [])
deliver hosts (packet ∷ packets) state =
    followed_by (handle_packet (hosts 0) packet state) (deliver (λ n. hosts (suc n)) packets)
