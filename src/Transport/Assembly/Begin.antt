-- ===== src/Transport/Assembly/Begin.antt =====
-- The first packet of a message, up to the state in which the message has begun.
use zerofido.Base.{
  ℕ, ◌/◌, ◌%◌, ◌≤◌, ◌≡◌, ◌≢◌, ◌⊎◌, refl, ap, ◌∙◌, true, false, not, ◌&&◌, none, some, List, [], ltb,
  ◌==◌, ◌!=◌, length, drop, min, arith, if_false, if_true,
}
use Prim.Native.Nat.{max}
use zerofido.Transport.State.{
  TransportState, Host, Packet, cmd_cancel, cmd_lock, cmd_init, packet_cid, refresh_lock,
  lock_blocks, is_busy_for_cid, session_reset, wipe,
}
use zerofido.Transport.Frames.Fields.{IsInitial}
use zerofido.Transport.Cids.{cid_is_allocated, touch_cid}
use zerofido.Transport.Assembly.{
  ensure_payload, complete_if_ready, command_length_is_valid, begin_message, copy_payload,
  copy_init_payload, begin_packet,
}
use zerofido.Transport.Assembly.Pieces.{unblocked}
use zerofido.Transport.Session.{
  handle_init_command, handle_init_packet, handle_packet, handle_idle_packet, is_init_packet,
  packet_cmd, packet_msg_len,
}
use zerofido.Transport.Session.Valid.{length-wipe}

-- A session that takes a new message: on channel `cid`, with its arena and without a request.
pub record IsReady (cid : ℕ) (state : TransportState) : Type 0 where
  pub idle : state.processing ≡ false
  pub inactive : state.active ≡ false
  pub allocated : cid_is_allocated state cid ≡ true
  pub unlocked : (state.lock_cid ≡ 0) ⊎ (state.lock_cid ≡ cid)
  pub buffer : List ℕ
  pub in_buffer : state.payload ≡ some buffer
  pub large : 1024 ≤ length buffer

pub refresh_lock-IsReady :
    (now : ℕ) {cid : ℕ} (state : TransportState)
    → IsReady cid state
    → IsReady cid (refresh_lock now state)
unfolding refresh_lock cid_is_allocated
refresh_lock-IsReady now state r = record {
  idle = ground (arith, r.idle);
  inactive = ground (arith, r.inactive);
  allocated = ground (arith, r.allocated);
  unlocked = ground (arith, r.unlocked);
  buffer = r.buffer;
  in_buffer = ground (arith, r.in_buffer);
  large = r.large;
}

pub touch_cid-payload :
    (now c : ℕ) (state : TransportState)
    → ((touch_cid now c state).payload ≡ state.payload)
      × ((touch_cid now c state).lock_cid ≡ state.lock_cid)
unfolding touch_cid
touch_cid-payload now c state = ground arith

-- A command of a message, as opposed to the commands that are served at once.
pub record IsMessage (cmd size : ℕ) : Type 0 where
  pub is_cmd : cmd / 128 % 2 ≡ 1
  pub no_cancel : cmd ≢ cmd_cancel
  pub no_lock : cmd ≢ cmd_lock
  pub no_init : cmd ≢ cmd_init
  pub right_length : command_length_is_valid cmd size ≡ true

pub no_init_command :
    (host : Host) (cid : ℕ) (packet : Packet) (state : TransportState)
    → state.active ≡ false
    → IsMessage (packet_cmd packet) (packet_msg_len packet)
    → handle_init_command host cid packet state ≡ none
unfolding handle_init_command
no_init_command host cid packet state i m =
    if_false _ (packet_cmd packet == cmd_cancel) (ground (arith, m.no_cancel)) (
      if_false _ (packet_cmd packet == cmd_lock) (ground (arith, m.no_lock)) (
        if_false _ (packet_cmd packet == cmd_init) (ground (arith, m.no_init))
          (if_false _ state.active i refl)))

pub reaches_begin :
    (host : Host) {cid size : ℕ} {cmd : ℕ} {chunk : List ℕ} (packet : Packet)
    (state : TransportState)
    → IsReady cid state
    → IsMessage (packet_cmd packet) (packet_msg_len packet)
    → IsInitial cid cmd size chunk packet
    → handle_packet host packet state
      ≡ begin_packet host cid
          (packet_cmd packet)
          (packet_msg_len packet)
          packet
          (refresh_lock host.tick state)
unfolding handle_packet handle_idle_packet handle_init_packet
reaches_begin host {cid = cid} packet state ready m p =
    let current = refresh_lock host.tick state in
    let r = refresh_lock-IsReady host.tick state ready in
    let free = unblocked cid current r.unlocked in
    if_false _ (ltb (length packet) 5) (ground (arith, p.size)) (
      if_false _ (lock_blocks current (packet_cid packet)) (rw p.for_cid free) (
        if_false _ current.processing r.idle (
          if_false _ (not current.active && is_busy_for_cid current (packet_cid packet))
            (ground (arith, r.inactive))
            (if_true _ (is_init_packet packet) (ground (arith, m.is_cmd)) (
              if_false _ (ltb (length packet) 7) (ground (arith, p.size)) (
                if_false _
                  (packet_cmd packet != cmd_cancel && is_busy_for_cid current (packet_cid packet))
                  (ground (arith, r.inactive))
                  (rw (no_init_command host (packet_cid packet) packet current r.inactive m) (
                    ap
                      (λ c.
                        begin_packet host c (packet_cmd packet) (packet_msg_len packet) packet
                          current)
                      p.for_cid))))))))

-- The state in which a message of `size` bytes has begun.
abbrev pub begun : Host → ℕ → ℕ → ℕ → TransportState → TransportState
begun host cid cmd size state = record (session_reset state) {
  active = true;
  cid = cid;
  cmd = cmd;
  total_len = size;
  next_seq = 0;
  last_activity = host.tick;
}

pub begin_message-begun :
    (host : Host) (cid cmd size : ℕ) (state : TransportState) {buffer : List ℕ}
    → state.payload ≡ some buffer
    → 1024 ≤ length buffer
    → size ≤ 1024
    → command_length_is_valid cmd size ≡ true
    → begin_message host cid cmd size state ≡ (true, begun host cid cmd size state, [])
unfolding begin_message
begin_message-begun host cid cmd size state p l s v = ground arith

pub ensure_payload-ready :
    (host : Host) (state : TransportState) {buffer : List ℕ}
    → state.payload ≡ some buffer
    → 1024 ≤ length buffer
    → ensure_payload host state ≡ (true, state)
unfolding ensure_payload
ensure_payload-ready host state p l = ground arith

pub session_reset-payload :
    (state : TransportState) {buffer : List ℕ}
    → state.payload ≡ some buffer
    → 1024 ≤ length buffer
    → (wiped : List ℕ) × ((session_reset state).payload ≡ some wiped) × (1024 ≤ length wiped)
unfolding session_reset
session_reset-payload state {buffer} p l =
    let most = max state.total_len state.received_len in
    let used = min most (length buffer) in
    (wipe used buffer, ground arith, omega (arith, length-wipe used buffer (omega arith)))

pub session_reset-fields :
    (state : TransportState)
    → ((session_reset state).processing ≡ false)
      × ((session_reset state).received_len ≡ 0)
      × ((session_reset state).lock_cid ≡ state.lock_cid)
unfolding session_reset
session_reset-fields state = (refl, refl, refl)

pub begins :
    (host : Host) (cid cmd size : ℕ) (packet : Packet) (state : TransportState)
    → IsReady cid state
    → size ≤ 1024
    → command_length_is_valid cmd size ≡ true
    → begin_packet host cid cmd size packet state
      ≡ complete_if_ready host
          (copy_payload 0 (drop 7 packet) (begun host cid cmd size (touch_cid host.tick cid state)))
unfolding begin_packet copy_init_payload
begins host cid cmd size packet state r s v =
    let touched = touch_cid host.tick cid state in
    let same = touch_cid-payload host.tick cid state in
    let payload = same.0 ∙ r.in_buffer in
    if_false _ (not (cid_is_allocated state cid)) (ground (arith, r.allocated)) (
      rw
        (
          ensure_payload-ready host touched payload r.large,
          begin_message-begun host cid cmd size touched payload r.large s v,
        )
        refl)
