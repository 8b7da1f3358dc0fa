-- ===== src/Transport/Session/Invariant.antt =====
-- No packet breaks the invariant of a session, and none that comes while a request is processed or a
-- lock is held by another channel disturbs what goes on.
use zerofido.Base.{
  ℕ, inl, inr, not, ◌&&◌, Option, none, some, List, [], ◌∷◌, ltb, ◌==◌, ◌!=◌, length, arith,
  if_both, Option-cases,
}
use zerofido.Transport.State.{
  TransportState, Host, Outcome, Packet, broadcast_cid, cmd_lock, cmd_init, cmd_cancel, packet_cid,
  refresh_lock, lock_blocks, is_busy_for_cid,
}
use zerofido.Transport.Cids.{cid_is_allocated, touch_cid, allocate_cid}
use zerofido.Transport.Session.{
  packet_cmd, is_init_packet, packet_msg_len, init_is_malformed, resync_processing,
  recover_with_broadcast_init, handle_processing_control, handle_cancel, handle_lock,
  handle_init_request, handle_init_command, handle_init_packet, handle_processing_packet,
  handle_idle_packet, handle_packet, expire_lock, tick,
}
use zerofido.Transport.Session.Valid.{
  Fits, IsValid, Lands, session_reset-IsValid, touch_cid-IsValid, refresh_lock-IsValid,
  allocate_cid-IsValid, handle_cont_packet-IsValid, begin_packet-IsValid,
}

module _ (host : Host) where
  resync-IsValid :
      (cid : ℕ) (packet : Packet) (state : TransportState)
      → IsValid state
      → Lands (resync_processing host cid packet state).1
  unfolding resync_processing touch_cid Fits
  resync-IsValid cid packet state v = ground (arith, touch_cid-IsValid host.tick cid state v)

  recover-IsValid :
      (packet : Packet) (state : TransportState)
      → IsValid state
      → Lands (recover_with_broadcast_init host packet state).1
  unfolding recover_with_broadcast_init Fits
  recover-IsValid packet state v = elim (Option-cases (allocate_cid host state).0) [
    | inl f ↦ ground (arith, allocate_cid-IsValid host state v)
    | inr (cid, f) ↦ ground (arith, allocate_cid-IsValid host state v)
  ]

  control-IsValid :
      (packet : Packet) (state : TransportState)
      → IsValid state
      → Lands (handle_processing_control host packet state).1
  unfolding handle_processing_control Fits
  control-IsValid packet state v =
      ground
        (arith, resync-IsValid (packet_cid packet) packet state v, recover-IsValid packet state v)

  cancel-IsValid :
      (cid msg_len : ℕ) (state : TransportState)
      → IsValid state
      → Lands (handle_cancel cid msg_len state)
  unfolding handle_cancel Fits
  cancel-IsValid cid msg_len state v = ground arith

  lock-IsValid :
      (cid : ℕ) (packet : Packet) (state : TransportState)
      → IsValid state
      → Lands (handle_lock host cid packet state)
  unfolding handle_lock Fits
  lock-IsValid cid packet state v = ground (arith, touch_cid-IsValid host.tick cid state v)

  init-IsValid :
      (cid : ℕ) (packet : Packet) (state : TransportState)
      → IsValid state
      → Lands (handle_init_request host cid packet state)
  unfolding handle_init_request
  init-IsValid cid packet state v =
      let allocated = allocate_cid-IsValid host state v in
      let touched = touch_cid-IsValid host.tick cid state v in
      if_both Lands (init_is_malformed packet) v (
        if_both Lands (state.active && cid != state.cid) v (
          if_both Lands (cid == broadcast_cid)
            (elim (Option-cases (allocate_cid host state).0) [
              | inl f ↦ rw f allocated
              | inr (assigned, f) ↦ rw f (session_reset-IsValid _ allocated.table)
            ])
            (if_both Lands (not (cid_is_allocated state cid)) v
              (session_reset-IsValid _ touched.table))))

  LandsIfAny : Option Outcome → Type 0
  LandsIfAny none = Unit
  LandsIfAny (some outcome) = Lands outcome

  command-IsValid :
      (cid : ℕ) (packet : Packet) (state : TransportState)
      → IsValid state
      → LandsIfAny (handle_init_command host cid packet state)
  unfolding handle_init_command LandsIfAny
  command-IsValid cid packet state v =
      if_both LandsIfAny (packet_cmd packet == cmd_cancel)
        (cancel-IsValid cid (packet_msg_len packet) state v)
        (if_both LandsIfAny (packet_cmd packet == cmd_lock) (lock-IsValid cid packet state v) (
          if_both LandsIfAny (packet_cmd packet == cmd_init) (init-IsValid cid packet state v) (
            if_both LandsIfAny state.active
              (if_both IsValid (cid == state.cid) (session_reset-IsValid state v.table) v) tt)))

  init_packet-IsValid :
      (packet : Packet) (state : TransportState)
      → IsValid state
      → Lands (handle_init_packet host packet state)
  unfolding handle_init_packet LandsIfAny
  init_packet-IsValid packet state v =
      let cid = packet_cid packet in
      let command = command-IsValid cid packet state v in
      if_both Lands (ltb (length packet) 7) v (
        if_both Lands (packet_cmd packet != cmd_cancel && is_busy_for_cid state cid) v
          (elim (Option-cases (handle_init_command host cid packet state)) [
            | inl f ↦ rw f (
                begin_packet-IsValid host cid (packet_cmd packet) (packet_msg_len packet) packet
                  state v)
            | inr (outcome, f) ↦ rw f (rw f at command)
          ]))

  processing_packet-IsValid :
      (packet : Packet) (state : TransportState)
      → IsValid state
      → Lands (handle_processing_packet host packet state)
  unfolding handle_processing_packet
  processing_packet-IsValid packet state v = if_both Lands (ltb (length packet) 7) v (
      if_both Lands (not (is_init_packet packet)) v (
        if_both Lands (packet_cmd packet == cmd_cancel) (init_packet-IsValid packet state v) (
          if_both Lands (packet_cmd packet == cmd_init && packet_cid packet == state.cid)
            (resync-IsValid (packet_cid packet) packet state v)
            (if_both Lands (packet_cmd packet == cmd_init && packet_cid packet == broadcast_cid)
              (recover-IsValid packet state v) v))))

  handle_packet-IsValid :
      (packet : Packet) (state : TransportState)
      → IsValid state
      → Lands (handle_packet host packet state)
  unfolding handle_packet handle_idle_packet
  handle_packet-IsValid packet state v =
      let current = refresh_lock host.tick state in
      let cv = refresh_lock-IsValid host.tick state v in
      if_both Lands (ltb (length packet) 5) v (
        if_both Lands (lock_blocks current (packet_cid packet)) cv (
          if_both Lands current.processing (processing_packet-IsValid packet current cv) (
            if_both Lands (not current.active && is_busy_for_cid current (packet_cid packet)) cv (
              if_both Lands (is_init_packet packet) (init_packet-IsValid packet current cv)
                (handle_cont_packet-IsValid host packet current cv)))))

tick-IsValid : (now : ℕ) (state : TransportState) → IsValid state → IsValid (tick now state).0
unfolding tick expire_lock Fits
tick-IsValid now state v = ground (arith, session_reset-IsValid state v.table)

-- What happens to a session, one call at a time, in any order.
pub data Event : Type 0 where
  received : Host → Packet → Event
  polled : Host → Packet → Event
  ticked : ℕ → Event

abbrev pub after : Event → TransportState → TransportState
after (received host packet) state = (handle_packet host packet state).state
after (polled host packet) state = (handle_processing_control host packet state).1.state
after (ticked now) state = (tick now state).0

abbrev pub run : List Event → TransportState → TransportState
run [] state = state
run (event ∷ events) state = run events (after event state)

-- Whatever packets arrive, while a request is processed or not, and whenever the tick handler runs:
-- a message that is being assembled is incomplete and fits in the buffer, so nothing is written past
-- its end, and the table of channels holds at most 32 different channels, none of them reserved.
pub run-IsValid :
    (events : List Event) (state : TransportState) → IsValid state → IsValid (run events state)
run-IsValid [] state v = v
run-IsValid (received host packet ∷ events) state v =
    run-IsValid events _ (handle_packet-IsValid host packet state v)
run-IsValid (polled host packet ∷ events) state v =
    run-IsValid events _ (control-IsValid host packet state v)
run-IsValid (ticked now ∷ events) state v = run-IsValid events _ (tick-IsValid now state v)
