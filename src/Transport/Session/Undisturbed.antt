-- ===== src/Transport/Session/Undisturbed.antt =====
-- What other channels can do to the request that a session is busy with.
use zerofido.Base.{
  ℕ, ◌≤◌, ◌≡◌, ◌≢◌, ◌⊎◌, inl, inr, refl, ◌∙◌, true, false, not, ◌&&◌, none, ltb, ◌==◌,
  if◌then◌else◌, length, arith, if_both, if_cases, Bool-cases,
}
use zerofido.Transport.State.{
  TransportState, Host, Outcome, Packet, broadcast_cid, cmd_init, cmd_cancel, err_invalid_seq,
  packet_cid, session_reset, refresh_lock, lock_blocks, is_busy_for_cid,
}
use zerofido.Transport.Frames.{send_error}
use zerofido.Transport.Assembly.{handle_cont_packet}
use zerofido.Transport.Session.{
  packet_cmd, is_init_packet, packet_msg_len, handle_cancel, handle_init_command,
  handle_init_packet, handle_processing_packet, handle_idle_packet, handle_packet,
}

-- The session is as it was, no message is handed over, and nobody is asked to cancel.
pub record Undisturbed (state : TransportState) (o : Outcome) : Type 0 where
  pub same : o.state ≡ state
  pub no_cancel : o.cancels ≡ false
  pub nothing_completed : o.completed ≡ none

module _ (host : Host) (packet : Packet) (state : TransportState)
    (other : packet_cid packet ≢ state.cid) where
  cancel_Undisturbed :
      Undisturbed state (handle_cancel (packet_cid packet) (packet_msg_len packet) state)
  unfolding handle_cancel
  cancel_Undisturbed = record {
    same = ground arith;
    no_cancel = ground arith;
    nothing_completed = ground arith;
  }

  cancel_packet_Undisturbed :
      packet_cmd packet ≡ cmd_cancel → Undisturbed state (handle_init_packet host packet state)
  unfolding handle_init_packet handle_init_command
  cancel_packet_Undisturbed c = record {
    same = ground (arith, cancel_Undisturbed);
    no_cancel = ground (arith, cancel_Undisturbed);
    nothing_completed = ground (arith, cancel_Undisturbed);
  }

  processing_Undisturbed :
      (packet_cmd packet ≢ cmd_init) ⊎ (packet_cid packet ≢ broadcast_cid)
      → Undisturbed state (handle_processing_packet host packet state)
  unfolding handle_processing_packet
  processing_Undisturbed h =
      if_both (Undisturbed state) (ltb (length packet) 7)
        (record { same = refl; no_cancel = refl; nothing_completed = refl })
        (if_both (Undisturbed state) (not (is_init_packet packet))
          (record { same = refl; no_cancel = refl; nothing_completed = refl })
          (if_cases (Undisturbed state) (packet_cmd packet == cmd_cancel)
            (λ c. cancel_packet_Undisturbed (ground arith))
            (λ n. record {
              same = ground arith;
              no_cancel = ground arith;
              nothing_completed = ground arith;
            })))

refresh_lock-same :
    (now : ℕ) (state : TransportState)
    → ((refresh_lock now state).cid ≡ state.cid)
      × ((refresh_lock now state).processing ≡ state.processing)
      × ((refresh_lock now state).active ≡ state.active)
unfolding refresh_lock
refresh_lock-same now state = ground arith

-- While a request is processed, no packet of another channel changes the session, hands over a message
-- or cancels anything, unless it is an INIT on the broadcast channel. An expired lock is dropped
-- before the packet is looked at.
pub processing-Undisturbed :
    (host : Host) (packet : Packet) (state : TransportState)
    → 5 ≤ length packet
    → state.processing ≡ true
    → packet_cid packet ≢ state.cid
    → (packet_cmd packet ≢ cmd_init) ⊎ (packet_cid packet ≢ broadcast_cid)
    → Undisturbed (refresh_lock host.tick state) (handle_packet host packet state)
unfolding handle_packet
processing-Undisturbed host packet state long p other h =
    let current = refresh_lock host.tick state in
    let (same_cid, same_processing, _) = refresh_lock-same host.tick state in
    if_cases (Undisturbed current) (ltb (length packet) 5) (λ short. absurd (ground arith))
      (λ _.
        if_both (Undisturbed current) (lock_blocks current (packet_cid packet))
          (record { same = refl; no_cancel = refl; nothing_completed = refl })
          (if_cases (Undisturbed current) current.processing
            (λ _. processing_Undisturbed host packet current (λ e. other (e ∙ same_cid)) h)
            (λ idle. absurd (ground arith))))

-- What a packet of another channel does to a message that is being assembled: a packet that would
-- begin a message changes nothing, but a continuation packet ends the assembly.
abbrev pub OtherChannel : Packet → TransportState → Outcome → Type 0
OtherChannel packet current o =
    if is_init_packet packet
    then Undisturbed current o
    else ((o.state ≡ session_reset current)
        × (o.sent ≡ send_error (packet_cid packet) err_invalid_seq))

busy_packet_Undisturbed :
    (host : Host) (packet : Packet) (state : TransportState)
    → state.active ≡ true
    → packet_cid packet ≢ state.cid
    → (packet_cmd packet == cmd_cancel) ≡ false
    → Undisturbed state (handle_init_packet host packet state)
unfolding handle_init_packet
busy_packet_Undisturbed host packet state a other n = record {
  same = ground arith;
  no_cancel = ground arith;
  nothing_completed = ground arith;
}

init_packet_Undisturbed :
    (host : Host) (packet : Packet) (state : TransportState)
    → state.active ≡ true
    → packet_cid packet ≢ state.cid
    → Undisturbed state (handle_init_packet host packet state)
init_packet_Undisturbed host packet state a other =
    elim (Bool-cases (packet_cmd packet == cmd_cancel)) [
      | inl c ↦ cancel_packet_Undisturbed host packet state other (ground arith)
      | inr n ↦ busy_packet_Undisturbed host packet state a other n
    ]

cont_packet_resets :
    (host : Host) (packet : Packet) (state : TransportState)
    → state.active ≡ true
    → packet_cid packet ≢ state.cid
    → (handle_cont_packet host packet state).state ≡ session_reset state
unfolding handle_cont_packet
cont_packet_resets host packet state a other = ground arith

cont_packet_sends :
    (host : Host) (packet : Packet) (state : TransportState)
    → state.active ≡ true
    → packet_cid packet ≢ state.cid
    → (handle_cont_packet host packet state).sent ≡ send_error (packet_cid packet) err_invalid_seq
unfolding handle_cont_packet
cont_packet_sends host packet state a other = ground arith

idle-OtherChannel :
    (host : Host) (packet : Packet) (state : TransportState)
    → state.active ≡ true
    → packet_cid packet ≢ state.cid
    → OtherChannel packet state (handle_idle_packet host packet state)
unfolding handle_idle_packet
idle-OtherChannel host packet state a other = elim (Bool-cases (is_init_packet packet)) [
  | inl i ↦ rw i (init_packet_Undisturbed host packet state a other)
  | inr c ↦
      rw c
        (cont_packet_resets host packet state a other, cont_packet_sends host packet state a other)
]

-- While a message is assembled and no other channel holds the lock, a packet of another channel that
-- could begin a message changes nothing, an INIT on the broadcast channel included. But a continuation packet of another channel,
-- whatever its sequence number, is answered with INVALID_SEQ and throws the assembly away.
pub assembly-OtherChannel :
    (host : Host) (packet : Packet) (state : TransportState)
    → 5 ≤ length packet
    → state.processing ≡ false
    → state.active ≡ true
    → packet_cid packet ≢ state.cid
    → lock_blocks (refresh_lock host.tick state) (packet_cid packet) ≡ false
    → OtherChannel packet (refresh_lock host.tick state) (handle_packet host packet state)
unfolding handle_packet
assembly-OtherChannel host packet state long p a other unlocked =
    let current = refresh_lock host.tick state in
    let (same_cid, same_processing, same_active) = refresh_lock-same host.tick state in
    let other' : packet_cid packet ≢ current.cid = λ e. other (e ∙ same_cid) in
    let P = OtherChannel packet current in
    if_cases P (ltb (length packet) 5) (λ short. absurd (ground arith))
      (λ _.
        if_cases P (lock_blocks current (packet_cid packet)) (λ blocked. absurd (ground arith))
          (λ _.
            if_cases P current.processing (λ busy. absurd (ground arith))
              (λ _.
                if_cases P (not current.active && is_busy_for_cid current (packet_cid packet))
                  (λ never. absurd (ground arith))
                  (λ _. idle-OtherChannel host packet current (same_active ∙ a) other'))))
