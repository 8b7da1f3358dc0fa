-- ===== src/Transport/Assembly/Whole.antt =====
-- A message as a whole, from its first packet on.
use zerofido.Base.{
  ℕ, suc, ◌+◌, ◌/◌, ◌^◌, ◌<◌, ◌≤◌, ◌≡◌, ◌≢◌, ◌⊎◌, inr, refl, sym, ap, subst, ◌∙◌, true, some, List,
  [], ◌∷◌, ◌++◌, length, take, drop, u8, arith, length-append, length-take, length-drop, append-nil,
  take-append-drop, length-replicate,
}
use native.Mathlib.Decide.{ℕ_discrete}
use zerofido.Transport.State.{TransportState, Host, Protocol, Packet, cmd_msg, refresh_lock}
use zerofido.Transport.Frames.{cid_bytes, pad, continuation_frames, send_frames}
use zerofido.Transport.Frames.Fields.{IsInitial, pad-IsInitial, padding}
use zerofido.Transport.Cids.{touch_cid}
use zerofido.Transport.Assembly.{
  protocol_of, complete_if_ready, command_length_is_valid, copy_payload,
}
use zerofido.Base.Memory.{write_at, take-write_at, length-write_at}
use zerofido.Transport.Assembly.Pieces.{Assembling, copy_payload-content}
use zerofido.Transport.Assembly.RoundTrip.{
  waits, completes, deliver-waits, deliver-last, rest_arrives, continuation_frames-nil, no_more,
}
use zerofido.Transport.Session.{handle_packet, packet_cmd, packet_msg_len, deliver}
use zerofido.Transport.Assembly.Begin.{
  IsReady, refresh_lock-IsReady, touch_cid-payload, IsMessage, reaches_begin, begun,
  session_reset-payload, session_reset-fields, begins,
}

started :
    (host : Host) (cid cmd spare : ℕ) (chunk rest : List ℕ) (state : TransportState)
    {buffer : List ℕ}
    → state.payload ≡ some buffer
    → 1024 ≤ length buffer
    → (state.lock_cid ≡ 0) ⊎ (state.lock_cid ≡ cid)
    → 0 < length chunk
    → length chunk + length rest ≤ 1024
    → (length rest ≡ 0) ⊎ (spare ≡ 0)
    → Assembling cid cmd chunk rest (
        copy_payload 0
          (chunk ++ padding spare)
          (begun host cid cmd (length chunk + length rest) state))
started host cid cmd spare chunk rest state p l lock pos small room =
    let (wiped, in_buffer, large) = session_reset-payload state p l in
    let (idle, received, same_lock) = session_reset-fields state in
    let padded = length-append chunk (padding spare) in
    let zeros = length-replicate {A = ℕ} spare 0 in
    rw
      (copy_payload-content 0 spare chunk (begun host cid cmd (length chunk + length rest) state)
        in_buffer (ground arith) pos)
      (record {
        idle = idle;
        busy = refl;
        same_cid = refl;
        same_cmd = refl;
        total = refl;
        received = omega arith;
        room = inr (omega arith);
        unlocked = rw same_lock lock;
        buffer = write_at 0 chunk wiped;
        in_buffer = refl;
        large = omega (arith, large, small, length-write_at 0 chunk wiped);
        so_far =
            ap (λ t. take t (write_at 0 chunk wiped)) (omega arith)
            ∙ take-write_at 0 chunk wiped [] refl (omega arith);
        short = small;
      })

-- The frames of a message.
frames_split :
    (cid cmd : ℕ) (content : List ℕ)
    → send_frames cid cmd content
      ≡ pad (
          cid_bytes cid
          ++ cmd ∷ u8 (length content / 2 ^ 8) ∷ u8 (length content) ∷ take 57 content)
        ∷ continuation_frames (length content) cid 0 (drop 57 content)
unfolding send_frames
frames_split cid cmd content = refl

copy_payload-seq :
    (offset : ℕ) (content : List ℕ) (state : TransportState)
    → (copy_payload offset content state).next_seq ≡ state.next_seq
unfolding copy_payload
copy_payload-seq offset content state = ground arith

first_packet :
    (host : Host) {cid cmd : ℕ} {protocol : Protocol} (content : List ℕ) (packet : Packet)
    (state : TransportState)
    → IsReady cid state
    → protocol_of cmd ≡ some protocol
    → command_length_is_valid cmd (length content) ≡ true
    → 0 < length content
    → length content ≤ 1024
    → IsInitial cid cmd (length content) (take 57 content) packet
    → (state' : TransportState) × Assembling cid cmd (take 57 content) (drop 57 content) state'
      × (state'.next_seq ≡ 0)
      × (handle_packet host packet state ≡ complete_if_ready host state')
unfolding protocol_of
first_packet host {cid} {cmd} content packet state r known valid pos short p =
    let current = refresh_lock host.tick state in
    let cr = refresh_lock-IsReady host.tick state r in
    let touched = touch_cid host.tick cid current in
    let same = touch_cid-payload host.tick cid current in
    let taken = length-take 57 content in
    let left = length-drop 57 content in
    let sum : length content ≡ length (take 57 content) + length (drop 57 content) = omega arith in
    let message_cmd : IsMessage (packet_cmd packet) (packet_msg_len packet) =
      rw (p.has_cmd, p.has_total)
        (record {
          is_cmd = ground arith;
          no_cancel = ground arith;
          no_lock = ground arith;
          no_init = ground arith;
          right_length = valid;
        }) in
    (
      copy_payload 0 (take 57 content ++ padding p.spare)
          (begun host cid cmd (length content) touched),
      subst
          (λ n.
            Assembling cid cmd (take 57 content) (drop 57 content)
              (copy_payload 0 (take 57 content ++ padding p.spare) (begun host cid cmd n touched)))
          (sym sum)
          (started host cid cmd p.spare (take 57 content) (drop 57 content) touched
            (same.0 ∙ cr.in_buffer) cr.large (rw (same.1) cr.unlocked) (omega arith) (omega arith)
            (ground (arith, p.room))),
      copy_payload-seq 0 _ (begun host cid cmd (length content) touched),
      reaches_begin host packet state r message_cmd p
          ∙ rw (p.has_cmd, p.has_total)
              (begins host cid cmd (length content) packet current cr short valid
                ∙ ap
                    (λ t.
                      complete_if_ready host
                        (copy_payload 0 t (begun host cid cmd (length content) touched)))
                    p.carries),
    )

-- A message of 1 to 1024 bytes for PING or CBOR, cut into packets by
-- `zf_transport_session_send_frames` and delivered to a session in which its channel is allocated, that
-- is idle, has its arena and is not locked by another channel: it is handed over once, complete and
-- unchanged, and nothing is reported to the sender. The ticks and random numbers do not matter.
pub message_arrives :
    (hosts : ℕ → Host) (cid cmd : ℕ) (protocol : Protocol) (content : List ℕ)
    (state : TransportState)
    → cid < 2 ^ 32
    → protocol_of cmd ≡ some protocol
    → cmd ≢ cmd_msg
    → command_length_is_valid cmd (length content) ≡ true
    → 0 < length content
    → length content ≤ 1024
    → IsReady cid state
    → deliver hosts (send_frames cid cmd content) state ≡ ([], (protocol, content) ∷ [])
message_arrives hosts cid cmd protocol content state small known no_msg valid pos short r =
    let taken = length-take 57 content in
    let left = length-drop 57 content in
    let split : take 57 content ++ drop 57 content ≡ content = take-append-drop 57 content in
    let packet : Packet = pad (
      cid_bytes cid ++ cmd ∷ u8 (length content / 2 ^ 8) ∷ u8 (length content) ∷ take 57 content) in
    let (state', a, seq, eq) = first_packet (hosts 0) content packet state r known valid pos short (
      pad-IsInitial cid cmd (length content) (take 57 content) small (omega arith) (omega arith)) in
    ap (λ frames. deliver hosts frames state) (frames_split cid cmd content)
    ∙ elim (ℕ_discrete (length (drop 57 content)) 0) [
      | yes z ↦
          let empty = no_more (drop 57 content) z in
          let all : take 57 content ≡ content =
            sym (append-nil (take 57 content))
            ∙ ap (λ t. take 57 content ++ t) (sym empty)
            ∙ split in
          let whole = subst (λ r. Assembling cid cmd (take 57 content) r state') empty a in
          ap (λ l. deliver hosts (packet ∷ l) state)
            (ap (λ l. continuation_frames (length content) cid 0 l) empty
              ∙ continuation_frames-nil (length content) cid 0)
          ∙ deliver-last hosts packet state
              (rw eq (completes (hosts 0) state' protocol whole known no_msg))
          ∙ ap (λ t. ([], (protocol, t) ∷ [])) all
      | no nz ↦
          deliver-waits hosts packet _ state state' (eq ∙ waits (hosts 0) state' a (omega arith))
          ∙ ap
              (λ q.
                deliver (λ n. hosts (suc n))
                  (continuation_frames (length content) cid q (drop 57 content)) state')
              (sym seq)
          ∙ rest_arrives cid cmd protocol small known no_msg (length content) (λ n. hosts (suc n))
              (take 57 content) (drop 57 content) state' a (omega arith) (omega arith)
          ∙ ap (λ t. ([], (protocol, t) ∷ [])) split
    ]
