-- ===== src/Transport/Assembly/RoundTrip.antt =====
-- A message that is cut into packets by the sender's side of the code is put together again by the
-- receiver's side.
use zerofido.Base.{
  ℕ, zero, suc, ◌+◌, ◌^◌, ◌<◌, ◌≤◌, ◌≡◌, ◌≢◌, ◌⊎◌, inl, inr, refl, sym, ap, subst, ◌∙◌, some, List,
  [], ◌∷◌, ◌++◌, length, take, drop, u8, arith, length-take, length-drop, append_assoc, append-nil,
  take-append-drop,
}
use native.Mathlib.Decide.{ℕ_discrete, dec_le}
use zerofido.Transport.State.{TransportState, Host, Protocol, Outcome, Packet, cmd_msg}
use zerofido.Transport.Frames.{cid_bytes, pad, continuation_frames}
use zerofido.Transport.Frames.Fields.{pad-IsContinuation}
use zerofido.Transport.Assembly.{
  sends, ensure_payload, try_send_u2f_validation_error, protocol_of, complete_message,
  complete_if_ready,
}
use zerofido.Transport.Session.{handle_packet, followed_by, deliver}
use zerofido.Transport.Assembly.Pieces.{Assembling, next_packet}

pub waits :
    (host : Host) {cid cmd : ℕ} {front rest : List ℕ} (state : TransportState)
    → Assembling cid cmd front rest state
    → 0 < length rest
    → complete_if_ready host state ≡ sends state []
unfolding complete_if_ready
waits host state a h = ground (arith, a.total, a.received)

-- The message is whole: it is handed over, and no report is sent.
pub HandsOver : Protocol → List ℕ → Outcome → Type 0
HandsOver protocol content o = (o.sent ≡ []) × (o.completed ≡ some (protocol, content))

pub completes :
    (host : Host) {cid cmd : ℕ} {content : List ℕ} (state : TransportState) (protocol : Protocol)
    → Assembling cid cmd content [] state
    → protocol_of cmd ≡ some protocol
    → cmd ≢ cmd_msg
    → HandsOver protocol content (complete_if_ready host state)
unfolding complete_if_ready complete_message try_send_u2f_validation_error ensure_payload HandsOver
completes host {content = content} state protocol a p m =
    let known : protocol_of state.cmd ≡ some protocol = ap protocol_of a.same_cmd ∙ p in
    let text : take state.total_len a.buffer ≡ content =
      ap (λ t. take t a.buffer) (omega (arith, a.total)) ∙ a.so_far in
    ground (arith, a.same_cmd, a.total, a.received, a.in_buffer, a.large)

pub deliver-waits :
    (hosts : ℕ → Host) (packet : Packet) (packets : List Packet) (state state' : TransportState)
    → handle_packet (hosts 0) packet state ≡ sends state' []
    → deliver hosts (packet ∷ packets) state ≡ deliver (λ n. hosts (suc n)) packets state'
unfolding deliver
deliver-waits hosts packet packets state state' e =
    ap (λ o. followed_by o (deliver (λ n. hosts (suc n)) packets)) e

pub deliver-last :
    (hosts : ℕ → Host) (packet : Packet) (state : TransportState) {protocol : Protocol}
    {content : List ℕ}
    → HandsOver protocol content (handle_packet (hosts 0) packet state)
    → deliver hosts (packet ∷ []) state ≡ ([], (protocol, content) ∷ [])
unfolding deliver HandsOver
deliver-last hosts packet state {protocol} {content} h =
    handed (handle_packet (hosts 0) packet state) h.0 h.1
  where
    handed :
        (o : Outcome)
        → o.sent ≡ []
        → o.completed ≡ some (protocol, content)
        → followed_by o (λ _. ([], [])) ≡ ([], (protocol, content) ∷ [])
    handed o p q = ground arith

last_or_full : (rest : List ℕ) → (length (drop 59 rest) ≡ 0) ⊎ (length (take 59 rest) ≡ 59)
last_or_full rest = elim (dec_le 59 (length rest)) [
  | yes h ↦ inr (omega (arith, length-take 59 rest))
  | no h ↦ inl (omega (arith, length-drop 59 rest))
]

pub continuation_frames-nil : (fuel cid seq : ℕ) → continuation_frames fuel cid seq [] ≡ []
unfolding continuation_frames
continuation_frames-nil zero cid seq = refl
continuation_frames-nil (suc fuel) cid seq = refl

pub no_more : (content : List ℕ) → length content ≡ 0 → content ≡ []
no_more [] e = refl
no_more (c ∷ content) e = cc

module _ (cid cmd : ℕ) (protocol : Protocol) (small : cid < 2 ^ 32)
    (known : protocol_of cmd ≡ some protocol) (no_msg : cmd ≢ cmd_msg) where
  -- The rest of a message, in continuation packets.
  pub rest_arrives :
      (fuel : ℕ) (hosts : ℕ → Host) (front rest : List ℕ) (state : TransportState)
      → Assembling cid cmd front rest state
      → 0 < length rest
      → length rest ≤ fuel
      → deliver hosts (continuation_frames fuel cid state.next_seq rest) state
        ≡ ([], (protocol, front ++ rest) ∷ [])
  unfolding continuation_frames
  rest_arrives fuel hosts front [] state a pos enough = absurd (omega arith)
  rest_arrives zero hosts front (b ∷ rest) state a pos enough = absurd (omega arith)
  rest_arrives (suc fuel) hosts front (b ∷ rest) state a pos enough =
      let chunk = take 59 (b ∷ rest) in
      let later = drop 59 (b ∷ rest) in
      let split : chunk ++ later ≡ b ∷ rest = take-append-drop 59 (b ∷ rest) in
      let chunk_len = length-take 59 (b ∷ rest) in
      let later_len = length-drop 59 (b ∷ rest) in
      let packet = pad (cid_bytes cid ++ state.next_seq ∷ chunk) in
      let (state', a', seq, eq) =
        next_packet (hosts 0) chunk {rest = later} packet state
          (subst (λ r. Assembling cid cmd front r state) (sym split) a) (omega arith)
          (pad-IsContinuation cid state.next_seq chunk small (omega arith))
          (last_or_full (b ∷ rest)) in
      elim (ℕ_discrete (length later) 0) [
        | yes z ↦
            let empty = no_more later z in
            let all : chunk ≡ b ∷ rest =
              sym (append-nil chunk) ∙ ap (λ t. chunk ++ t) (sym empty) ∙ split in
            let whole = subst (λ r. Assembling cid cmd (front ++ chunk) r state') empty a' in
            ap
              (λ l.
                deliver hosts (packet ∷ continuation_frames fuel cid (u8 (state.next_seq + 1)) l)
                  state)
              empty
            ∙ ap (λ l. deliver hosts (packet ∷ l) state)
                (continuation_frames-nil fuel cid (u8 (state.next_seq + 1)))
            ∙ deliver-last hosts packet state
                (rw eq (completes (hosts 0) state' protocol whole known no_msg))
            ∙ ap (λ t. ([], (protocol, front ++ t) ∷ [])) all
        | no nz ↦
            deliver-waits hosts packet _ state state' (eq ∙ waits (hosts 0) state' a' (omega arith))
            ∙ ap (λ q. deliver (λ n. hosts (suc n)) (continuation_frames fuel cid q later) state')
                (sym seq)
            ∙ rest_arrives fuel (λ n. hosts (suc n)) (front ++ chunk) later state' a' (omega arith)
                (omega arith)
            ∙ ap (λ t. ([], (protocol, t) ∷ []))
                (append_assoc front chunk later ∙ ap (λ t. front ++ t) split)
      ]
