-- ===== src/Transport/Session/Valid.antt =====
-- The invariant of a CTAPHID session: what is assembled fits in the buffer, and the table of channels
-- is in order.
use zerofido.Base.Memory.{length-write_at}
use zerofido.Base.{
  ℕ, ◌-◌, ◌<◌, ◌≤◌, ◌≡◌, ◌⊎◌, inl, inr, refl, ◌∙◌, true, false, not, ◌||◌, List, ◌!=◌, length, take,
  drop, min, arith, length-append, length-take, length-drop, length-replicate, if_both, if_cases,
  replicate, Bool-cases, Option-cases, get_or,
}
use Prim.Native.Nat.{max}
use zerofido.Transport.State.{
  TransportState, Host, Outcome, Packet, packet_cid, wipe, payload_capacity, session_reset,
  refresh_lock,
}
use zerofido.Transport.Cids.{cid_is_allocated, touch_cid, allocate_cid}
use zerofido.Transport.Cids.Table.{IsTable, touch_entry-IsTable}
use zerofido.Transport.Cids.Allocate.{Leaves, allocate_cid-Leaves, allocate_cid-IsTable}
use zerofido.Transport.Assembly.{
  ensure_payload, try_send_u2f_validation_error, complete_message, complete_if_ready, begin_message,
  copy_payload, copy_init_payload, copy_continuation_payload, begin_packet, handle_cont_packet,
}

-- A message that is being assembled is not complete yet and fits in the buffer.
unfoldable pub Fits : TransportState → Type 0
Fits state =
    (state.active ≡ false)
    ⊎ ((state.received_len < state.total_len) × (state.total_len ≤ payload_capacity state))

pub record IsValid (state : TransportState) : Type 0 where
  pub fits : Fits state
  pub table : IsTable state.allocated_cids

pub session_reset-IsValid :
    (state : TransportState) → IsTable state.allocated_cids → IsValid (session_reset state)
unfolding session_reset Fits
session_reset-IsValid state t = record { fits = inl refl; table = t }

pub touch_cid-IsValid :
    (now cid : ℕ) (state : TransportState) → IsValid state → IsValid (touch_cid now cid state)
unfolding touch_cid Fits
touch_cid-IsValid now cid state v = ground (arith, touch_entry-IsTable cid now v.table)

pub refresh_lock-IsValid :
    (now : ℕ) (state : TransportState) → IsValid state → IsValid (refresh_lock now state)
unfolding refresh_lock Fits
refresh_lock-IsValid now state v = ground arith

pub Leaves-Fits : {before after : TransportState} → Leaves before after → Fits before → Fits after
unfolding Fits
Leaves-Fits {before} {after} l f = ground arith

pub allocate_cid-IsValid :
    (host : Host) (state : TransportState) → IsValid state → IsValid (allocate_cid host state).1
allocate_cid-IsValid host state v = record {
  fits = Leaves-Fits (allocate_cid-Leaves host state) v.fits;
  table = allocate_cid-IsTable host state v.table;
}

-- What was received so far, the whole message included.
unfoldable Filled : TransportState → Type 0
Filled state = (state.received_len ≤ state.total_len) × (state.total_len ≤ payload_capacity state)

copy_payload-Filled :
    (offset : ℕ) (content : List ℕ) (state : TransportState)
    → state.received_len ≡ offset
    → Filled state
    → Filled (copy_payload offset content state)
unfolding copy_payload Filled
copy_payload-Filled offset content state same f = elim (Option-cases state.payload) [
  | inl n ↦ ground arith
  | inr (payload, p) ↦
      let chunk = min (length content) (state.total_len - offset) in
      let size = length-take chunk content in
      let whole = length-write_at offset (take chunk content) payload in ground arith
]

copy_payload-allocated :
    (offset : ℕ) (content : List ℕ) (state : TransportState)
    → (copy_payload offset content state).allocated_cids ≡ state.allocated_cids
unfolding copy_payload
copy_payload-allocated offset content state = ground arith

-- A state without a message, with the table in order.
abbrev Rests : TransportState → Type 0
Rests state = (state.active ≡ false) × IsTable state.allocated_cids

Rests-IsValid : {state : TransportState} → Rests state → IsValid state
unfolding Fits
Rests-IsValid r = record { fits = inl r.0; table = r.1 }

ensure_payload-Rests :
    (host : Host) (state : TransportState) → Rests state → Rests (ensure_payload host state).1
unfolding ensure_payload
ensure_payload-Rests host state r = ground arith

complete_message-Rests :
    (host : Host) (state : TransportState) → Rests state → Rests (complete_message host state).state
unfolding complete_message try_send_u2f_validation_error session_reset
complete_message-Rests host state r = ground (arith, ensure_payload-Rests host state r)

complete_if_ready-IsValid :
    (host : Host) (state : TransportState)
    → Filled state
    → IsTable state.allocated_cids
    → IsValid (complete_if_ready host state).state
unfolding complete_if_ready Filled Fits
complete_if_ready-IsValid host state f t =
    elim (Bool-cases (state.received_len != state.total_len)) [
      | inl m ↦ rw m (record { fits = inr (ground arith); table = t })
      | inr d ↦
          rw d (
            Rests-IsValid (complete_message-Rests host (record state { active = false }) (refl, t)))
    ]

-- Copying into a message that is begun, and handing it over if it is whole.
advance-IsValid :
    (host : Host) (offset : ℕ) (content : List ℕ) (state : TransportState)
    → state.received_len ≡ offset
    → Filled state
    → IsTable state.allocated_cids
    → IsValid (complete_if_ready host (copy_payload offset content state)).state
advance-IsValid host offset content state same f t =
    complete_if_ready-IsValid host (copy_payload offset content state)
      (copy_payload-Filled offset content state same f)
      (rw (copy_payload-allocated offset content state) t)

touch_cid-active :
    (now cid : ℕ) (state : TransportState) → (touch_cid now cid state).active ≡ state.active
unfolding touch_cid
touch_cid-active now cid state = ground arith

active-Filled :
    (state : TransportState) (seq now : ℕ)
    → state.active ≡ true
    → Fits state
    → Filled (record state { next_seq = seq; last_activity = now })
unfolding Fits Filled
active-Filled state seq now a f = ground arith

abbrev pub Lands : Outcome → Type 0
Lands o = IsValid o.state

pub handle_cont_packet-IsValid :
    (host : Host) (packet : Packet) (state : TransportState)
    → IsValid state
    → IsValid (handle_cont_packet host packet state).state
unfolding handle_cont_packet copy_continuation_payload
handle_cont_packet-IsValid host packet state v =
    let touched = touch_cid host.tick (packet_cid packet) state in
    let tv = touch_cid-IsValid host.tick (packet_cid packet) state v in
    if_cases Lands (not state.active) (λ idle. v)
      (λ busy.
        if_both Lands (get_or packet 4 0 != state.next_seq || packet_cid packet != state.cid)
          (session_reset-IsValid state v.table)
          (advance-IsValid host touched.received_len (drop 5 packet) _ refl
            (active-Filled touched _ host.tick
              (touch_cid-active host.tick (packet_cid packet) state ∙ ground arith) tv.fits)
            tv.table))

ensure_payload-IsValid :
    (host : Host) (state : TransportState)
    → IsTable state.allocated_cids
    → IsTable (ensure_payload host state).1.allocated_cids
unfolding ensure_payload
ensure_payload-IsValid host state t = ground arith

pub length-wipe :
    (used : ℕ) (payload : List ℕ)
    → used ≤ length payload
    → length (wipe used payload) ≡ length payload
length-wipe used payload h = omega (
  arith,
  length-append (replicate used 0) (drop used payload),
  length-replicate {A = ℕ} used 0,
  length-drop used payload,
)

pub session_reset-capacity :
    (state : TransportState) → payload_capacity (session_reset state) ≡ payload_capacity state
unfolding session_reset
session_reset-capacity state = elim (Option-cases state.payload) [
  | inl n ↦ ground arith
  | inr (payload, p) ↦
      let used = min (length payload) (max state.total_len state.received_len) in
      let same = length-wipe used payload (omega arith) in ground arith
]

session_reset-received : (state : TransportState) → (session_reset state).received_len ≡ 0
unfolding session_reset
session_reset-received state = refl

ensure_payload-Fits :
    (host : Host) (state : TransportState) → Fits state → Fits (ensure_payload host state).1
unfolding ensure_payload Fits
ensure_payload-Fits host state f = ground arith

begin_message-Filled :
    (host : Host) (cid cmd msg_len : ℕ) (state : TransportState)
    → (begin_message host cid cmd msg_len state).0 ≡ true
    → ((begin_message host cid cmd msg_len state).1.received_len ≡ 0)
      × Filled (begin_message host cid cmd msg_len state).1
unfolding begin_message Filled
begin_message-Filled host cid cmd msg_len state e = (
  ground (arith, session_reset-received state),
  ground (arith, session_reset-received state, session_reset-capacity state),
)

begin_message-IsTable :
    (host : Host) (cid cmd msg_len : ℕ) (state : TransportState)
    → IsTable state.allocated_cids
    → IsTable (begin_message host cid cmd msg_len state).1.allocated_cids
unfolding begin_message session_reset
begin_message-IsTable host cid cmd msg_len state t = ground arith

begin_message_refused :
    (host : Host) (cid cmd msg_len : ℕ) (state : TransportState)
    → IsTable state.allocated_cids
    → (begin_message host cid cmd msg_len state).0 ≡ false
    → IsValid (begin_message host cid cmd msg_len state).1
unfolding begin_message
begin_message_refused host cid cmd msg_len state t e = ground (arith, session_reset-IsValid state t)

pub begin_packet-IsValid :
    (host : Host) (cid cmd msg_len : ℕ) (packet : Packet) (state : TransportState)
    → IsValid state
    → IsValid (begin_packet host cid cmd msg_len packet state).state
unfolding begin_packet copy_init_payload
begin_packet-IsValid host cid cmd msg_len packet state v =
    let touched = touch_cid host.tick cid state in
    let tv = touch_cid-IsValid host.tick cid state v in
    let ready = ensure_payload host touched in
    let table = ensure_payload-IsValid host touched tv.table in
    let begun = begin_message host cid cmd msg_len ready.1 in
    if_both Lands (not (cid_is_allocated state cid)) v (
      if_both Lands (not ready.0)
        (record { fits = ensure_payload-Fits host touched tv.fits; table = table })
        (if_cases Lands begun.0
          (λ y.
            let (start, filled) = begin_message-Filled host cid cmd msg_len ready.1 y in
            advance-IsValid host 0 (drop 7 packet) begun.1 start filled
              (begin_message-IsTable host cid cmd msg_len ready.1 table))
          (λ n. begin_message_refused host cid cmd msg_len ready.1 table n)))
