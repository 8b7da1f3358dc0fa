-- ===== src/Transport/Assembly/Pieces.antt =====
-- A message of which a front has arrived, and the next packet of it.
use zerofido.Base.{
  ℕ, ◌+◌, ◌-◌, ◌*◌, ◌<◌, ◌≤◌, ◌≡◌, ◌⊎◌, refl, ap, ◌∙◌, true, false, not, ◌&&◌, ◌||◌, some, List,
  ◌++◌, ltb, ◌!=◌, length, take, min, u8, get_or, arith, length-append, if_false, length-replicate,
}
use zerofido.Transport.State.{
  TransportState, Host, Packet, packet_cid, refresh_lock, lock_blocks, is_busy_for_cid,
}
use zerofido.Transport.Frames.Fields.{IsContinuation, padding}
use zerofido.Transport.Cids.{touch_cid}
use zerofido.Transport.Assembly.{
  complete_if_ready, copy_payload, copy_continuation_payload, handle_cont_packet,
}
use zerofido.Base.Memory.{write_at, take-write_at, length-write_at}
use zerofido.Transport.Assembly.Buffer.{take-content}
use zerofido.Transport.Session.{handle_packet, handle_idle_packet, is_init_packet}

-- The front `front` of a message has arrived on channel `cid`, and `rest` is to come. `room` bounds
-- the sequence numbers while something is to come.
pub record Assembling (cid cmd : ℕ) (front rest : List ℕ) (state : TransportState) : Type 0 where
  pub idle : state.processing ≡ false
  pub busy : state.active ≡ true
  pub same_cid : state.cid ≡ cid
  pub same_cmd : state.cmd ≡ cmd
  pub total : state.total_len ≡ length front + length rest
  pub received : state.received_len ≡ length front
  pub room : (length rest ≡ 0) ⊎ (59 * state.next_seq ≤ length front)
  pub unlocked : (state.lock_cid ≡ 0) ⊎ (state.lock_cid ≡ cid)
  pub buffer : List ℕ
  pub in_buffer : state.payload ≡ some buffer
  pub large : 1024 ≤ length buffer
  pub so_far : take (length front) buffer ≡ front
  pub short : length front + length rest ≤ 1024

-- The same in a state that differs in what an assembly does not look at.
pub transfer :
    {cid cmd : ℕ} {front rest : List ℕ} (state state' : TransportState)
    → Assembling cid cmd front rest state
    → state'.processing ≡ state.processing
    → state'.active ≡ state.active
    → state'.cid ≡ state.cid
    → state'.cmd ≡ state.cmd
    → state'.total_len ≡ state.total_len
    → state'.received_len ≡ state.received_len
    → state'.next_seq ≡ state.next_seq
    → state'.payload ≡ state.payload
    → (state'.lock_cid ≡ 0) ⊎ (state'.lock_cid ≡ state.lock_cid)
    → Assembling cid cmd front rest state'
transfer state state' a p q r s t u v w l = record {
  idle = p ∙ a.idle;
  busy = q ∙ a.busy;
  same_cid = r ∙ a.same_cid;
  same_cmd = s ∙ a.same_cmd;
  total = t ∙ a.total;
  received = u ∙ a.received;
  room = ground (arith, v);
  unlocked = relock a.unlocked l;
  buffer = a.buffer;
  in_buffer = w ∙ a.in_buffer;
  large = a.large;
  so_far = a.so_far;
  short = a.short;
}
  where
    relock : {x y c : ℕ} → (x ≡ 0) ⊎ (x ≡ c) → (y ≡ 0) ⊎ (y ≡ x) → (y ≡ 0) ⊎ (y ≡ c)
    relock h k = ground arith

pub refresh_lock-Assembling :
    (now : ℕ) {cid cmd : ℕ} {front rest : List ℕ} (state : TransportState)
    → Assembling cid cmd front rest state
    → Assembling cid cmd front rest (refresh_lock now state)
unfolding refresh_lock
refresh_lock-Assembling now state a =
    transfer state (refresh_lock now state) a (ground arith) (ground arith) (ground arith)
      (ground arith) (ground arith) (ground arith) (ground arith) (ground arith) (ground arith)

pub touch_cid-Assembling :
    (now c : ℕ) {cid cmd : ℕ} {front rest : List ℕ} (state : TransportState)
    → Assembling cid cmd front rest state
    → Assembling cid cmd front rest (touch_cid now c state)
unfolding touch_cid
touch_cid-Assembling now c state a =
    transfer state (touch_cid now c state) a (ground arith) (ground arith) (ground arith)
      (ground arith) (ground arith) (ground arith) (ground arith) (ground arith) (ground arith)

pub copy_payload-content :
    (offset spare : ℕ) (chunk : List ℕ) (state : TransportState) {buffer : List ℕ}
    → state.payload ≡ some buffer
    → min (length (chunk ++ padding spare)) (state.total_len - offset) ≡ length chunk
    → 0 < length chunk
    → copy_payload offset (chunk ++ padding spare) state ≡ record state {
      payload = some (write_at offset chunk buffer);
      received_len = offset + length chunk;
    }
unfolding copy_payload
copy_payload-content offset spare chunk state {buffer} p e h =
    let copies = take-content chunk (padding spare) _ e in ground arith

-- A chunk of what is to come has been copied: all of it, or 59 bytes without padding.
pub copied :
    {cid cmd : ℕ} {front : List ℕ} (chunk : List ℕ) {rest : List ℕ} (now spare : ℕ)
    (state : TransportState)
    → Assembling cid cmd front (chunk ++ rest) state
    → 0 < length chunk
    → (length rest ≡ 0) ⊎ ((spare ≡ 0) × (length chunk ≡ 59))
    → Assembling cid cmd (front ++ chunk) rest (
        copy_payload state.received_len
          (chunk ++ padding spare)
          (record state { next_seq = u8 (state.next_seq + 1); last_activity = now }))
copied {front = front} chunk {rest = rest} now spare state a k l =
    let seen = length-append front chunk in
    let ahead = length-append chunk rest in
    let padded = length-append chunk (padding spare) in
    let zeros = length-replicate {A = ℕ} spare 0 in
    let all_of_it : min (length (chunk ++ padding spare)) (state.total_len - state.received_len)
        ≡ length chunk =
      ground (arith, a.total, a.received) in
    rw
      (copy_payload-content state.received_len spare chunk
        (record state { next_seq = u8 (state.next_seq + 1); last_activity = now }) a.in_buffer
        all_of_it k)
      (record {
        idle = a.idle;
        busy = a.busy;
        same_cid = a.same_cid;
        same_cmd = a.same_cmd;
        total = omega (arith, a.total);
        received = omega (arith, a.received);
        room = ground (arith, a.room);
        unlocked = a.unlocked;
        buffer = write_at state.received_len chunk a.buffer;
        in_buffer = refl;
        large = omega (
          arith,
          a.large,
          a.short,
          a.received,
          length-write_at state.received_len chunk a.buffer,
        );
        so_far =
            ap (λ t. take t (write_at state.received_len chunk a.buffer))
              (omega (arith, a.received))
            ∙ take-write_at state.received_len chunk a.buffer front
                (ap (λ t. take t a.buffer) a.received ∙ a.so_far)
                (omega (arith, a.received, a.large, a.short));
        short = omega (arith, a.short);
      })

-- Channel `cid` may talk: it holds the lock, or nobody does.
pub unblocked :
    (cid : ℕ) (state : TransportState)
    → (state.lock_cid ≡ 0) ⊎ (state.lock_cid ≡ cid)
    → lock_blocks state cid ≡ false
unblocked cid state h = ground arith

pub refresh_lock-next_seq :
    (now : ℕ) (state : TransportState) → (refresh_lock now state).next_seq ≡ state.next_seq
unfolding refresh_lock
refresh_lock-next_seq now state = ground arith

pub touch_cid-next_seq :
    (now cid : ℕ) (state : TransportState) → (touch_cid now cid state).next_seq ≡ state.next_seq
unfolding touch_cid
touch_cid-next_seq now cid state = ground arith

pub copy_payload-next_seq :
    (offset : ℕ) (content : List ℕ) (state : TransportState)
    → (copy_payload offset content state).next_seq ≡ state.next_seq
unfolding copy_payload
copy_payload-next_seq offset content state = ground arith

pub next_packet :
    (host : Host) {cid cmd : ℕ} {front : List ℕ} (chunk : List ℕ) {rest : List ℕ} (packet : Packet)
    (state : TransportState)
    → Assembling cid cmd front (chunk ++ rest) state
    → 0 < length chunk
    → IsContinuation cid state.next_seq chunk packet
    → (length rest ≡ 0) ⊎ (length chunk ≡ 59)
    → (state' : TransportState) × Assembling cid cmd (front ++ chunk) rest state'
      × (state'.next_seq ≡ u8 (state.next_seq + 1))
      × (handle_packet host packet state ≡ complete_if_ready host state')
unfolding handle_packet handle_idle_packet handle_cont_packet copy_continuation_payload
next_packet host {cid = cid} chunk {rest = rest} packet state a k c l =
    let current = refresh_lock host.tick state in
    let ca = refresh_lock-Assembling host.tick state a in
    let touched = touch_cid host.tick (packet_cid packet) current in
    let ta = touch_cid-Assembling host.tick (packet_cid packet) current ca in
    let same_seq = refresh_lock-next_seq host.tick state in
    let free = unblocked cid current ca.unlocked in
    let ahead = length-append chunk rest in
    (
      copy_payload touched.received_len (chunk ++ padding c.spare)
          (record touched { next_seq = u8 (touched.next_seq + 1); last_activity = host.tick }),
      copied chunk host.tick c.spare touched ta k (ground arith),
      copy_payload-next_seq touched.received_len (chunk ++ padding c.spare) _
          ∙ ap (λ t. u8 (t + 1))
              (touch_cid-next_seq host.tick (packet_cid packet) current ∙ same_seq),
      if_false _ (ltb (length packet) 5) (ground arith) (
          if_false _ (lock_blocks current (packet_cid packet)) (rw c.for_cid free) (
            if_false _ current.processing ca.idle (
              if_false _ (not current.active && is_busy_for_cid current (packet_cid packet))
                (ground (arith, ca.busy))
                (if_false _ (is_init_packet packet) (ground (arith, c.has_seq, a.room, a.short)) (
                  if_false _ (not current.active) (ground (arith, ca.busy)) (
                    if_false _
                      (get_or packet 4 0 != current.next_seq || packet_cid packet != current.cid)
                      (ground (arith, c.has_seq, c.for_cid, ca.same_cid))
                      (ap
                        (λ (t : List ℕ). complete_if_ready host (
                          copy_payload touched.received_len t (record touched {
                            next_seq = u8 (touched.next_seq + 1);
                            last_activity = host.tick;
                          })))
                        c.carries))))))),
    )
