-- ===== src/Ctap/Queue/Order.antt =====
-- A queue serves its matches in their order, each at most once.
use zerofido.Base.{
  ℕ, ◌+◌, ◌<◌, ◌≡◌, ◌⊎◌, inl, inr, refl, sym, ap, subst, ◌∙◌, Bool, true, false, List, [], ◌∷◌,
  arith, leb, Bool-cases, if◌then◌else◌, if_cases, get_or, take, u8, All,
}
use zerofido.Ctap.Status.{Status, is_success}
use zerofido.Ctap.Queue.{
  AssertionQueue, cleared_queue, App, Snapshot, snapshot_of, still_current, next_queue,
  Surroundings, queue_seed, handle_next,
}
use zerofido.Ctap.Queue.Next.{Keeps, Published, IsLive, state_after, handle_next-Answers}

-- A call, and what happens to the device in front of it.
pub record Turn : Type 0 where
  pub before : App → App
  pub session_id : ℕ
  pub around : Surroundings

-- The queue stays, or is cleared.
abbrev pub LeavesQueue : (App → App) → Type 0
LeavesQueue f = (app : App) → ((f app).queue ≡ app.queue) ⊎ ((f app).queue ≡ cleared_queue)

abbrev pub IsQuiet : Turn → Type 0
IsQuiet turn = LeavesQueue turn.before × LeavesQueue turn.around.meanwhile

-- The indices of the credentials that are served, in their order.
unfoldable pub served : List Turn → App → List ℕ
served [] app = []
served (turn ∷ turns) app =
    let app' = turn.before app in
    let (status, app'') = handle_next turn.around turn.session_id app' in
    let rest = served turns app'' in
    if is_success status then (snapshot_of app').record_index ∷ rest else rest

-- The matches from number `k` on, without a gap, and none past the first `n`.
abbrev pub IsInOrder : List ℕ → ℕ → ℕ → List ℕ → Type 0
IsInOrder matches n k [] = Unit
IsInOrder matches n k (i ∷ out) =
    (k < n) × (i ≡ get_or matches k 0) × IsInOrder matches n (k + 1) out

module _ (matches : List ℕ) (n : ℕ) where
  -- The queue is cleared, or serves match number `k` next.
  Stage : ℕ → AssertionQueue → Type 0
  Stage k q = (q.active ≡ false) ⊎ ((q.record_indices ≡ matches) × (q.count ≡ n) × (q.index ≡ k))

  moved : (k : ℕ) (q q' : AssertionQueue) → Stage k q → (q' ≡ q) ⊎ (q' ≡ cleared_queue) → Stage k q'
  unfolding Stage
  moved k q q' stage (inl e) =
      subst
        (λ q. (q.active ≡ false) ⊎ ((q.record_indices ≡ matches) × (q.count ≡ n) × (q.index ≡ k)))
        (sym e) stage
  moved k q q' stage (inr e) = inl (ap (λ (q : AssertionQueue). q.active) e)

  next_queue-Stage :
      (tick k : ℕ) (s : Snapshot) (q : AssertionQueue)
      → n < 256
      → k < n
      → s.queue_index ≡ k
      → (q.record_indices ≡ matches) × (q.count ≡ n) × (q.index ≡ k)
      → Stage (k + 1) (next_queue tick s q)
  unfolding Stage next_queue
  next_queue-Stage tick k s q small inside at (l, c, i) =
      if_cases (Stage (k + 1)) (leb q.count (u8 (s.queue_index + 1))) (λ _. inl refl)
        (λ _. inr (l, c, omega (arith, at)))

  -- A call on a queue in stage `k`: it serves match number `k`, or the queue stays in its stage.
  Serves : ℕ → App → Status × App → Type 0
  Serves k app r =
      if is_success r.0
      then (k < n) × ((snapshot_of app).record_index ≡ get_or matches k 0) × Stage (k + 1) r.1.queue
      else Stage k r.1.queue

  Published-Serves :
      (around : Surroundings) (session_id k : ℕ) (app app' : App)
      → n < 256
      → Stage k app.queue
      → LeavesQueue around.meanwhile
      → IsLive around.tick session_id app.queue
      → Published around.publish_tick session_id (snapshot_of app) (state_after around app) app'
      → (k < n) × ((snapshot_of app).record_index ≡ get_or matches k 0) × Stage (k + 1) app'.queue
  unfolding Stage snapshot_of still_current
  Published-Serves around session_id k app app' small (inl off) leaves live published =
      absurd (ground (arith, live.0))
  Published-Serves around session_id k app app' small (inr (l, c, i)) leaves live
        (current, _, moves) =
      elim (leaves (record app { maintenance_busy = true })) [
        | inl same ↦
            let inside : k < n = omega (arith, live.2, c, i) in
            let stage =
              next_queue-Stage around.publish_tick k (snapshot_of app) app.queue small inside i
                (l, c, i) in
            (
              inside,
              ground (arith),
              subst (Stage (k + 1))
                  (sym (moves ∙ ap (next_queue around.publish_tick (snapshot_of app)) same)) stage,
            )
        | inr gone ↦ let off = ap (λ (q : AssertionQueue). q.active) gone in absurd (ground arith)
      ]

  Keeps-Stage :
      (around : Surroundings) (k : ℕ) (app app' : App)
      → Stage k app.queue
      → LeavesQueue around.meanwhile
      → Keeps app app' ⊎ Keeps (state_after around app) app'
      → Stage k app'.queue
  Keeps-Stage around k app app' stage leaves (inl (_, q)) = moved k app.queue app'.queue stage q
  Keeps-Stage around k app app' stage leaves (inr (_, q)) =
      moved k (state_after around app).queue app'.queue
        (moved k app.queue (state_after around app).queue stage
          (leaves (record app { maintenance_busy = true })))
        q

  call-Serves :
      (around : Surroundings) (session_id k : ℕ) (app : App)
      → n < 256
      → Stage k app.queue
      → LeavesQueue around.meanwhile
      → Serves k app (handle_next around session_id app)
  unfolding Serves
  call-Serves around session_id k app small stage leaves =
      let r = handle_next around session_id app in
      let answers = handle_next-Answers around session_id app in
      elim (Bool-cases (is_success r.0)) [
        | inl e ↦ rw e (
            let (live, published) =
              subst
                (λ b.
                  if b
                  then IsLive around.tick session_id app.queue
                    × Published around.publish_tick session_id (snapshot_of app)
                        (state_after around app) r.1
                  else Keeps app r.1
                  ⊎ Keeps (state_after around app) r.1)
                e answers in
            Published-Serves around session_id k app r.1 small stage leaves live published)
        | inr e ↦ rw e (
            Keeps-Stage around k app r.1 stage leaves (
              subst
                (λ b.
                  if b
                  then IsLive around.tick session_id app.queue
                    × Published around.publish_tick session_id (snapshot_of app)
                        (state_after around app) r.1
                  else Keeps app r.1
                  ⊎ Keeps (state_after around app) r.1)
                e answers))
      ]

  in_order :
      (b : Bool) (k i : ℕ) (q : AssertionQueue) (out : List ℕ)
      → (if b then (k < n) × (i ≡ get_or matches k 0) × Stage (k + 1) q else Stage k q)
      → ((j : ℕ) → Stage j q → IsInOrder matches n j out)
      → IsInOrder matches n k (if b then i ∷ out else out)
  in_order true k i q out (inside, this, stage) rest = (inside, this, rest (k + 1) stage)
  in_order false k i q out stage rest = rest k stage

  served-IsInOrder :
      (turns : List Turn) (k : ℕ) (app : App)
      → n < 256
      → Stage k app.queue
      → All IsQuiet turns
      → IsInOrder matches n k (served turns app)
  unfolding served Serves
  served-IsInOrder [] k app small stage quiet = tt
  served-IsInOrder (turn ∷ turns) k app small stage ((calm, leaves), quiet) =
      let app' = turn.before app in
      let stage' = moved k app.queue app'.queue stage (calm app) in
      let r = handle_next turn.around turn.session_id app' in
      let rest = λ (j : ℕ) (h : Stage j r.1.queue). served-IsInOrder turns j r.1 small h quiet in
      in_order (is_success r.0) k (snapshot_of app').record_index r.1.queue (served turns r.1)
        (call-Serves turn.around turn.session_id k app' small stage' leaves) rest

-- Behind the seeding of a queue with fewer than 256 matches, over any calls, between and during which
-- the queue is left alone or cleared, the credentials that are served are the matches from the second
-- on, in their order, each once and without a gap, whatever else happens and whichever calls fail.
pub queue_seed-IsInOrder :
    (tick session_id : ℕ) (rp_id : List ℕ) (no_touch uv_verified : Bool) (matches : List ℕ)
    (count : ℕ) (app : App) (turns : List Turn)
    → count < 256
    → All IsQuiet turns
    → IsInOrder
        (take count matches)
        count
        1
        (served turns (queue_seed tick session_id rp_id no_touch uv_verified matches count app))
unfolding queue_seed Stage
queue_seed-IsInOrder tick session_id rp_id no_touch uv_verified matches count app turns small
      quiet =
    served-IsInOrder (take count matches) count turns 1
      (queue_seed tick session_id rp_id no_touch uv_verified matches count app) small
      (if_cases
        (λ (a : App).
          (a.queue.active ≡ false)
          ⊎ ((a.queue.record_indices ≡ take count matches)
              × (a.queue.count ≡ count)
              × (a.queue.index ≡ 1)))
        (leb count 1) (λ _. inl refl) (λ _. inr (refl, omega arith, refl)))
      quiet
