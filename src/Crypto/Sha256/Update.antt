-- ===== src/Crypto/Sha256/Update.antt =====
-- `zf_sha256_update` against the blocks of the message.
use zerofido.Base.{
  ℕ, zero, suc, ◌+◌, ◌-◌, ◌*◌, ◌≤◌, ◌<◌, ◌≡◌, refl, sym, ap, ap₂, ◌∙◌, true, false, List, [], ◌∷◌,
  ◌++◌, arith, ◌==◌, min, length, take, drop, length-append, length-take, length-drop, append-nil,
}
use zerofido.Base.Memory.{write_at, take-write_at, length-write_at}
use zerofido.Base.Cuts.{take-append_add, drop-append_add, drop-drop, take_all, drop_all}
use native.Mathlib.Decide.{dec_lt}
use zerofido.Base.{subst, if_both}
use zerofido.Crypto.Sha256.{Context, block_len, compress, take_chunk, update_loop, transform}

-- The state after as many whole blocks at the front of a message.
unfoldable pub blocks : ℕ → List ℕ → List ℕ → List ℕ
blocks zero state message = state
blocks (suc n) state message =
    blocks n (compress state (take block_len message)) (drop block_len message)

-- What a context stands for: a state, and the bytes that wait for their block to fill.
pub record View (ctx : Context) (state pending : List ℕ) : Type 0 where
  pub same : ctx.state ≡ state
  pub waiting : take ctx.buffer_len ctx.buffer ≡ pending
  pub size : length ctx.buffer ≡ block_len
  pub short : ctx.buffer_len < block_len

pub length_pending : {ctx : Context} {s p : List ℕ} → View ctx s p → length p ≡ ctx.buffer_len
length_pending {ctx} v =
    omega (arith, ap length v.waiting, length-take ctx.buffer_len ctx.buffer, v.size, v.short)

-- The context has taken whole blocks off the front of the bytes, and keeps the rest.
pub record Absorbed (state bytes : List ℕ) (ctx : Context) : Type 0 where
  pub count : ℕ
  pub within : block_len * count ≤ length bytes
  pub view : View ctx (blocks count state bytes) (drop (block_len * count) bytes)

module _ (ctx : Context) (state pending input : List ℕ) (v : View ctx state pending) (chunk : ℕ)
    (within : chunk ≤ length input) where
  written :
      take (ctx.buffer_len + chunk) (write_at ctx.buffer_len (take chunk input) ctx.buffer)
      ≡ pending ++ take chunk input
  written =
      let len : chunk ≡ length (take chunk input) = omega (arith, length-take chunk input) in
      ap (λ t. take (ctx.buffer_len + t) (write_at ctx.buffer_len (take chunk input) ctx.buffer))
        len
      ∙ take-write_at ctx.buffer_len (take chunk input) ctx.buffer pending v.waiting
          (omega (arith, v.size, v.short))

  kept_size :
      ctx.buffer_len + chunk ≤ block_len
      → length (write_at ctx.buffer_len (take chunk input) ctx.buffer) ≡ block_len
  kept_size h =
      length-write_at ctx.buffer_len (take chunk input) ctx.buffer
        (omega (arith, v.size, length-take chunk input))
      ∙ v.size

  partial :
      ctx.buffer_len + chunk < block_len
      → View (take_chunk chunk input ctx) state (pending ++ take chunk input)
  unfolding take_chunk
  partial h =
      let off : (ctx.buffer_len + chunk == block_len) ≡ false = ground arith in
      rw off
        (record { same = v.same; waiting = written; size = kept_size (omega arith); short = h })

  full :
      ctx.buffer_len + chunk ≡ block_len
      → View (take_chunk chunk input ctx) (compress state (pending ++ take chunk input)) []
  unfolding take_chunk transform
  full h =
      let on : (ctx.buffer_len + chunk == block_len) ≡ true = ground arith in
      rw on (record {
        same = ap₂ compress v.same (
            sym (take_all block_len _ (omega (arith, kept_size (omega arith))))
            ∙ ap (λ t. take t (write_at ctx.buffer_len (take chunk input) ctx.buffer)) (sym h)
            ∙ written);
        waiting = refl;
        size = kept_size (omega arith);
        short = omega arith;
      })

-- Bytes that do not fill the block stay in the buffer.
stays : {ctx : Context} {state bytes : List ℕ} → View ctx state bytes → Absorbed state bytes ctx
unfolding blocks
stays v = record { count = 0; within = omega arith; view = v }

-- A block that is full goes to the state, and the rest goes on from there.
next_block :
    {ctx : Context} (state pending input : List ℕ) (chunk : ℕ)
    → chunk ≤ length input
    → length pending + chunk ≡ block_len
    → Absorbed (compress state (pending ++ take chunk input)) (drop chunk input) ctx
    → Absorbed state (pending ++ input) ctx
unfolding blocks
next_block {ctx} state pending input chunk h e a =
    let front = take-append_add block_len chunk pending input (sym e) in
    let behind = drop-append_add block_len chunk pending input (sym e) in
    let rest =
      drop-append_add (block_len * suc a.count) (chunk + block_len * a.count) pending input
        (omega arith) in
    record {
      count = suc a.count;
      within = omega (arith, a.within, length-append pending input, length-drop chunk input);
      view = rw (front, behind, rest, ← drop-drop chunk (block_len * a.count) _ input refl) a.view;
    }

update_loop_nil : (fuel : ℕ) (ctx : Context) → update_loop fuel ctx [] ≡ ctx
unfolding update_loop
update_loop_nil zero ctx = refl
update_loop_nil (suc fuel) ctx = refl

pub update_loop-Absorbed :
    (fuel : ℕ) (ctx : Context) (state pending input : List ℕ)
    → View ctx state pending
    → length input ≤ fuel
    → Absorbed state (pending ++ input) (update_loop fuel ctx input)
unfolding update_loop
update_loop-Absorbed fuel ctx state pending [] v h =
    rw (update_loop_nil fuel ctx, append-nil pending) (stays v)
update_loop-Absorbed zero ctx state pending (byte ∷ input) v h = absurd (omega arith)
update_loop-Absorbed (suc fuel) ctx state pending (byte ∷ input) v h =
    let all = byte ∷ input in
    let chunk = min (block_len - ctx.buffer_len) (length all) in
    elim (dec_lt (ctx.buffer_len + chunk) block_len) [
      | yes some_room ↦
          let e : chunk ≡ length all = omega arith in
          rw (drop_all chunk all (omega arith), update_loop_nil fuel (take_chunk chunk all ctx))
            (stays (
              subst (λ t. View (take_chunk chunk all ctx) state (pending ++ t))
                (take_all chunk all (omega arith))
                (partial ctx state pending all v chunk (omega arith) some_room)))
      | no no_room ↦
          next_block state pending all chunk (omega arith)
            (omega (arith, length_pending v, v.short))
            (update_loop-Absorbed fuel (take_chunk chunk all ctx) _ [] (drop chunk all)
              (full ctx state pending all v chunk (omega arith) (omega (arith, v.short)))
              (omega (arith, length-drop chunk all, v.short)))
    ]

pub bit_count-take_chunk :
    (chunk : ℕ) (input : List ℕ) (ctx : Context)
    → (take_chunk chunk input ctx).bit_count ≡ ctx.bit_count
unfolding take_chunk transform
bit_count-take_chunk chunk input ctx =
    if_both (λ (c : Context). c.bit_count ≡ ctx.bit_count) (ctx.buffer_len + chunk == block_len)
      refl refl

pub bit_count-update_loop :
    (fuel : ℕ) (ctx : Context) (input : List ℕ)
    → (update_loop fuel ctx input).bit_count ≡ ctx.bit_count
unfolding update_loop
bit_count-update_loop zero ctx input = refl
bit_count-update_loop (suc fuel) ctx [] = refl
bit_count-update_loop (suc fuel) ctx (byte ∷ input) =
    bit_count-update_loop fuel _ _ ∙ bit_count-take_chunk _ (byte ∷ input) ctx
