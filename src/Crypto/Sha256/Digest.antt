-- ===== src/Crypto/Sha256/Digest.antt =====
-- `zf_sha256_init`, `_update` and `_finish` on the bytes a context stands for.
use zerofido.Base.{
  ℕ, zero, suc, ◌+◌, ◌*◌, ◌%◌, ◌^◌, ◌≤◌, ◌<◌, ◌≡◌, refl, sym, ap, ap₂, subst, ◌∙◌, List, [], ◌++◌,
  arith, length, take, drop, length-append, length-drop, length-be_bytes, append-nil, be_bytes,
}
use zerofido.Base.Memory.{write_at}
use zerofido.Base.Cuts.{take-append_le, drop-append_le, drop-drop, take_all, drop_all}
use zerofido.Crypto.Sha256.{Context, block_len, initial_state, init, compress, transform, update}
use zerofido.Crypto.Sha256.Update.{
  blocks, View, length_pending, Absorbed, update_loop-Absorbed, bit_count-update_loop,
}

-- What has been hashed so far.
pub record Holds (ctx : Context) (message : List ℕ) : Type 0 where
  pub absorbed : Absorbed initial_state message ctx
  pub counted : ctx.bit_count ≡ length message * 8 % 2 ^ 64

pub blocks_add :
    (m n k : ℕ) (state bytes : List ℕ)
    → k ≡ m + n
    → blocks k state bytes ≡ blocks n (blocks m state bytes) (drop (block_len * m) bytes)
unfolding blocks
blocks_add zero n k state bytes h = let e : k ≡ n = omega arith in ap (λ t. blocks t state bytes) e
blocks_add (suc m) n zero state bytes h = absurd (omega arith)
blocks_add (suc m) n (suc k) state bytes h =
    blocks_add m n k _ (drop block_len bytes) (omega arith)
    ∙ ap (λ t. blocks n (blocks m (compress state (take block_len bytes)) (drop block_len bytes)) t)
        (drop-drop block_len (block_len * m) _ bytes (omega arith))

pub blocks-append :
    (n : ℕ) (state a b : List ℕ)
    → block_len * n ≤ length a
    → blocks n state (a ++ b) ≡ blocks n state a
unfolding blocks
blocks-append zero state a b h = refl
blocks-append (suc n) state a b h =
    rw (take-append_le block_len a b (omega arith), drop-append_le block_len a b (omega arith))
      (blocks-append n _ (drop block_len a) b (omega (arith, length-drop block_len a)))

pub Holds-init : Holds init []
unfolding blocks
Holds-init = record {
  absorbed = record {
    count = 0;
    within = omega arith;
    view = record { same = refl; waiting = refl; size = refl; short = omega arith };
  };
  counted = refl;
}

-- More bytes behind those that were absorbed.
Absorbed-more :
    {ctx' : Context} {state : List ℕ} (message input : List ℕ) (k : ℕ)
    → block_len * k ≤ length message
    → Absorbed (blocks k state message) (drop (block_len * k) message ++ input) ctx'
    → Absorbed state (message ++ input) ctx'
Absorbed-more {ctx' = ctx'} {state = state} message input k h a =
    let cut = drop-append_le (block_len * k) message input h in
    record {
      count = k + a.count;
      within = omega (
        arith,
        a.within,
        length-append message input,
        length-append (drop (block_len * k) message) input,
        length-drop (block_len * k) message,
      );
      view =
          rw
            (
              blocks_add k a.count _ state (message ++ input) refl,
              blocks-append k state message input h,
              cut,
              ← drop-drop (block_len * k) (block_len * a.count) (block_len * (k + a.count))
                  (message ++ input) (omega arith),
              cut,
            )
            a.view;
    }

pub update-Holds :
    (ctx : Context) (message input : List ℕ)
    → Holds ctx message
    → Holds (update ctx input) (message ++ input)
unfolding update
update-Holds ctx message input h = record {
  absorbed = Absorbed-more message input h.absorbed.count h.absorbed.within (
      update_loop-Absorbed (length input) _ _ _ input
        (record {
          same = h.absorbed.view.same;
          waiting = h.absorbed.view.waiting;
          size = h.absorbed.view.size;
          short = h.absorbed.view.short;
        })
        (omega arith));
  counted =
      bit_count-update_loop (length input) _ input
      ∙ omega (arith, h.counted, length-append message input);
}

pub Absorbed-none :
    {ctx : Context} {state bytes : List ℕ}
    → Absorbed state bytes ctx
    → length bytes < block_len
    → View ctx state bytes
unfolding blocks
Absorbed-none {ctx} {state} {bytes} a h =
    let e : a.count ≡ 0 = omega (arith, a.within) in
    subst (λ k. View ctx (blocks k state bytes) (drop (block_len * k) bytes)) e a.view

pub Absorbed-one :
    {ctx : Context} {state bytes : List ℕ}
    → Absorbed state bytes ctx
    → length bytes ≡ block_len
    → View ctx (compress state bytes) []
unfolding blocks
Absorbed-one {ctx} {state} {bytes} a h =
    let e : a.count ≡ 1 = omega (
      arith,
      a.within,
      length_pending a.view,
      a.view.short,
      length-drop (block_len * a.count) bytes,
    ) in
    let v : View ctx (compress state (take block_len bytes)) (drop block_len bytes) =
      subst (λ k. View ctx (blocks k state bytes) (drop (block_len * k) bytes)) e a.view in
    subst (λ t. View ctx (compress state t) []) (take_all block_len bytes (omega arith))
      (subst (View ctx (compress state (take block_len bytes)))
        (drop_all block_len bytes (omega arith)) v)

pub update-Absorbed :
    (ctx : Context) (state pending input : List ℕ)
    → View ctx state pending
    → Absorbed state (pending ++ input) (update ctx input)
unfolding update
update-Absorbed ctx state pending input v =
    update_loop-Absorbed (length input) _ state pending input
      (record { same = v.same; waiting = v.waiting; size = v.size; short = v.short }) (omega arith)

-- The length goes to the end of the last block, which is compressed.
pub last_block :
    (n : ℕ) {ctx : Context} {state pending : List ℕ}
    → View ctx state pending
    → length pending ≡ 56
    → (transform ctx (write_at 56 (be_bytes 8 n) ctx.buffer)).state
      ≡ compress state (pending ++ be_bytes 8 n)
unfolding transform write_at
last_block n {ctx} {state} {pending} v h =
    let len : ctx.buffer_len ≡ 56 = omega (arith, length_pending v) in
    ap₂ compress v.same (
      ap₂ ◌++◌ (ap (λ t. take t ctx.buffer) (sym len) ∙ v.waiting) (
        ap (λ t. be_bytes 8 n ++ t)
          (drop_all (56 + length (be_bytes 8 n)) ctx.buffer
            (omega (arith, v.size, length-be_bytes 8 n)))
        ∙ append-nil (be_bytes 8 n)))
