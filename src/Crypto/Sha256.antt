-- ===== src/Crypto/Sha256.antt =====
-- crypto/sha256.c: the context, its operations, and the compression of a block.
pub mod Update
pub mod Block
pub mod Digest
pub mod Finish
use zerofido.Base.{
  ℕ, zero, suc, ◌+◌, ◌-◌, ◌*◌, ◌/◌, ◌%◌, ◌^◌, List, [], ◌∷◌, ◌++◌, ltb, ◌==◌, if◌then◌else◌, length,
  get_or, take, drop, replicate, min, be_bytes,
}
use zerofido.Base.Memory.{write_at}
use Prim.Native.Nat.{bit_and, bit_or, bit_xor}

abbrev pub word_mod : ℕ
word_mod = 0x1_0000_0000

-- `uint32_t` addition
abbrev pub add32 : ℕ → ℕ → ℕ
add32 a b = (a + b) % word_mod

abbrev pub xor3 : ℕ → ℕ → ℕ → ℕ
xor3 a b c = bit_xor (bit_xor a b) c

-- `zf_sha256_k`
abbrev pub sha256_k : List ℕ
sha256_k =
    0x428a_2f98 ∷ 0x7137_4491 ∷ 0xb5c0_fbcf ∷ 0xe9b5_dba5 ∷ 0x3956_c25b ∷ 0x59f1_11f1 ∷ 0x923f_82a4
    ∷ 0xab1c_5ed5 ∷ 0xd807_aa98 ∷ 0x1283_5b01 ∷ 0x2431_85be ∷ 0x550c_7dc3 ∷ 0x72be_5d74
    ∷ 0x80de_b1fe ∷ 0x9bdc_06a7 ∷ 0xc19b_f174 ∷ 0xe49b_69c1 ∷ 0xefbe_4786 ∷ 0x0fc1_9dc6
    ∷ 0x240c_a1cc ∷ 0x2de9_2c6f ∷ 0x4a74_84aa ∷ 0x5cb0_a9dc ∷ 0x76f9_88da ∷ 0x983e_5152
    ∷ 0xa831_c66d ∷ 0xb003_27c8 ∷ 0xbf59_7fc7 ∷ 0xc6e0_0bf3 ∷ 0xd5a7_9147 ∷ 0x06ca_6351
    ∷ 0x1429_2967 ∷ 0x27b7_0a85 ∷ 0x2e1b_2138 ∷ 0x4d2c_6dfc ∷ 0x5338_0d13 ∷ 0x650a_7354
    ∷ 0x766a_0abb ∷ 0x81c2_c92e ∷ 0x9272_2c85 ∷ 0xa2bf_e8a1 ∷ 0xa81a_664b ∷ 0xc24b_8b70
    ∷ 0xc76c_51a3 ∷ 0xd192_e819 ∷ 0xd699_0624 ∷ 0xf40e_3585 ∷ 0x106a_a070 ∷ 0x19a4_c116
    ∷ 0x1e37_6c08 ∷ 0x2748_774c ∷ 0x34b0_bcb5 ∷ 0x391c_0cb3 ∷ 0x4ed8_aa4a ∷ 0x5b9c_ca4f
    ∷ 0x682e_6ff3 ∷ 0x748f_82ee ∷ 0x78a5_636f ∷ 0x84c8_7814 ∷ 0x8cc7_0208 ∷ 0x90be_fffa
    ∷ 0xa450_6ceb ∷ 0xbef9_a3f7 ∷ 0xc671_78f2 ∷ []

-- `(value >> shift) | (value << (32 - shift))`
unfoldable pub rotr : ℕ → ℕ → ℕ
rotr value shift = bit_or (value / 2 ^ shift) (value * 2 ^ (32 - shift) % word_mod)

unfoldable pub load_be32 : List ℕ → ℕ → ℕ
load_be32 input offset =
    bit_or
      (bit_or (bit_or (get_or input offset 0 * 0x100_0000) (get_or input (offset + 1) 0 * 0x1_0000))
        (get_or input (offset + 2) 0 * 0x100))
      (get_or input (offset + 3) 0)

-- `w[i]` for `i` from 16 on, appended to the words in front of it.
unfoldable pub extend : ℕ → ℕ → List ℕ → List ℕ
unfolding rotr
extend zero i w = w
extend (suc rounds) i w =
    let w15 = get_or w (i - 15) 0 in
    let w2 = get_or w (i - 2) 0 in
    let s0 = xor3 (rotr w15 7) (rotr w15 18) (w15 / 2 ^ 3) in
    let s1 = xor3 (rotr w2 17) (rotr w2 19) (w2 / 2 ^ 10) in
    extend rounds (i + 1)
      (w ++ add32 (add32 (add32 (get_or w (i - 16) 0) s0) (get_or w (i - 7) 0)) s1 ∷ [])

unfoldable pub load_words : ℕ → ℕ → List ℕ → List ℕ
unfolding load_be32
load_words zero i block = []
load_words (suc rounds) i block = load_be32 block (i * 4) ∷ load_words rounds (i + 1) block

-- The working variables a, …, h.
pub record Working : Type 0 where
  pub a : ℕ
  pub b : ℕ
  pub c : ℕ
  pub d : ℕ
  pub e : ℕ
  pub f : ℕ
  pub g : ℕ
  pub h : ℕ

unfoldable pub round : ℕ → ℕ → Working → Working
unfolding rotr
round k w s =
    let s1 = xor3 (rotr s.e 6) (rotr s.e 11) (rotr s.e 25) in
    let ch = bit_xor (bit_and s.e s.f) (bit_and (bit_xor s.e 0xffff_ffff) s.g) in
    let temp1 = add32 (add32 (add32 (add32 s.h s1) ch) k) w in
    let s0 = xor3 (rotr s.a 2) (rotr s.a 13) (rotr s.a 22) in
    let maj = xor3 (bit_and s.a s.b) (bit_and s.a s.c) (bit_and s.b s.c) in
    let temp2 = add32 s0 maj in
    record {
      a = add32 temp1 temp2;
      b = s.a;
      c = s.b;
      d = s.c;
      e = add32 s.d temp1;
      f = s.e;
      g = s.f;
      h = s.g;
    }

unfoldable pub rounds : List ℕ → List ℕ → Working → Working
unfolding round
rounds [] w s = s
rounds (k ∷ ks) [] s = s
rounds (k ∷ ks) (w ∷ ws) s = rounds ks ws (round k w s)

-- The working variables at the start, from the state's eight words.
unfoldable pub first_working : List ℕ → Working
first_working state = record {
  a = get_or state 0 0;
  b = get_or state 1 0;
  c = get_or state 2 0;
  d = get_or state 3 0;
  e = get_or state 4 0;
  f = get_or state 5 0;
  g = get_or state 6 0;
  h = get_or state 7 0;
}

-- `state[i] += …` for the eight words.
unfoldable pub add_working : Working → Working → List ℕ
add_working s r =
    add32 s.a r.a
    ∷ add32 s.b r.b
    ∷ add32 s.c r.c
    ∷ add32 s.d r.d
    ∷ add32 s.e r.e
    ∷ add32 s.f r.f
    ∷ add32 s.g r.g
    ∷ add32 s.h r.h
    ∷ []

-- `zf_sha256_transform` on the state's eight words.
unfoldable pub compress : List ℕ → List ℕ → List ℕ
compress state block =
    add_working (first_working state)
      (rounds sha256_k (extend 48 16 (load_words 16 0 block)) (first_working state))

-- `ZfSha256Context`
pub record Context : Type 0 where
  pub state : List ℕ
  pub bit_count : ℕ
  pub buffer : List ℕ
  pub buffer_len : ℕ

abbrev pub block_len : ℕ
block_len = 64

abbrev pub initial_state : List ℕ
initial_state =
    0x6a09_e667 ∷ 0xbb67_ae85 ∷ 0x3c6e_f372 ∷ 0xa54f_f53a ∷ 0x510e_527f ∷ 0x9b05_688c ∷ 0x1f83_d9ab
    ∷ 0x5be0_cd19 ∷ []

unfoldable pub transform : Context → List ℕ → Context
unfolding compress
transform ctx block = record ctx { state = compress ctx.state block }

abbrev pub init : Context
init = record {
  state = initial_state;
  bit_count = 0;
  buffer = replicate block_len 0;
  buffer_len = 0;
}

-- One chunk goes to the buffer, and the buffer, once full, to the state.
unfoldable pub take_chunk : ℕ → List ℕ → Context → Context
unfolding transform write_at
take_chunk chunk input ctx =
    let filled : Context = record ctx {
      buffer = write_at ctx.buffer_len (take chunk input) ctx.buffer;
      buffer_len = ctx.buffer_len + chunk;
    } in
    if filled.buffer_len == block_len
    then record (transform filled filled.buffer) { buffer_len = 0 }
    else filled

-- The loop of `zf_sha256_update`, on as much fuel as there are bytes.
unfoldable pub update_loop : ℕ → Context → List ℕ → Context
unfolding take_chunk
update_loop zero ctx input = ctx
update_loop (suc fuel) ctx [] = ctx
update_loop (suc fuel) ctx (byte ∷ input) =
    let chunk = min (block_len - ctx.buffer_len) (length (byte ∷ input)) in
    update_loop fuel (take_chunk chunk (byte ∷ input) ctx) (drop chunk (byte ∷ input))

unfoldable pub update : Context → List ℕ → Context
unfolding update_loop
update ctx input =
    update_loop (length input)
      (record ctx { bit_count = (ctx.bit_count + length input * 8) % 2 ^ 64 }) input

unfoldable pub store_words : List ℕ → List ℕ
unfolding be_bytes
store_words [] = []
store_words (w ∷ ws) = be_bytes 4 w ++ store_words ws

unfoldable pub finish : Context → List ℕ
finish ctx =
    let tail = 0x80 ∷ replicate (block_len - 1) 0 in
    let wrapped = ltb 55 ctx.buffer_len in
    let first = if wrapped then update ctx (take (block_len - ctx.buffer_len) tail) else ctx in
    let rest = if wrapped then replicate block_len 0 else tail in
    let padded = update first (take (56 - first.buffer_len) rest) in
    let ready = write_at 56 (be_bytes 8 ctx.bit_count) padded.buffer in
    store_words (transform padded ready).state
