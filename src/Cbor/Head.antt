-- ===== src/Cbor/Head.antt =====
-- `zf_cbor_encode_head` and `zf_cbor_read_head` against each other.
use zerofido.Base.{
  ℕ, ◌+◌, ◌*◌, ◌/◌, ◌%◌, ◌^◌, ◌<◌, ◌≤◌, ◌≡◌, refl, sym, ap, ap₂, ◌∙◌, Bool, true, Option, none,
  some, List, [], ◌∷◌, ◌++◌, arith, ltb, leb, if◌then◌else◌, All, IsByte, u8, be_bytes, read_be,
  read_be-be_bytes, read_be_inv,
}
use zerofido.Base.Partial.{>>=-eq-some}
use native.Mathlib.Decide.{dec_lt, dec_le, ℕ_discrete}
use native.Mathlib.Nat.{mod-eq_of_lt}
use zerofido.Cbor.Encode.{head_bytes}
use zerofido.Cbor.Decode.{read_argument, read_head}

-- The head of each width.
head_0 : (m v : ℕ) → v < 24 → head_bytes m v ≡ u8 (m * 32 + v) ∷ []
unfolding head_bytes
head_0 m v h = ground arith

head_1 : (m v : ℕ) → 24 ≤ v → v ≤ 0xff → head_bytes m v ≡ u8 (m * 32 + 24) ∷ be_bytes 1 v
unfolding head_bytes
head_1 m v h k = ground arith

head_2 : (m v : ℕ) → 0xff < v → v ≤ 0xffff → head_bytes m v ≡ u8 (m * 32 + 25) ∷ be_bytes 2 v
unfolding head_bytes
head_2 m v h k = ground arith

head_4 : (m v : ℕ) → 0xffff < v → v ≤ 0xffff_ffff → head_bytes m v ≡ u8 (m * 32 + 26) ∷ be_bytes 4 v
unfolding head_bytes
head_4 m v h k = ground arith

head_8 : (m v : ℕ) → 0xffff_ffff < v → head_bytes m v ≡ u8 (m * 32 + 27) ∷ be_bytes 8 v
unfolding head_bytes
head_8 m v h = ground arith

-- The reader by the low five bits of the lead byte.
read_0 : (b : ℕ) (c : List ℕ) → b % 32 < 24 → read_head (b ∷ c) ≡ some (b / 32, b % 32, c)
unfolding read_head
read_0 b c h = ground arith

read_1 :
    (b : ℕ) (c : List ℕ)
    → b % 32 ≡ 24
    → read_head (b ∷ c) ≡ read_argument (λ v. leb 24 v) 1 (b / 32) c
unfolding read_head
read_1 b c h = rw h refl

read_2 :
    (b : ℕ) (c : List ℕ)
    → b % 32 ≡ 25
    → read_head (b ∷ c) ≡ read_argument (λ v. ltb 0xff v) 2 (b / 32) c
unfolding read_head
read_2 b c h = rw h refl

read_4 :
    (b : ℕ) (c : List ℕ)
    → b % 32 ≡ 26
    → read_head (b ∷ c) ≡ read_argument (λ v. ltb 0xffff v) 4 (b / 32) c
unfolding read_head
read_4 b c h = rw h refl

read_8 :
    (b : ℕ) (c : List ℕ)
    → b % 32 ≡ 27
    → read_head (b ∷ c) ≡ read_argument (λ v. ltb 0xffff_ffff v) 8 (b / 32) c
unfolding read_head
read_8 b c h = rw h refl

read_reserved : (b : ℕ) (c : List ℕ) → 28 ≤ b % 32 → read_head (b ∷ c) ≡ none
unfolding read_head
read_reserved b c h = ground arith

pub read_be_front :
    (width v : ℕ) (rest : List ℕ)
    → v < 256 ^ width
    → read_be width 0 (be_bytes width v ++ rest) ≡ some (v, rest)
read_be_front width v rest h =
    read_be-be_bytes width 0 v rest
    ∙ ap (λ t. some (t, rest)) (omega (arith, mod-eq_of_lt {n = v} {m = 256 ^ width} h))

read_argument-be_bytes :
    (shortest : ℕ → Bool) (width major v : ℕ) (rest : List ℕ)
    → v < 256 ^ width
    → shortest v ≡ true
    → read_argument shortest width major (be_bytes width v ++ rest) ≡ some (major, v, rest)
read_argument-be_bytes shortest width major v rest h k = rw (read_be_front width v rest h) (rw k)

read_argument_inv :
    (shortest : ℕ → Bool) (width major : ℕ) (c : List ℕ) {m v : ℕ} {rest : List ℕ}
    → All IsByte c
    → read_argument shortest width major c ≡ some (m, v, rest)
    → (m ≡ major) × (shortest v ≡ true) × (v < 256 ^ width) × (c ≡ be_bytes width v ++ rest)
read_argument_inv shortest width major c {m} {v} {rest} h e =
    let (p, eq, after) = >>=-eq-some (read_be width 0 c) _ e in
    let (w, lt, val, bytes) = read_be_inv width 0 c {w = p.0} {rest = p.1} h eq in
    finish p after w lt val bytes
  where
    finish :
        (p : ℕ × List ℕ)
        → if◌then◌else◌ {A = Option (ℕ × ℕ × List ℕ)} (shortest p.0) (some (major, p.0, p.1)) none
          ≡ some (m, v, rest)
        → (w : ℕ) → w < 256 ^ width
        → p.0 ≡ 0 * 256 ^ width + w
        → c ≡ be_bytes width w ++ p.1
        → (m ≡ major) × (shortest v ≡ true) × (v < 256 ^ width) × (c ≡ be_bytes width v ++ rest)
    finish p after w lt val bytes = ground arith

-- A head whose argument follows in bytes of its own; `reader` is the branch that reads it.
module _ (shortest : ℕ → Bool) (width info : ℕ)
    (reader : (b : ℕ) (c : List ℕ)
      → b % 32 ≡ info
      → read_head (b ∷ c) ≡ read_argument shortest width (b / 32) c) where
  wide :
      (major value : ℕ) (rest : List ℕ)
      → info < 32
      → major < 8
      → value < 256 ^ width
      → shortest value ≡ true
      → read_head (u8 (major * 32 + info) ∷ (be_bytes width value ++ rest))
        ≡ some (major, value, rest)
  wide major value rest i h k s =
      reader (u8 (major * 32 + info)) (be_bytes width value ++ rest) (omega arith)
      ∙ read_argument-be_bytes shortest width _ value rest k s
      ∙ ap (λ t. some (t, value, rest)) (omega arith)

  wide_inv :
      (b : ℕ) (c : List ℕ) {m v : ℕ} {rest : List ℕ}
      → b % 32 ≡ info
      → All IsByte (b ∷ c)
      → read_head (b ∷ c) ≡ some (m, v, rest)
      → (m ≡ b / 32)
        × (shortest v ≡ true)
        × (v < 256 ^ width)
        × (b ∷ c ≡ u8 (m * 32 + info) ∷ (be_bytes width v ++ rest))
  wide_inv b c i h e =
      let (eq, short, lt, bytes) =
        read_argument_inv shortest width (b / 32) c h.1 (sym (reader b c i) ∙ e) in
      (eq, short, lt, ap₂ ◌∷◌ (omega arith) bytes)

-- What is written as a head reads back, with whatever follows it left over.
pub read_head-head_bytes :
    (major value : ℕ) (rest : List ℕ)
    → major < 8
    → value < 2 ^ 64
    → read_head (head_bytes major value ++ rest) ≡ some (major, value, rest)
read_head-head_bytes major value rest h k = elim (dec_lt value 24) [
  | yes a ↦ rw (head_0 major value a) (
      read_0 (u8 (major * 32 + value)) rest (omega arith)
      ∙ ap₂ (λ m v. some (m, v, rest)) (omega arith) (omega arith))
  | no a ↦ elim (dec_le value 0xff) [
    | yes b ↦
        rw (head_1 major value (omega arith) b)
          (wide _ 1 24 read_1 major value rest (omega arith) h (omega arith) (ground arith))
    | no b ↦ elim (dec_le value 0xffff) [
      | yes c ↦
          rw (head_2 major value (omega arith) c)
            (wide _ 2 25 read_2 major value rest (omega arith) h (omega arith) (ground arith))
      | no c ↦ elim (dec_le value 0xffff_ffff) [
        | yes d ↦
            rw (head_4 major value (omega arith) d)
              (wide _ 4 26 read_4 major value rest (omega arith) h (omega arith) (ground arith))
        | no d ↦
            rw (head_8 major value (omega arith))
              (wide _ 8 27 read_8 major value rest (omega arith) h (omega arith) (ground arith))
      ]
    ]
  ]
]

-- A head that reads is the head that the encoder writes for its major type and argument.
abbrev Canonical : ℕ → ℕ → List ℕ → List ℕ → Type 0
Canonical m v bs rest = (m < 8) × (v < 2 ^ 64) × (bs ≡ head_bytes m v ++ rest)

Canonical-step :
    (b : ℕ) (c : List ℕ) {m v : ℕ} {rest : List ℕ}
    → All IsByte (b ∷ c)
    → read_head (b ∷ c) ≡ some (m, v, rest)
    → Canonical m v (b ∷ c) rest
Canonical-step b c {m} {v} {rest} h e = elim (dec_lt (b % 32) 24) [
  | yes a ↦ direct a
  | no a ↦ elim (ℕ_discrete (b % 32) 24) [
    | yes i ↦
        let (eq, s, lt, bytes) = wide_inv _ 1 24 read_1 b c i h e in
        (omega arith, omega arith, rw (head_1 m v (ground arith) (omega arith)) bytes)
    | no i ↦ elim (ℕ_discrete (b % 32) 25) [
      | yes j ↦
          let (eq, s, lt, bytes) = wide_inv _ 2 25 read_2 b c j h e in
          (omega arith, omega arith, rw (head_2 m v (ground arith) (omega arith)) bytes)
      | no j ↦ elim (ℕ_discrete (b % 32) 26) [
        | yes k ↦
            let (eq, s, lt, bytes) = wide_inv _ 4 26 read_4 b c k h e in
            (omega arith, omega arith, rw (head_4 m v (ground arith) (omega arith)) bytes)
        | no k ↦ elim (ℕ_discrete (b % 32) 27) [
          | yes l ↦
              let (eq, s, lt, bytes) = wide_inv _ 8 27 read_8 b c l h e in
              (omega arith, omega arith, rw (head_8 m v (ground arith)) bytes)
          | no l ↦ cc (read_reserved b c (omega arith))
        ]
      ]
    ]
  ]
]
  where
    direct : b % 32 < 24 → Canonical m v (b ∷ c) rest
    direct a = ground (arith, read_0 b c a, head_0 m v)

-- The reader takes the shortest form only: a head that it accepts is the one that the encoder
-- writes for the major type and the argument that were read, and nothing else.
pub read_head_canonical :
    (bs : List ℕ) {major value : ℕ} {rest : List ℕ}
    → All IsByte bs
    → read_head bs ≡ some (major, value, rest)
    → (major < 8) × (value < 2 ^ 64) × (bs ≡ head_bytes major value ++ rest)
read_head_canonical [] h e = unfold read_head in cc
read_head_canonical (b ∷ c) h e = Canonical-step b c h e
