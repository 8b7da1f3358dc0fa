-- ===== src/Cbor/Utf8/Scalars.antt =====
-- The validator accepts exactly the UTF-8 forms of sequences of Unicode scalar values.
use zerofido.Base.{
  ℕ, zero, suc, ◌+◌, ◌-◌, ◌*◌, ◌/◌, ◌%◌, ◌<◌, ◌≤◌, ◌≡◌, ◌↔◌, refl, sym, ap, ap₂, ◌∙◌, ◌⊎◌, inl, inr,
  true, false, none, some, List, [], ◌∷◌, ◌++◌, arith, length, All, length-append, Option-cases,
}
use native.Mathlib.Decide.{dec_lt}
use zerofido.Cbor.Utf8.{utf8_step, utf8_loop, utf8_is_valid, IsScalar, utf8_of, utf8_text}
use zerofido.Cbor.Utf8.Ranges.{
  accept_one, accept_two, accept_three, accept_four, Two-inv, Three-inv, Four-inv, step_three,
  step_four, step_beyond, NoSurrogate,
}

of_one : (c : ℕ) → c < 0x80 → utf8_of c ≡ c ∷ []
unfolding utf8_of
of_one c h = ground arith

of_two : (c : ℕ) → 0x80 ≤ c → c < 0x800 → utf8_of c ≡ (0xc0 + c / 64) ∷ (0x80 + c % 64) ∷ []
unfolding utf8_of
of_two c h k = ground arith

of_three :
    (c : ℕ)
    → 0x800 ≤ c
    → c < 0x1_0000
    → utf8_of c ≡ (0xe0 + c / 4096) ∷ (0x80 + c / 64 % 64) ∷ (0x80 + c % 64) ∷ []
unfolding utf8_of
of_three c h k = ground arith

of_four :
    (c : ℕ)
    → 0x1_0000 ≤ c
    → utf8_of c
      ≡ (0xf0 + c / 0x4_0000) ∷ (0x80 + c / 4096 % 64) ∷ (0x80 + c / 64 % 64) ∷ (0x80 + c % 64) ∷ []
unfolding utf8_of
of_four c h = ground arith

pub loop_step :
    (fuel lead : ℕ) (s : List ℕ) {rest : List ℕ}
    → utf8_step lead s ≡ some rest
    → utf8_loop (suc fuel) (lead ∷ s) ≡ utf8_loop fuel rest
unfolding utf8_loop
loop_step fuel lead s e = rw (e, utf8_loop)

loop_stop :
    (fuel lead : ℕ) (s : List ℕ) → utf8_step lead s ≡ none → utf8_loop (suc fuel) (lead ∷ s) ≡ false
unfolding utf8_loop
loop_stop fuel lead s e = rw (e, utf8_loop)

no_surrogate :
    (c : ℕ) → (c < 0xd800) ⊎ (0xe000 ≤ c) → NoSurrogate (0xe0 + c / 4096) (0x80 + c / 64 % 64)
no_surrogate c (inl h) = inl (omega arith)
no_surrogate c (inr h) = inr (omega arith)

-- The loop's body steps over the form of one scalar value.
abbrev pub StepsOver : ℕ → List ℕ → Type 0
StepsOver c rest =
    (lead : ℕ) × (s : List ℕ) × (utf8_of c ++ rest ≡ lead ∷ s) × (utf8_step lead s ≡ some rest)

pub utf8_step-utf8_of : (c : ℕ) (rest : List ℕ) → IsScalar c → StepsOver c rest
utf8_step-utf8_of c rest h = elim (dec_lt c 0x80) [
  | yes a ↦ (c, rest, rw (of_one c a), accept_one c rest a)
  | no a ↦ elim (dec_lt c 0x800) [
    | yes b ↦ (
      0xc0 + c / 64,
      (0x80 + c % 64) ∷ rest,
      rw (of_two c (omega arith) b),
      accept_two _ _ rest (omega arith) (omega arith) (omega arith),
    )
    | no b ↦ elim (dec_lt c 0x1_0000) [
      | yes d ↦ (
        0xe0 + c / 4096,
        (0x80 + c / 64 % 64) ∷ (0x80 + c % 64) ∷ rest,
        rw (of_three c (omega arith) d),
        accept_three _ _ _ rest (omega arith) (omega arith) (omega arith) (omega arith)
            (no_surrogate c h.1),
      )
      | no d ↦ (
        0xf0 + c / 0x4_0000,
        (0x80 + c / 4096 % 64) ∷ (0x80 + c / 64 % 64) ∷ (0x80 + c % 64) ∷ rest,
        rw (of_four c (omega arith)),
        accept_four _ _ _ _ rest (omega arith) (omega arith) (omega arith) (omega arith)
            (omega arith),
      )
    ]
  ]
]

round :
    (fuel c : ℕ) (rest : List ℕ)
    → IsScalar c
    → utf8_loop (suc fuel) (utf8_of c ++ rest) ≡ utf8_loop fuel rest
round fuel c rest h =
    let (lead, s, bytes, e) = utf8_step-utf8_of c rest h in
    ap (utf8_loop (suc fuel)) bytes ∙ loop_step fuel lead s e

-- The form of a scalar value from its bytes.
form_two :
    (lead a : ℕ)
    → 0xc2 ≤ lead
    → lead < 0xe0
    → a / 64 ≡ 2
    → (c : ℕ) × IsScalar c × (utf8_of c ≡ lead ∷ a ∷ [])
form_two lead a h k l =
    let c : ℕ = (lead - 0xc0) * 64 + (a - 0x80) in
    (
      c,
      (omega arith, inl (omega arith)),
      of_two c (omega arith) (omega arith) ∙ ap₂ (λ x y. x ∷ y ∷ []) (omega arith) (omega arith),
    )

scalar_three :
    (lead a b : ℕ)
    → 0xe0 ≤ lead
    → lead < 0xf0
    → a / 64 ≡ 2
    → b / 64 ≡ 2
    → NoSurrogate lead a
    → let c = (lead - 0xe0) * 4096 + (a - 0x80) * 64 + (b - 0x80) in (c < 0xd800) ⊎ (0xe000 ≤ c)
scalar_three lead a b h k l m (inl n) = inl (omega arith)
scalar_three lead a b h k l m (inr n) = inr (omega arith)

form_three :
    (lead a b : ℕ)
    → lead < 0xf0
    → a / 64 ≡ 2
    → b / 64 ≡ 2
    → 0xe0 * 64 + 0xa0 ≤ lead * 64 + a
    → NoSurrogate lead a
    → (c : ℕ) × IsScalar c × (utf8_of c ≡ lead ∷ a ∷ b ∷ [])
form_three lead a b h k l m n =
    let c : ℕ = (lead - 0xe0) * 4096 + (a - 0x80) * 64 + (b - 0x80) in
    (
      c,
      (omega arith, scalar_three lead a b (omega arith) h k l n),
      of_three c (omega arith) (omega arith) ∙ bytes_eq (omega arith) (omega arith) (omega arith),
    )
  where
    bytes_eq : {x y z u v w : ℕ} → x ≡ u → y ≡ v → z ≡ w → x ∷ y ∷ z ∷ [] ≡ u ∷ v ∷ w ∷ []
    bytes_eq p q r = ground arith

form_four :
    (lead a b c : ℕ)
    → a / 64 ≡ 2
    → b / 64 ≡ 2
    → c / 64 ≡ 2
    → 0xf0 * 64 + 0x90 ≤ lead * 64 + a
    → lead * 64 + a < 0xf4 * 64 + 0x90
    → (d : ℕ) × IsScalar d × (utf8_of d ≡ lead ∷ a ∷ b ∷ c ∷ [])
form_four lead a b c h k l m n =
    let d : ℕ = (lead - 0xf0) * 0x4_0000 + (a - 0x80) * 4096 + (b - 0x80) * 64 + (c - 0x80) in
    (
      d,
      (omega arith, inr (omega arith)),
      of_four d (omega arith) ∙ bytes_eq (omega arith) (omega arith) (omega arith) (omega arith),
    )
  where
    bytes_eq :
        {x y z t u v w s : ℕ}
        → x ≡ u
        → y ≡ v
        → z ≡ w
        → t ≡ s
        → x ∷ y ∷ z ∷ t ∷ [] ≡ u ∷ v ∷ w ∷ s ∷ []
    bytes_eq p q r o = ground arith

-- What a round steps over is the form of one scalar value.
pub form :
    (lead : ℕ) (s : List ℕ) {rest : List ℕ}
    → utf8_step lead s ≡ some rest
    → (c : ℕ) × IsScalar c × (lead ∷ s ≡ utf8_of c ++ rest)
form lead s {rest} e = elim (dec_lt lead 0x80) [
  | yes h ↦ (lead, (omega arith, inl (omega arith)), rw (of_one lead h) (cc (accept_one lead s h)))
  | no h ↦ elim (dec_lt lead 0xe0) [
    | yes k ↦
        let (a, eq, l, m) = Two-inv lead s (omega arith) k e in
        let (c, scalar, bytes) = form_two lead a m k l in (c, scalar, rw (bytes, eq))
    | no k ↦ elim (dec_lt lead 0xf0) [
      | yes l ↦
          let (a, b, eq, m, n, o, p) =
            Three-inv lead s {rest = rest} (omega arith) (cc (step_three lead s (omega arith) l)) in
          let (c, scalar, bytes) = form_three lead a b l m n o p in (c, scalar, rw (bytes, eq))
      | no l ↦ elim (dec_lt lead 0xf5) [
        | yes m ↦
            let (a, b, c, eq, n, o, p, q, r) =
              Four-inv lead s {rest = rest} (omega arith) m
                (cc (step_four lead s (omega arith) m)) in
            let (d, scalar, bytes) = form_four lead a b c n o p q r in (d, scalar, rw (bytes, eq))
        | no m ↦ absurd (cc (step_beyond lead s (omega arith)))
      ]
    ]
  ]
]

pub length-utf8_of : (c : ℕ) → 0 < length (utf8_of c)
unfolding utf8_of
length-utf8_of c = ground arith

utf8_loop-utf8_text :
    (fuel : ℕ) (cs : List ℕ)
    → All IsScalar cs
    → length (utf8_text cs) ≤ fuel
    → utf8_loop fuel (utf8_text cs) ≡ true
unfolding utf8_text
utf8_loop-utf8_text fuel [] h k = unfold utf8_loop in refl
utf8_loop-utf8_text zero (c ∷ cs) h k =
    absurd (omega (arith, length-utf8_of c, length-append (utf8_of c) (utf8_text cs)))
utf8_loop-utf8_text (suc fuel) (c ∷ cs) h k =
    round fuel c (utf8_text cs) h.0
    ∙ utf8_loop-utf8_text fuel cs h.1
        (omega (arith, length-utf8_of c, length-append (utf8_of c) (utf8_text cs)))

utf8_is_valid-utf8_text : (cs : List ℕ) → All IsScalar cs → utf8_is_valid (utf8_text cs) ≡ true
unfolding utf8_is_valid
utf8_is_valid-utf8_text cs h = utf8_loop-utf8_text _ cs h (omega arith)

utf8_loop_form :
    (fuel : ℕ) (s : List ℕ)
    → utf8_loop fuel s ≡ true
    → (cs : List ℕ) × All IsScalar cs × (s ≡ utf8_text cs)
unfolding utf8_loop utf8_text
utf8_loop_form fuel [] h = ([], tt, refl)
utf8_loop_form zero (lead ∷ s) h = cc
utf8_loop_form (suc fuel) (lead ∷ s) h = elim (Option-cases (utf8_step lead s)) [
  | inl e ↦ cc (loop_stop fuel lead s e)
  | inr (rest, e) ↦
      let (cs, all, eq) = utf8_loop_form fuel rest (sym (loop_step fuel lead s e) ∙ h) in
      let (c, scalar, bytes) = form lead s e in
      (c ∷ cs, (scalar, all), bytes ∙ ap (λ t. utf8_of c ++ t) eq)
]

-- A text is accepted exactly if it is the UTF-8 form of a sequence of Unicode scalar values: no
-- overlong form, no surrogate, nothing above U+10FFFF and no form that is cut off.
pub utf8_is_valid_iff :
    (text : List ℕ)
    → (utf8_is_valid text ≡ true) ↔ ((cs : List ℕ) × All IsScalar cs × (text ≡ utf8_text cs))
utf8_is_valid_iff text = (
  λ h. unfold utf8_is_valid in utf8_loop_form _ text h,
  λ (cs, all, eq). ap utf8_is_valid eq ∙ utf8_is_valid-utf8_text cs all,
)
