-- ===== src/Cbor/Utf8/Ranges.antt =====
-- The body of the validator's loop, by the number of bytes that it steps over.
use zerofido.Base.{
  ℕ, ◌+◌, ◌*◌, ◌/◌, ◌<◌, ◌≤◌, ◌≡◌, ◌⊎◌, inl, inr, Bool, true, none, some, List, [], ◌∷◌, arith,
  ◌==◌, if◌then◌else◌, Bool-cases,
}
use zerofido.Cbor.Utf8.{is_continuation, within, two_more, three_more, utf8_step}

-- The loop body on whole forms, by classes of lead bytes.
pub accept_one : (lead : ℕ) (s : List ℕ) → lead < 0x80 → utf8_step lead s ≡ some s
unfolding utf8_step
accept_one lead s h = ground arith

pub accept_two :
    (lead a : ℕ) (s : List ℕ)
    → 0xc2 ≤ lead
    → lead ≤ 0xdf
    → a / 64 ≡ 2
    → utf8_step lead (a ∷ s) ≡ some s
unfolding utf8_step
accept_two lead a s h k l = ground arith

-- Neither a form of a number below 0x800, nor one of a surrogate.
abbrev pub NoSurrogate : ℕ → ℕ → Type 0
NoSurrogate lead a = (lead * 64 + a < 0xed * 64 + 0xa0) ⊎ (0xee * 64 + 0x80 ≤ lead * 64 + a)

pub accept_three :
    (lead a b : ℕ) (s : List ℕ)
    → lead ≤ 0xef
    → a / 64 ≡ 2
    → b / 64 ≡ 2
    → 0xe0 * 64 + 0xa0 ≤ lead * 64 + a
    → NoSurrogate lead a
    → utf8_step lead (a ∷ b ∷ s) ≡ some s
unfolding utf8_step
accept_three lead a b s h k l m n = ground arith

pub accept_four :
    (lead a b c : ℕ) (s : List ℕ)
    → a / 64 ≡ 2
    → b / 64 ≡ 2
    → c / 64 ≡ 2
    → 0xf0 * 64 + 0x90 ≤ lead * 64 + a
    → lead * 64 + a < 0xf4 * 64 + 0x90
    → utf8_step lead (a ∷ b ∷ c ∷ s) ≡ some s
unfolding utf8_step
accept_four lead a b c s h k l m n = ground arith

-- The code's ranges are no wider.
pub second_of_three : ℕ → ℕ → Bool
second_of_three lead a =
    if lead == 0xe0
    then within 0xa0 0xbf a
    else if lead == 0xed
    then within 0x80 0x9f a
    else is_continuation a

pub step_three :
    (lead : ℕ) (s : List ℕ)
    → 0xe0 ≤ lead
    → lead < 0xf0
    → utf8_step lead s ≡ two_more (second_of_three lead) s
unfolding utf8_step second_of_three
step_three lead [] h k = ground arith
step_three lead (a ∷ []) h k = ground arith
step_three lead (a ∷ b ∷ s) h k = ground arith

pub second_of_four : ℕ → ℕ → Bool
second_of_four lead a =
    if lead == 0xf0
    then within 0x90 0xbf a
    else if lead == 0xf4
    then within 0x80 0x8f a
    else is_continuation a

pub step_four :
    (lead : ℕ) (s : List ℕ)
    → 0xf0 ≤ lead
    → lead < 0xf5
    → utf8_step lead s ≡ three_more (second_of_four lead) s
unfolding utf8_step second_of_four
step_four lead [] h k = ground arith
step_four lead (a ∷ []) h k = ground arith
step_four lead (a ∷ b ∷ []) h k = ground arith
step_four lead (a ∷ b ∷ c ∷ s) h k = ground arith

pub step_beyond : (lead : ℕ) (s : List ℕ) → 0xf5 ≤ lead → utf8_step lead s ≡ none
unfolding utf8_step
step_beyond lead s h = ground arith

second_of_three_inv :
    (lead a : ℕ)
    → 0xe0 ≤ lead
    → second_of_three lead a ≡ true
    → (a / 64 ≡ 2) × (0xe0 * 64 + 0xa0 ≤ lead * 64 + a) × NoSurrogate lead a
unfolding second_of_three
second_of_three_inv lead a h e = ground arith

second_of_four_inv :
    (lead a : ℕ)
    → 0xf0 ≤ lead
    → lead < 0xf5
    → second_of_four lead a ≡ true
    → (a / 64 ≡ 2) × (0xf0 * 64 + 0x90 ≤ lead * 64 + a) × (lead * 64 + a < 0xf4 * 64 + 0x90)
unfolding second_of_four
second_of_four_inv lead a h k e = ground arith

-- What a round of the loop takes off the text, as the ranges of the forms.
abbrev pub Two : ℕ → List ℕ → List ℕ → Type 0
Two lead s rest = (a : ℕ) × (s ≡ a ∷ rest) × (a / 64 ≡ 2) × (0xc2 ≤ lead)

abbrev pub Three : ℕ → List ℕ → List ℕ → Type 0
Three lead s rest =
    (a : ℕ) × (b : ℕ) × (s ≡ a ∷ b ∷ rest)
    × (a / 64 ≡ 2)
    × (b / 64 ≡ 2)
    × (0xe0 * 64 + 0xa0 ≤ lead * 64 + a)
    × NoSurrogate lead a

abbrev pub Four : ℕ → List ℕ → List ℕ → Type 0
Four lead s rest =
    (a : ℕ) × (b : ℕ) × (c : ℕ) × (s ≡ a ∷ b ∷ c ∷ rest)
    × (a / 64 ≡ 2)
    × (b / 64 ≡ 2)
    × (c / 64 ≡ 2)
    × (0xf0 * 64 + 0x90 ≤ lead * 64 + a)
    × (lead * 64 + a < 0xf4 * 64 + 0x90)

pub Two-inv :
    (lead : ℕ) (s : List ℕ) {rest : List ℕ}
    → 0x80 ≤ lead
    → lead < 0xe0
    → utf8_step lead s ≡ some rest
    → Two lead s rest
unfolding utf8_step
Two-inv lead [] h k e = ground arith
Two-inv lead (a ∷ s) h k e = (a, ground arith, ground arith, ground arith)

pub Three-inv :
    (lead : ℕ) (s : List ℕ) {rest : List ℕ}
    → 0xe0 ≤ lead
    → two_more (second_of_three lead) s ≡ some rest
    → Three lead s rest
Three-inv lead [] h e = cc
Three-inv lead (a ∷ []) h e = cc
Three-inv lead (a ∷ b ∷ s) h e = elim (Bool-cases (second_of_three lead a)) [
  | inl t ↦
      let (r, q, n) = second_of_three_inv lead a h t in (a, b, ground arith, r, ground arith, q, n)
  | inr f ↦ ground arith
]

pub Four-inv :
    (lead : ℕ) (s : List ℕ) {rest : List ℕ}
    → 0xf0 ≤ lead
    → lead < 0xf5
    → three_more (second_of_four lead) s ≡ some rest
    → Four lead s rest
Four-inv lead [] h k e = cc
Four-inv lead (a ∷ []) h k e = cc
Four-inv lead (a ∷ b ∷ []) h k e = cc
Four-inv lead (a ∷ b ∷ c ∷ s) h k e = elim (Bool-cases (second_of_four lead a)) [
  | inl t ↦
      let (r, q, n) = second_of_four_inv lead a h k t in
      (a, b, c, ground arith, r, ground arith, ground arith, q, n)
  | inr f ↦ ground arith
]
