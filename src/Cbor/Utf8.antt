-- ===== src/Cbor/Utf8.antt =====
-- `zf_cbor_utf8_is_valid` of zerofido_cbor.c, and the encoding form UTF-8 that it is checked against.
pub mod Ranges
pub mod Scalars
use zerofido.Base.{
  ℕ, zero, suc, ◌+◌, ◌/◌, ◌%◌, ◌<◌, ◌≤◌, ◌≡◌, ◌⊎◌, Bool, true, false, ◌&&◌, ◌||◌, Option, none,
  some, List, [], ◌∷◌, ◌++◌, arith, ltb, leb, ◌==◌, if◌then◌else◌, length,
}

-- `(byte & 0xC0) == 0x80`
abbrev pub is_continuation : ℕ → Bool
is_continuation byte = byte / 64 == 2

abbrev pub within : ℕ → ℕ → ℕ → Bool
within lo hi byte = leb lo byte && leb byte hi

-- The bytes behind a lead byte: how many there are, and what is asked of the first of them.
abbrev pub one_more : List ℕ → Option (List ℕ)
one_more [] = none
one_more (a ∷ s) = if is_continuation a then some s else none

abbrev pub two_more : (ℕ → Bool) → List ℕ → Option (List ℕ)
two_more first [] = none
two_more first (a ∷ []) = none
two_more first (a ∷ b ∷ s) = if first a && is_continuation b then some s else none

abbrev pub three_more : (ℕ → Bool) → List ℕ → Option (List ℕ)
three_more first [] = none
three_more first (a ∷ []) = none
three_more first (a ∷ b ∷ []) = none
three_more first (a ∷ b ∷ c ∷ s) =
    if first a && is_continuation b && is_continuation c then some s else none

-- The body of the loop on the bytes from index `i` on: the bytes from the next index on, or `none`
-- for `return false`.
unfoldable pub utf8_step : ℕ → List ℕ → Option (List ℕ)
utf8_step lead s =
    if leb lead 0x7f
    then some s
    else if within 0xc2 0xdf lead
    then one_more s
    else if lead == 0xe0
    then two_more (within 0xa0 0xbf) s
    else if within 0xe1 0xec lead || within 0xee 0xef lead
    then two_more is_continuation s
    else if lead == 0xed
    then two_more (within 0x80 0x9f) s
    else if lead == 0xf0
    then three_more (within 0x90 0xbf) s
    else if within 0xf1 0xf3 lead
    then three_more is_continuation s
    else if lead == 0xf4
    then three_more (within 0x80 0x8f) s
    else none

-- Every round takes a byte at least, so the length of the text is fuel enough.
unfoldable pub utf8_loop : ℕ → List ℕ → Bool
utf8_loop fuel [] = true
utf8_loop zero (lead ∷ s) = false
utf8_loop (suc fuel) (lead ∷ s) = elim (utf8_step lead s) [
  | none ↦ false
  | some rest ↦ utf8_loop fuel rest
]

unfoldable pub utf8_is_valid : List ℕ → Bool
utf8_is_valid text = utf8_loop (length text) text

-- The Unicode scalar values: all code points but the surrogates.
abbrev pub IsScalar : ℕ → Type 0
IsScalar c = (c < 0x11_0000) × ((c < 0xd800) ⊎ (0xe000 ≤ c))

-- The UTF-8 form of one code point, by ranges, as the Unicode standard tabulates it.
unfoldable pub utf8_of : ℕ → List ℕ
utf8_of c =
    if ltb c 0x80
    then c ∷ []
    else if ltb c 0x800
    then (0xc0 + c / 64) ∷ (0x80 + c % 64) ∷ []
    else if ltb c 0x1_0000
    then (0xe0 + c / 4096) ∷ (0x80 + c / 64 % 64) ∷ (0x80 + c % 64) ∷ []
    else (0xf0 + c / 0x4_0000)
      ∷ (0x80 + c / 4096 % 64)
      ∷ (0x80 + c / 64 % 64)
      ∷ (0x80 + c % 64)
      ∷ []

unfoldable pub utf8_text : List ℕ → List ℕ
utf8_text [] = []
utf8_text (c ∷ cs) = utf8_of c ++ utf8_text cs
