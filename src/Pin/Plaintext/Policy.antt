-- ===== src/Pin/Plaintext/Policy.antt =====
-- Which PINs the policy accepts, and which blocks carry one.
use zerofido.Base.{
  ℕ, zero, suc, ◌+◌, ◌<◌, ◌≤◌, ◌≡◌, ◌↔◌, ◌≢◌, refl, sym, ap, ◌∙◌, true, none, some, List, [], ◌∷◌,
  ◌++◌, arith, length, All, replicate, Option-cases, inl, inr, length-append, length-replicate,
}
use zerofido.Cbor.Utf8.{utf8_step, IsScalar, utf8_of, utf8_text}
use zerofido.Cbor.Utf8.Scalars.{form, utf8_step-utf8_of, length-utf8_of}
use native.Mathlib.Decide.{ℕ_discrete}
use zerofido.Ctap.Status.{success}
use zerofido.Pin.Plaintext.{
  count_loop, validate_utf8, validate_plaintext_policy, unpadded_length, is_zero_from,
  validate_plaintext_block,
}

count_step :
    (fuel count lead : ℕ) (s : List ℕ) {rest : List ℕ}
    → utf8_step lead s ≡ some rest
    → count_loop (suc fuel) count (lead ∷ s) ≡ count_loop fuel (count + 1) rest
unfolding count_loop
count_step fuel count lead s e = rw (e, count_loop)

count_stop :
    (fuel count lead : ℕ) (s : List ℕ)
    → utf8_step lead s ≡ none
    → count_loop (suc fuel) count (lead ∷ s) ≡ none
unfolding count_loop
count_stop fuel count lead s e = rw (e, count_loop)

count_loop_form :
    (fuel count : ℕ) (s : List ℕ) {n : ℕ}
    → count_loop fuel count s ≡ some n
    → (cs : List ℕ) × All IsScalar cs × (s ≡ utf8_text cs) × (n ≡ count + length cs)
unfolding count_loop utf8_text
count_loop_form fuel count [] e = ([], tt, refl, ground arith)
count_loop_form zero count (lead ∷ s) e = cc
count_loop_form (suc fuel) count (lead ∷ s) {n} e = elim (Option-cases (utf8_step lead s)) [
  | inl f ↦ cc (count_stop fuel count lead s f)
  | inr (rest, f) ↦
      let (cs, all, eq, total) =
        count_loop_form fuel (count + 1) rest {n = n} (sym (count_step fuel count lead s f) ∙ e) in
      let (c, scalar, bytes) = form lead s f in
      (c ∷ cs, (scalar, all), bytes ∙ ap (λ t. utf8_of c ++ t) eq, omega arith)
]

count_loop-utf8_text :
    (fuel count : ℕ) (cs : List ℕ)
    → All IsScalar cs
    → length (utf8_text cs) ≤ fuel
    → count_loop fuel count (utf8_text cs) ≡ some (count + length cs)
unfolding utf8_text
count_loop-utf8_text fuel count [] h k = unfold count_loop in ap some (omega arith)
count_loop-utf8_text zero count (c ∷ cs) h k =
    absurd (omega (arith, length-utf8_of c, length-append (utf8_of c) (utf8_text cs)))
count_loop-utf8_text (suc fuel) count (c ∷ cs) h k =
    let (lead, s, bytes, e) = utf8_step-utf8_of c (utf8_text cs) h.0 in
    ap (count_loop (suc fuel) count) bytes
    ∙ count_step fuel count lead s e
    ∙ count_loop-utf8_text fuel (count + 1) cs h.1
        (omega (arith, length-utf8_of c, length-append (utf8_of c) (utf8_text cs)))
    ∙ ap some (omega arith)

length-le-utf8_text : (cs : List ℕ) → length cs ≤ length (utf8_text cs)
unfolding utf8_text
length-le-utf8_text [] = omega arith
length-le-utf8_text (c ∷ cs) =
    omega
      (arith, length-utf8_of c, length-append (utf8_of c) (utf8_text cs), length-le-utf8_text cs)

validate_plaintext_policy_sound :
    (pin : List ℕ)
    → validate_plaintext_policy pin ≡ success
    → (cs : List ℕ) × All IsScalar cs × (pin ≡ utf8_text cs) × (4 ≤ length cs) × (length pin ≤ 63)
unfolding validate_plaintext_policy validate_utf8
validate_plaintext_policy_sound pin e = elim (Option-cases (count_loop (length pin) 0 pin)) [
  | inl f ↦ absurd (ground arith)
  | inr (n, f) ↦
      let (cs, all, eq, total) = count_loop_form (length pin) 0 pin f in
      (cs, all, eq, ground arith, ground arith)
]

validate_plaintext_policy_complete :
    (cs : List ℕ)
    → All IsScalar cs
    → 4 ≤ length cs
    → length (utf8_text cs) ≤ 63
    → validate_plaintext_policy (utf8_text cs) ≡ success
unfolding validate_plaintext_policy validate_utf8
validate_plaintext_policy_complete cs all h k = ground (
  arith,
  length-le-utf8_text cs,
  count_loop-utf8_text (length (utf8_text cs)) 0 cs all (omega arith),
)

-- The policy accepts a PIN exactly if it is the UTF-8 form of at least four Unicode scalar values,
-- in at most 63 bytes.
pub validate_plaintext_policy_iff :
    (pin : List ℕ)
    → (validate_plaintext_policy pin ≡ success) ↔ (
        (cs : List ℕ) × All IsScalar cs
        × (pin ≡ utf8_text cs)
        × (4 ≤ length cs)
        × (length pin ≤ 63))
validate_plaintext_policy_iff pin = (
  validate_plaintext_policy_sound pin,
  λ (cs, all, eq, enough, short).
      ap validate_plaintext_policy eq
      ∙ validate_plaintext_policy_complete cs all enough (omega (arith, ap length eq)),
)

-- A block of a PIN without zero bytes, and the zeros that pad it.
abbrev IsNonzero : ℕ → Type 0
IsNonzero c = c ≢ 0

all_zeros : (block : List ℕ) → is_zero_from 0 block ≡ true → block ≡ replicate (length block) 0
unfolding is_zero_from
all_zeros [] e = refl
all_zeros (c ∷ block) e = ground (arith, all_zeros block)

abbrev Padded : List ℕ → ℕ → Type 0
Padded block n =
    (pin : List ℕ) × (k : ℕ) × All IsNonzero pin × (block ≡ pin ++ replicate k 0) × (length pin ≡ n)

block_form :
    (block : List ℕ)
    → is_zero_from (unpadded_length block) block ≡ true
    → Padded block (unpadded_length block)
unfolding is_zero_from unpadded_length
block_form [] e = ([], 0, tt, refl, refl)
block_form (c ∷ block) e = elim (ℕ_discrete c 0) [
  | yes z ↦ ([], suc (length block), tt, ground (arith, all_zeros block), ground arith)
  | no nz ↦
      let (pin, k, all, eq, len) = block_form block (ground arith) in
      (c ∷ pin, k, (nz, all), ap (λ t. c ∷ t) eq, ground arith)
]

unpadded_length-append :
    (pin : List ℕ) (k : ℕ) → All IsNonzero pin → unpadded_length (pin ++ replicate k 0) ≡ length pin
unfolding unpadded_length
unpadded_length-append [] zero h = refl
unpadded_length-append [] (suc k) h = refl
unpadded_length-append (c ∷ pin) k h = ground (arith, unpadded_length-append pin k)

is_zero_from-append :
    (pin : List ℕ) (k : ℕ) → is_zero_from (length pin) (pin ++ replicate k 0) ≡ true
unfolding is_zero_from
is_zero_from-append [] zero = refl
is_zero_from-append [] (suc k) = is_zero_from-append [] k
is_zero_from-append (c ∷ pin) k = is_zero_from-append pin k

validate_plaintext_block_sound :
    (block : List ℕ) (n : ℕ)
    → validate_plaintext_block block ≡ some n
    → (pin : List ℕ) × (k : ℕ) × All IsNonzero pin
      × (block ≡ pin ++ replicate k 0)
      × (length pin ≡ n)
      × (n ≤ 63)
      × (0 < k)
unfolding validate_plaintext_block
validate_plaintext_block_sound block n e =
    let (pin, k, all, eq, len) = block_form block (ground arith) in
    let total : length block ≡ length pin + k =
      ap length eq
      ∙ length-append pin (replicate k 0)
      ∙ omega (arith, length-replicate {A = ℕ} k 0) in
    (pin, k, all, eq, ground arith, ground arith, ground arith)

validate_plaintext_block_complete :
    (pin : List ℕ) (k : ℕ)
    → All IsNonzero pin
    → length pin ≤ 63
    → 0 < k
    → validate_plaintext_block (pin ++ replicate k 0) ≡ some (length pin)
unfolding validate_plaintext_block
validate_plaintext_block_complete pin k all h pos = ground (
  arith,
  unpadded_length-append pin k all,
  is_zero_from-append pin k,
  length-append pin (replicate k 0),
  length-replicate {A = ℕ} k 0,
)

-- A block is accepted with length `n` exactly if it is a PIN of `n` bytes, at most 63 and none of
-- them zero, followed by at least one zero and nothing else.
validate_plaintext_block_iff :
    (block : List ℕ) (n : ℕ)
    → (validate_plaintext_block block ≡ some n) ↔ (
        (pin : List ℕ) × (k : ℕ) × All IsNonzero pin
        × (block ≡ pin ++ replicate k 0)
        × (length pin ≡ n)
        × (n ≤ 63)
        × (0 < k))
validate_plaintext_block_iff block n = (
  validate_plaintext_block_sound block n,
  λ (pin, k, all, eq, len, short, pos).
      ap validate_plaintext_block eq
      ∙ validate_plaintext_block_complete pin k all (omega (arith, len)) pos
      ∙ ap some len,
)

-- The policy accepts a PIN exactly if it is the UTF-8 form of at least four Unicode scalar values, in
-- at most 63 bytes. A padded block is accepted with length `n` exactly if it is a PIN of `n` bytes, at
-- most 63 and none of them zero, followed by at least one zero and nothing else.
pub plaintext_checks_iff :
    (pin block : List ℕ) (n : ℕ)
    → ((validate_plaintext_policy pin ≡ success) ↔ (
        (cs : List ℕ) × All IsScalar cs
        × (pin ≡ utf8_text cs)
        × (4 ≤ length cs)
        × (length pin ≤ 63)))
      × ((validate_plaintext_block block ≡ some n) ↔ (
          (padded : List ℕ) × (k : ℕ) × All IsNonzero padded
          × (block ≡ padded ++ replicate k 0)
          × (length padded ≡ n)
          × (n ≤ 63)
          × (0 < k)))
plaintext_checks_iff pin block n =
    (validate_plaintext_policy_iff pin, validate_plaintext_block_iff block n)
