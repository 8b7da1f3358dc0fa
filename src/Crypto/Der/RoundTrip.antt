-- ===== src/Crypto/Der/RoundTrip.antt =====
-- A signature that is encoded decodes to the two numbers that it was made of.
use zerofido.Base.{
  ℕ, zero, suc, ◌+◌, ◌-◌, ◌≤◌, ◌<◌, ◌≡◌, refl, ap, ap₂, ◌∙◌, true, false, some, List, [], ◌∷◌, ◌++◌,
  inl, inr, Bool-cases, arith, ltb, ◌==◌, length, take, drop, replicate, u8, All, IsByte,
  length-append, append_assoc, take-append,
}
use zerofido.Base.Cuts.{drop-append_add}
use zerofido.Crypto.Der.{
  public_key_len, high_bit, skip_zeros, int_content, der_encode_int, encode_signature,
  der_decode_length, trim, der_decode_int_fixed, decode_signature,
}

-- What is left behind the zeros that are skipped.
skip_zeros_lem :
    (value : List ℕ)
    → (n : ℕ) × (replicate n 0 ++ skip_zeros value ≡ value)
      × (n + length (skip_zeros value) ≡ length value)
unfolding skip_zeros
skip_zeros_lem [] = (0, refl, omega arith)
skip_zeros_lem (byte ∷ []) = (0, refl, omega arith)
skip_zeros_lem (byte ∷ next ∷ value) = elim (Bool-cases (byte == 0)) [
  | inl z ↦
      let (n, e, len) = skip_zeros_lem (next ∷ value) in
      rw z (suc n, ap₂ ◌∷◌ (ground arith) e, omega arith)
  | inr nz ↦ rw nz (0, refl, omega arith)
]

skip_zeros-pos : (byte : ℕ) (value : List ℕ) → 0 < length (skip_zeros (byte ∷ value))
unfolding skip_zeros
skip_zeros-pos byte [] = omega arith
skip_zeros-pos byte (next ∷ value) = elim (Bool-cases (byte == 0)) [
  | inl z ↦ rw z (skip_zeros-pos next value)
  | inr nz ↦ rw nz (omega arith)
]

skip_zeros-All : (value : List ℕ) → All IsByte value → All IsByte (skip_zeros value)
unfolding skip_zeros
skip_zeros-All [] h = h
skip_zeros-All (byte ∷ []) h = h
skip_zeros-All (byte ∷ next ∷ value) h = elim (Bool-cases (byte == 0)) [
  | inl z ↦ rw z (skip_zeros-All (next ∷ value) h.1)
  | inr nz ↦ rw nz h
]

-- What the decoder makes of the content of an integer.
restored : List ℕ → List ℕ
restored content = let value = trim content in replicate (public_key_len - length value) 0 ++ value

-- The header of a short value.
header :
    (tag len : ℕ) (input : List ℕ)
    → len < 128
    → len ≤ length input
    → der_decode_length (tag ∷ len ∷ input) ≡ some (2, len)
unfolding der_decode_length
header tag len input h l = ground arith

trim_fits : (value : List ℕ) → length value ≤ public_key_len → trim value ≡ value
unfolding trim
trim_fits [] h = refl
trim_fits (byte ∷ value) h =
    let off : ltb public_key_len (length (byte ∷ value)) ≡ false = ground arith in rw off refl

trim_zero : (value : List ℕ) → length value ≡ public_key_len → trim (0 ∷ value) ≡ value
unfolding trim
trim_zero value h =
    let on : ltb public_key_len (length (0 ∷ value)) ≡ true = ground arith in
    rw on (trim_fits value (omega arith))

replicate-cons : (k x : ℕ) (a : List ℕ) → replicate k x ++ (x ∷ a) ≡ replicate (suc k) x ++ a
replicate-cons zero x a = refl
replicate-cons (suc k) x a = ap (λ t. x ∷ t) (replicate-cons k x a)

abbrev Restores : List ℕ → List ℕ → Type 0
Restores content value = (length (trim content) ≤ public_key_len) × (restored content ≡ value)

Restores-plain :
    (n : ℕ) (a value : List ℕ)
    → n + length a ≡ public_key_len
    → replicate n 0 ++ a ≡ value
    → Restores a value
unfolding restored
Restores-plain n a value len e =
    let k : public_key_len - length a ≡ n = omega arith in
    rw (trim_fits a (omega arith)) (omega arith, rw k e)

Restores-zero :
    (n : ℕ) (a value : List ℕ)
    → n + length a ≡ public_key_len
    → replicate n 0 ++ a ≡ value
    → Restores (0 ∷ a) value
unfolding restored
Restores-zero zero a value len e =
    let k : public_key_len - length a ≡ 0 = omega arith in
    rw (trim_zero a (omega arith)) (omega arith, rw k e)
Restores-zero (suc n) a value len e =
    Restores-plain n (0 ∷ a) value (omega arith) (replicate-cons n 0 a ∙ e)

int_content-Restores :
    (n : ℕ) (a value : List ℕ)
    → n + length a ≡ public_key_len
    → replicate n 0 ++ a ≡ value
    → Restores (int_content a) value
int_content-Restores n [] value len e = Restores-plain n [] value len e
int_content-Restores n (byte ∷ a) value len e = elim (Bool-cases (high_bit byte)) [
  | inl high ↦ rw high (Restores-zero n (byte ∷ a) value len e)
  | inr low ↦ rw low (Restores-plain n (byte ∷ a) value len e)
]

length-int_content :
    (a : List ℕ)
    → 0 < length a
    → (0 < length (int_content a)) × (length (int_content a) ≤ length a + 1)
length-int_content [] h = absurd (omega arith)
length-int_content (byte ∷ a) h = elim (Bool-cases (high_bit byte)) [
  | inl high ↦ rw high (omega arith, omega arith)
  | inr low ↦ rw low (omega arith, omega arith)
]

content : List ℕ → List ℕ
content value = int_content (skip_zeros value)

content_size :
    (value : List ℕ)
    → length value ≡ public_key_len
    → (0 < length (content value)) × (length (content value) ≤ 33)
unfolding content
content_size [] h = absurd (omega arith)
content_size (byte ∷ value) h =
    let (n, e, len) = skip_zeros_lem (byte ∷ value) in
    let (pos, small) = length-int_content (skip_zeros (byte ∷ value)) (skip_zeros-pos byte value) in
    (pos, omega arith)

content-Restores : (value : List ℕ) → length value ≡ public_key_len → Restores (content value) value
unfolding content
content-Restores value h =
    let (n, e, len) = skip_zeros_lem value in
    int_content-Restores n (skip_zeros value) value (omega arith) e

der_encode_int_lem :
    (value : List ℕ)
    → length value ≡ public_key_len
    → der_encode_int value ≡ 0x02 ∷ length (content value) ∷ content value
unfolding der_encode_int content
der_encode_int_lem value h =
    let size : length (int_content (skip_zeros value)) ≤ 33 =
      unfold content in (content_size value h).1 in
    let cut : u8 (length (int_content (skip_zeros value)))
        ≡ length (int_content (skip_zeros value)) =
      omega arith in
    rw cut refl

decode_int :
    (value rest : List ℕ)
    → length value ≡ public_key_len
    → der_decode_int_fixed (der_encode_int value ++ rest) ≡ some (2 + length (content value), value)
unfolding der_decode_int_fixed restored
decode_int value rest h =
    let c = content value in
    let (pos, small) = content_size value h in
    let (fits, same) = content-Restores value h in
    let cut : take (length c) (c ++ rest) ≡ c = take-append c rest in
    let nonempty : (length c == 0) ≡ false = ground arith in
    let short : ltb public_key_len (length (trim c)) ≡ false = ground arith in
    rw
      (
        der_encode_int_lem value h,
        header 0x02 (length c) (c ++ rest) (omega arith) (omega (arith, length-append c rest)),
        cut,
        nonempty,
        short,
      )
      (ap (λ t. some (2 + length c, t)) same)

length-der_encode_int :
    (value : List ℕ)
    → length value ≡ public_key_len
    → (length (der_encode_int value) ≡ 2 + length (content value)) × (length (content value) ≤ 33)
length-der_encode_int value h =
    (ap length (der_encode_int_lem value h) ∙ omega arith, (content_size value h).1)

-- The two integers behind the header of the sequence.
decode_pair :
    (r s rest : List ℕ) (len : ℕ)
    → length r ≡ public_key_len
    → length s ≡ public_key_len
    → len ≡ length (der_encode_int r ++ der_encode_int s)
    → decode_signature (0x30 ∷ len ∷ (der_encode_int r ++ (der_encode_int s ++ rest)))
      ≡ some (r ++ s)
unfolding decode_signature
decode_pair r s rest len hr hs e =
    let (sr, br) = length-der_encode_int r hr in
    let (ss, bs) = length-der_encode_int s hs in
    let lens = length-append (der_encode_int r) (der_encode_int s) in
    let all = der_encode_int r ++ (der_encode_int s ++ rest) in
    let second : drop (2 + (2 + length (content r))) (0x30 ∷ len ∷ all) ≡ der_encode_int s ++ rest =
      drop-append_add (2 + (2 + length (content r))) 0 (0x30 ∷ len ∷ der_encode_int r)
        (der_encode_int s ++ rest) (omega arith) in
    let end : (2 + (2 + length (content r)) + (2 + length (content s)) == 2 + len) ≡ true =
      ground arith in
    rw
      (
        header 0x30 len all (omega arith) (
            omega (
              arith,
              length-append (der_encode_int r) (der_encode_int s ++ rest),
              length-append (der_encode_int s) rest,
            )),
        decode_int r (der_encode_int s ++ rest) hr,
        second,
        decode_int s rest hs,
        end,
      )
      refl

-- Two numbers of 32 bytes are encoded in at most 72 bytes, and what is decoded from these bytes,
-- with anything behind them, are the two numbers.
pub decode_signature-encode_signature :
    (capacity : ℕ) (r s rest : List ℕ)
    → length r ≡ public_key_len
    → length s ≡ public_key_len
    → 72 ≤ capacity
    → (out : List ℕ) × (encode_signature capacity r s ≡ some out)
      × (length out ≤ 72)
      × (decode_signature (out ++ rest) ≡ some (r ++ s))
unfolding encode_signature
decode_signature-encode_signature capacity r s rest hr hs h =
    let (sr, br) = length-der_encode_int r hr in
    let (ss, bs) = length-der_encode_int s hs in
    let tmp = der_encode_int r ++ der_encode_int s in
    let len : length tmp ≤ 70 =
      omega (arith, length-append (der_encode_int r) (der_encode_int s)) in
    let fits : ltb capacity (2 + length tmp) ≡ false = ground arith in
    (
      0x30 ∷ u8 (length tmp) ∷ tmp,
      rw fits refl,
      omega arith,
      ap (λ t. decode_signature (0x30 ∷ u8 (length tmp) ∷ t))
            (append_assoc (der_encode_int r) (der_encode_int s) rest)
          ∙ decode_pair r s rest (u8 (length tmp)) hr hs (omega arith),
    )
