-- ===== src/Cbor/Encode/Calls.antt =====
-- Sequences of encoder calls joined by `&&`, as the response builders write them.
use zerofido.Base.{Bool-cases, inl, inr, leb, leb→le, leb_false→lt, if◌then◌else◌}
use zerofido.Base.{
  ℕ, ◌+◌, ◌<◌, ◌≤◌, ◌≡◌, sym, ap, Bool, true, false, List, [], ◌∷◌, ◌++◌, append-nil, arith, length,
  if◌then◌else◌, length-append, append_assoc, leb, le→leb,
}
use zerofido.Base.Int.{ℤ}
use native.Mathlib.Decide.{dec_le}
use zerofido.Cbor.Encode.{
  Encoder, offset, ◌&&>◌, encode_uint, encode_int, encode_bool, encode_bytes, encode_text,
  encode_map, encode_array, encode_p256_cose_key, reserve_bytes, c_string, head_bytes, encode_head,
}
use zerofido.Cbor.Encode.Writes.{
  push, Overflowed, Writes, int_bytes, string_bytes, cose_key_bytes, encode_head-Writes,
  encode_int-Writes, encode_bool-Writes, encode_bytes-Writes, encode_text_n-Writes,
  encode_p256_cose_key-Writes, &&>-Writes, append-fits, append-overflows,
}

pub data Call : Type 0 where
  uint : ℕ → Call
  int : ℤ → Call
  bool : Bool → Call
  bytes : List ℕ → Call
  text : List ℕ → Call
  map : ℕ → Call
  array : ℕ → Call
  cose_key : ℤ → List ℕ → List ℕ → Call

abbrev pub perform : Call → Encoder → Bool × Encoder
perform (uint n) = encode_uint n
perform (int z) = encode_int z
perform (bool b) = encode_bool b
perform (bytes s) = encode_bytes s
perform (text s) = encode_text s
perform (map n) = encode_map n
perform (array n) = encode_array n
perform (cose_key alg x y) = encode_p256_cose_key alg x y

abbrev pub perform_all : List Call → Encoder → Bool × Encoder
perform_all [] = λ enc. (true, enc)
perform_all (c ∷ cs) = perform c &&> perform_all cs

abbrev pub call_bytes : Call → List ℕ
call_bytes (uint n) = head_bytes 0 n
call_bytes (int z) = int_bytes z
call_bytes (bool b) = (if b then 0xf5 else 0xf4) ∷ []
call_bytes (bytes s) = string_bytes 2 s
call_bytes (text s) = string_bytes 3 (c_string s)
call_bytes (map n) = head_bytes 5 n
call_bytes (array n) = head_bytes 4 n
call_bytes (cose_key alg x y) = cose_key_bytes alg x y

abbrev pub calls_bytes : List Call → List ℕ
calls_bytes [] = []
calls_bytes (c ∷ cs) = call_bytes c ++ calls_bytes cs

perform-Writes : (c : Call) → Writes (perform c) (call_bytes c)
unfolding encode_uint encode_text encode_map encode_array
perform-Writes (uint n) = encode_head-Writes 0 n
perform-Writes (int z) = encode_int-Writes z
perform-Writes (bool b) = encode_bool-Writes b
perform-Writes (bytes s) = encode_bytes-Writes s
perform-Writes (text s) = encode_text_n-Writes (c_string s)
perform-Writes (map n) = encode_head-Writes 5 n
perform-Writes (array n) = encode_head-Writes 4 n
perform-Writes (cose_key alg x y) = encode_p256_cose_key-Writes alg x y

perform_all-Writes : (cs : List Call) → Writes (perform_all cs) (calls_bytes cs)
perform_all-Writes [] = record {
  fits = λ enc h. ap (λ t. (true, record enc { written = t })) (sym (append-nil enc.written));
  overflows = λ enc h k. absurd (omega arith);
}
perform_all-Writes (c ∷ cs) =
    &&>-Writes (perform c) (perform_all cs) (call_bytes c) (calls_bytes cs) (perform-Writes c)
      (perform_all-Writes cs)

-- All bytes are appended where they fit. Where they do not, the sequence fails, the offset stays within
-- the capacity, and what was written before is still there.
abbrev pub AppendsOrFails : Encoder → List ℕ → Bool × Encoder → Type 0
AppendsOrFails enc more r =
    if leb (offset enc + length more) enc.capacity
    then r ≡ (true, push enc more)
    else Overflowed enc r

-- A sequence of calls on an encoder whose offset is within its capacity appends exactly the encodings of
-- the calls, in order, if they fit in what is left of the buffer. Otherwise it fails; the offset stays
-- within the capacity, and what was written before the sequence is still there.
pub perform_all-AppendsOrFails :
    (cs : List Call) (enc : Encoder)
    → offset enc ≤ enc.capacity
    → AppendsOrFails enc (calls_bytes cs) (perform_all cs enc)
perform_all-AppendsOrFails cs enc h =
    elim (Bool-cases (leb (offset enc + length (calls_bytes cs)) enc.capacity)) [
      | inl e ↦ rw e ((perform_all-Writes cs).fits enc (leb→le _ _ e))
      | inr e ↦ rw e ((perform_all-Writes cs).overflows enc h (leb_false→lt _ _ e))
    ]

reserve_fits :
    (filling : List ℕ) (enc : Encoder)
    → offset enc + length (string_bytes 2 filling) ≤ enc.capacity
    → reserve_bytes filling enc ≡ (true, push enc (string_bytes 2 filling))
unfolding reserve_bytes encode_head
reserve_fits filling enc h =
    let head = head_bytes 2 (length filling) in
    let long = length-append head filling in
    let more = length-append enc.written head in
    rw (append-fits head enc (omega arith)) (ground (arith, append_assoc enc.written head filling))

reserve_overflows :
    (filling : List ℕ) (enc : Encoder)
    → enc.capacity < offset enc + length (string_bytes 2 filling)
    → reserve_bytes filling enc ≡ (false, enc)
unfolding reserve_bytes encode_head
reserve_overflows filling enc h =
    let head = head_bytes 2 (length filling) in
    let long = length-append head filling in
    let more = length-append enc.written head in
    elim (dec_le (offset enc + length head) enc.capacity) [
      | yes p ↦ rw (append-fits head enc p) (ground arith)
      | no p ↦ rw (append-overflows head enc (omega arith))
    ]

-- `zf_cbor_reserve_bytes` is the byte string of what the caller fills in, if that fits in what is
-- left of the buffer. If not, the encoder is as it was before the call, the head included.
pub reserve_bytes_all_or_nothing :
    (filling : List ℕ) (enc : Encoder)
    → reserve_bytes filling enc ≡ (
        if leb (offset enc + length (string_bytes 2 filling)) enc.capacity
        then (true, push enc (string_bytes 2 filling))
        else (false, enc))
reserve_bytes_all_or_nothing filling enc =
    elim (dec_le (offset enc + length (string_bytes 2 filling)) enc.capacity) [
      | yes p ↦ rw (reserve_fits filling enc p, le→leb _ _ p)
      | no p ↦ ground (arith, reserve_overflows filling enc (omega arith))
    ]
