-- ===== src/Cbor/Encode/Writes.antt =====
-- What each call of the encoder writes, and what a call that does not fit leaves behind.
use zerofido.Base.{
  ℕ, ◌+◌, ◌<◌, ◌≤◌, ◌≡◌, refl, sym, ap, subst, ◌∙◌, Bool, true, false, List, [], ◌∷◌, ◌++◌,
  append-nil, append_assoc, arith, length, length-append, if◌then◌else◌,
}
use zerofido.Base.Int.{ℤ, pos, negsuc}
use mathlib.Core.Path.{fun_ext}
use native.Mathlib.Decide.{dec_le}
use zerofido.Cbor.Encode.{
  Encoder, offset, ◌&&>◌, append, head_bytes, encode_head, encode_int, encode_bool, append_content,
  encode_bytes, encode_text_n, encode_map, encode_p256_cose_key,
}

abbrev pub push : Encoder → List ℕ → Encoder
push enc bs = record enc { written = enc.written ++ bs }

-- `false`, within the capacity, and nothing that was written before is lost.
pub record Overflowed (enc : Encoder) (r : Bool × Encoder) : Type 0 where
  pub refused : r.0 ≡ false
  pub same_capacity : r.1.capacity ≡ enc.capacity
  pub in_bounds : offset r.1 ≤ enc.capacity
  pub tail : List ℕ
  pub extends : r.1.written ≡ enc.written ++ tail

pub record Writes (m : Encoder → Bool × Encoder) (bs : List ℕ) : Type 0 where
  pub fits : (enc : Encoder) → offset enc + length bs ≤ enc.capacity → m enc ≡ (true, push enc bs)
  pub overflows :
      (enc : Encoder)
      → offset enc ≤ enc.capacity
      → enc.capacity < offset enc + length bs
      → Overflowed enc (m enc)

pub append-fits :
    (bs : List ℕ) (enc : Encoder)
    → offset enc + length bs ≤ enc.capacity
    → append bs enc ≡ (true, push enc bs)
unfolding append
append-fits bs enc h = ground arith

pub append-overflows :
    (bs : List ℕ) (enc : Encoder)
    → enc.capacity < offset enc + length bs
    → append bs enc ≡ (false, enc)
unfolding append
append-overflows bs enc h = ground arith

stays : (enc : Encoder) → offset enc ≤ enc.capacity → Overflowed enc (false, enc)
stays enc h = record {
  refused = refl;
  same_capacity = refl;
  in_bounds = h;
  tail = [];
  extends = sym (append-nil enc.written);
}

append-Writes : (bs : List ℕ) → Writes (append bs) bs
append-Writes bs = record {
  fits = append-fits bs;
  overflows = λ enc h k. subst (Overflowed enc) (sym (append-overflows bs enc k)) (stays enc h);
}

-- A call that writes `xs` before it overflows still extends what was there.
Overflowed-push :
    (enc : Encoder) (xs : List ℕ) (r : Bool × Encoder)
    → Overflowed (push enc xs) r
    → Overflowed enc r
Overflowed-push enc xs r o = record {
  refused = o.refused;
  same_capacity = o.same_capacity;
  in_bounds = o.in_bounds;
  tail = xs ++ o.tail;
  extends = o.extends ∙ append_assoc enc.written xs o.tail;
}

Overflowed-first :
    (enc : Encoder) (r : Bool × Encoder) (b : Encoder → Bool × Encoder)
    → Overflowed enc r
    → Overflowed enc (if r.0 then b r.1 else (false, r.1))
Overflowed-first enc r b o = rw o.refused (record {
  refused = refl;
  same_capacity = o.same_capacity;
  in_bounds = o.in_bounds;
  tail = o.tail;
  extends = o.extends;
})

module _ (a b : Encoder → Bool × Encoder) (xs ys : List ℕ) (w : Writes a xs) (v : Writes b ys) where
  both_fit :
      (enc : Encoder)
      → offset enc + length (xs ++ ys) ≤ enc.capacity
      → (a &&> b) enc ≡ (true, push enc (xs ++ ys))
  both_fit enc h =
      let long : length (xs ++ ys) ≡ length xs + length ys = length-append xs ys in
      let more : offset (push enc xs) ≡ offset enc + length xs = length-append enc.written xs in
      rw (w.fits enc (omega arith)) (
        v.fits (push enc xs) (omega arith)
        ∙ ap (λ t. (true, record enc { written = t })) (append_assoc enc.written xs ys))

  one_overflows :
      (enc : Encoder)
      → offset enc ≤ enc.capacity
      → enc.capacity < offset enc + length (xs ++ ys)
      → Overflowed enc ((a &&> b) enc)
  one_overflows enc h k =
      let long : length (xs ++ ys) ≡ length xs + length ys = length-append xs ys in
      let more : offset (push enc xs) ≡ offset enc + length xs = length-append enc.written xs in
      elim (dec_le (offset enc + length xs) enc.capacity) [
        | yes p ↦
            rw (w.fits enc p)
              (Overflowed-push enc xs _ (v.overflows (push enc xs) (omega arith) (omega arith)))
        | no p ↦ Overflowed-first enc (a enc) b (w.overflows enc h (omega arith))
      ]

  -- `a && b` writes what `a` writes and then what `b` writes.
  pub &&>-Writes : Writes (a &&> b) (xs ++ ys)
  &&>-Writes = record { fits = both_fit; overflows = one_overflows }

pub encode_head-Writes :
    (major value : ℕ) → Writes (encode_head major value) (head_bytes major value)
unfolding encode_head
encode_head-Writes major value = append-Writes (head_bytes major value)

append_content-Writes : (content : List ℕ) → Writes (append_content content) content
append_content-Writes [] = record {
  fits = λ enc h. nothing enc;
  overflows = λ enc h k. absurd (omega arith);
}
  where
    nothing : (enc : Encoder) → append_content [] enc ≡ (true, push enc [])
    nothing enc =
        unfold append_content in
        ap (λ t. (true, record enc { written = t })) (sym (append-nil enc.written))
append_content-Writes (c ∷ s) =
    subst (λ m. Writes m (c ∷ s)) (fun_ext (λ enc. sym (nonempty enc))) (append-Writes (c ∷ s))
  where
    nonempty : (enc : Encoder) → append_content (c ∷ s) enc ≡ append (c ∷ s) enc
    nonempty enc = unfold append_content in ground arith

-- What a call writes.
abbrev pub int_bytes : ℤ → List ℕ
int_bytes (pos n) = head_bytes 0 n
int_bytes (negsuc n) = head_bytes 1 n

abbrev pub string_bytes : ℕ → List ℕ → List ℕ
string_bytes major content = head_bytes major (length content) ++ content

pub encode_int-Writes : (z : ℤ) → Writes (encode_int z) (int_bytes z)
unfolding encode_int
encode_int-Writes (pos n) = encode_head-Writes 0 n
encode_int-Writes (negsuc n) = encode_head-Writes 1 n

pub encode_bytes-Writes :
    (content : List ℕ) → Writes (encode_bytes content) (string_bytes 2 content)
unfolding encode_bytes
encode_bytes-Writes content =
    &&>-Writes _ _ _ _ (encode_head-Writes 2 (length content)) (append_content-Writes content)

pub encode_text_n-Writes :
    (content : List ℕ) → Writes (encode_text_n content) (string_bytes 3 content)
unfolding encode_text_n
encode_text_n-Writes content =
    &&>-Writes _ _ _ _ (encode_head-Writes 3 (length content)) (append_content-Writes content)

pub encode_bool-Writes : (b : Bool) → Writes (encode_bool b) ((if b then 0xf5 else 0xf4) ∷ [])
unfolding encode_bool
encode_bool-Writes true = append-Writes (0xf5 ∷ [])
encode_bool-Writes false = append-Writes (0xf4 ∷ [])

abbrev pub cose_key_bytes : ℤ → List ℕ → List ℕ → List ℕ
cose_key_bytes alg x y =
    head_bytes 5 5
    ++ (int_bytes (pos 1)
        ++ (int_bytes (pos 2)
            ++ (int_bytes (pos 3)
                ++ (int_bytes alg
                    ++ (int_bytes (negsuc 0)
                        ++ (int_bytes (pos 1)
                            ++ (int_bytes (negsuc 1)
                                ++ (string_bytes 2 x
                                    ++ (int_bytes (negsuc 2) ++ string_bytes 2 y)))))))))

pub encode_p256_cose_key-Writes :
    (alg : ℤ) (x y : List ℕ) → Writes (encode_p256_cose_key alg x y) (cose_key_bytes alg x y)
unfolding encode_p256_cose_key encode_map
encode_p256_cose_key-Writes alg x y = chain (encode_head-Writes 5 5) (
    chain (encode_int-Writes (pos 1)) (
      chain (encode_int-Writes (pos 2)) (
        chain (encode_int-Writes (pos 3)) (
          chain (encode_int-Writes alg) (
            chain (encode_int-Writes (negsuc 0)) (
              chain (encode_int-Writes (pos 1)) (
                chain (encode_int-Writes (negsuc 1)) (
                  chain (encode_bytes-Writes x)
                    (chain (encode_int-Writes (negsuc 2)) (encode_bytes-Writes y))))))))))
  where
    chain :
        {a b : Encoder → Bool × Encoder} {xs ys : List ℕ}
        → Writes a xs
        → Writes b ys
        → Writes (a &&> b) (xs ++ ys)
    chain {a} {b} {xs} {ys} = &&>-Writes a b xs ys
