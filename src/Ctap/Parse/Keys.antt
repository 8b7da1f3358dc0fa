-- ===== src/Ctap/Parse/Keys.antt =====
-- The loop over the pairs of a request's map, which parse_make_credential and parse_get_assertion
-- share, against the sequence of the keys that it reads.
use zerofido.Base.{
  ℕ, zero, suc, ◌<◌, ◌≤◌, ◌≡◌, ◌≢◌, inl, inr, Bool-cases, leb→le, refl, sym, ap, ◌∙◌, true, false,
  some, List, [], ◌∷◌, arith, leb, length, get_or, All,
}
use zerofido.Cbor.Decode.{Cursor, read_uint}
use zerofido.Ctap.Parse.Parsed.{Parsed, parsed, ◌>>=◌, cbor, cbor_inv, for_items, >>=-parsed}
use zerofido.Ctap.Parse.Shared.{SeenKeys, no_keys, mark, mark_seen_key}

-- One pair of a request's map: a number that was not seen before, and its value.
unfoldable pub keyed_pair :
    {R : Type 0}
    → (ℕ → R → Cursor → Parsed (R × Cursor))
    → SeenKeys × R
    → Cursor
    → Parsed ((SeenKeys × R) × Cursor)
keyed_pair field (seen_keys, request) cursor = do
  (key, c) ← cbor (read_uint cursor)
  seen_keys' ← cbor (mark_seen_key seen_keys key)
  (request', c') ← field key request c
  parsed ((seen_keys', request'), c')

-- No key below 16 comes twice.
abbrev pub NoRepeat : List ℕ → Type 0
NoRepeat [] = Unit {0}
NoRepeat (key ∷ keys) = All (λ k. k < 16 → k ≢ key) keys × NoRepeat keys

abbrev pub Fresh : SeenKeys → List ℕ → Type 0
Fresh seen_keys = All (λ k. k < 16 → get_or seen_keys k false ≡ false)

-- The values behind the keys are parsed one by one, each into the request that the one in front
-- of it left.
abbrev pub Fields :
    {R : Type 0}
    → (ℕ → R → Cursor → Parsed (R × Cursor))
    → List ℕ
    → R
    → Cursor
    → R
    → Cursor
    → Type 0
Fields field [] r c r' c' = (r ≡ r') × (c ≡ c')
Fields {R} field (key ∷ keys) r c r' c' =
    (behind : Cursor) × (next : R) × (rest : Cursor) × (read_uint c ≡ some (key, behind))
    × (field key r behind ≡ parsed (next, rest))
    × Fields field keys next rest r' c'

length-mark : (key : ℕ) (bits : SeenKeys) → length (mark key bits) ≡ length bits
length-mark key [] = refl
length-mark zero (bit ∷ bits) = refl
length-mark (suc key) (bit ∷ bits) = ap suc (length-mark key bits)

get-mark_self :
    (key : ℕ) (bits : SeenKeys) → key < length bits → get_or (mark key bits) key false ≡ true
get-mark_self key [] h = absurd (omega arith)
get-mark_self zero (bit ∷ bits) h = refl
get-mark_self (suc key) (bit ∷ bits) h = get-mark_self key bits (omega arith)

get-mark_ne :
    (key k : ℕ) (bits : SeenKeys) → k ≢ key → get_or (mark key bits) k false ≡ get_or bits k false
get-mark_ne key k [] h = refl
get-mark_ne zero zero (bit ∷ bits) h = absurd (h refl)
get-mark_ne zero (suc k) (bit ∷ bits) h = refl
get-mark_ne (suc key) zero (bit ∷ bits) h = refl
get-mark_ne (suc key) (suc k) (bit ∷ bits) h = get-mark_ne key k bits (λ e. h (ap suc e))

-- What becomes of the bits when a key is accepted.
data Marked (b : SeenKeys) (key : ℕ) (b' : SeenKeys) : Type 0 where
  beyond : 16 ≤ key → b' ≡ b → Marked b key b'
  marked : key < 16 → get_or b key false ≡ false → b' ≡ mark key b → Marked b key b'

mark_seen_key_inv :
    (b : SeenKeys) (key : ℕ) {b' : SeenKeys} → mark_seen_key b key ≡ some b' → Marked b key b'
unfolding mark_seen_key
mark_seen_key_inv b key {b'} e = elim (Bool-cases (leb 16 key)) [
  | inl high ↦ beyond (leb→le 16 key high) (ground arith)
  | inr low ↦ elim (Bool-cases (get_or b key false)) [
    | inl old ↦ ground arith
    | inr new ↦ marked (ground arith) new (ground arith)
  ]
]

-- The key is new: its bit is clear, and is set afterwards.
mark_seen_key_new :
    (b : SeenKeys) (key : ℕ)
    → length b ≡ 16
    → (key < 16 → get_or b key false ≡ false)
    → (b' : SeenKeys) × (mark_seen_key b key ≡ some b') × (length b' ≡ 16)
unfolding mark_seen_key
mark_seen_key_new b key len new = elim (Bool-cases (leb 16 key)) [
  | inl high ↦ (b, rw high refl, len)
  | inr low ↦ (mark key b, rw (low, new (ground arith)) refl, length-mark key b ∙ len)
]

Marked-new : {b b' : SeenKeys} {key : ℕ} → Marked b key b' → key < 16 → get_or b key false ≡ false
Marked-new (beyond high e) small = absurd (omega arith)
Marked-new (marked low clear e) small = clear

length-Marked : {b b' : SeenKeys} {key : ℕ} → Marked b key b' → length b ≡ 16 → length b' ≡ 16
length-Marked (beyond _ e) len = ap length e ∙ len
length-Marked {b} {key = key} (marked _ _ e) len = ap length e ∙ length-mark key b ∙ len

Marked-before :
    {b b' : SeenKeys} {key : ℕ} (k : ℕ)
    → Marked b key b'
    → length b ≡ 16
    → k < 16
    → get_or b' k false ≡ false
    → (k ≢ key) × (get_or b k false ≡ false)
Marked-before k (beyond high e) len small clear =
    ((λ same. absurd (omega arith)), ap (λ t. get_or t k false) (sym e) ∙ clear)
Marked-before {b} {key = key} k (marked low _ e) len small clear =
    let here : get_or (mark key b) k false ≡ false = ap (λ t. get_or t k false) (sym e) ∙ clear in
    let ne : k ≢ key = λ same.
      cc (get-mark_self key b (omega arith), ap (λ t. get_or (mark key b) t false) same, here) in
    (ne, sym (get-mark_ne key k b ne) ∙ here)

Marked-after :
    {b b' : SeenKeys} {key : ℕ} (k : ℕ)
    → Marked b key b'
    → k ≢ key
    → get_or b k false ≡ false
    → get_or b' k false ≡ false
Marked-after k (beyond high e) ne clear = ap (λ t. get_or t k false) e ∙ clear
Marked-after {b} {key = key} k (marked low _ e) ne clear =
    ap (λ t. get_or t k false) e ∙ get-mark_ne key k b ne ∙ clear

Fresh-before :
    {b b' : SeenKeys} {key : ℕ} (keys : List ℕ)
    → Marked b key b'
    → length b ≡ 16
    → Fresh b' keys
    → Fresh b keys × All (λ k. k < 16 → k ≢ key) keys
Fresh-before [] m len f = (tt, tt)
Fresh-before (k ∷ keys) m len f =
    let (rest, apart) = Fresh-before keys m len f.1 in
    (
      ((λ small. (Marked-before k m len small (f.0 small)).1), rest),
      ((λ small. (Marked-before k m len small (f.0 small)).0), apart),
    )

Fresh-after :
    {b b' : SeenKeys} {key : ℕ} (keys : List ℕ)
    → Marked b key b'
    → All (λ k. k < 16 → k ≢ key) keys
    → Fresh b keys
    → Fresh b' keys
Fresh-after [] m apart f = tt
Fresh-after (k ∷ keys) m apart f =
    ((λ small. Marked-after k m (apart.0 small) (f.0 small)), Fresh-after keys m apart.1 f.1)

pub Fresh-no_keys : (keys : List ℕ) → Fresh no_keys keys
Fresh-no_keys [] = tt
Fresh-no_keys (key ∷ keys) = ((λ small. clear key), Fresh-no_keys keys)
  where
    clear : (key : ℕ) → get_or no_keys key false ≡ false
    clear key = ground arith

module _ {R : Type 0} (field : ℕ → R → Cursor → Parsed (R × Cursor)) where
  keyed_pair_inv :
      (b : SeenKeys) (r : R) (c : Cursor) {p : (SeenKeys × R) × Cursor}
      → keyed_pair field (b, r) c ≡ parsed p
      → (key : ℕ) × (behind : Cursor) × (read_uint c ≡ some (key, behind))
        × Marked b key p.0.0
        × (field key r behind ≡ parsed (p.0.1, p.1))
  unfolding keyed_pair
  keyed_pair_inv b r c {p} e =
      let ((key, behind), read, marking) = >>=-parsed (cbor (read_uint c)) _ e in
      let (b', seen, parsing) = >>=-parsed (cbor (mark_seen_key b key)) _ marking in
      let ((next, rest), value, done) = >>=-parsed (field key r behind) _ parsing in
      let same : ((b', next), rest) ≡ p = ground arith in
      (
        key,
        behind,
        cbor_inv (read_uint c) read,
        mark_seen_key_inv b key (
            cbor_inv (mark_seen_key b key) seen
            ∙ ap (λ (q : (SeenKeys × R) × Cursor). some q.0.0) same),
        value ∙ ap (λ (q : (SeenKeys × R) × Cursor). parsed (q.0.1, q.1)) same,
      )

  -- The loop succeeds only along a sequence of fields, one for each round, whose keys are new.
  pub keyed_pairs-Fields :
      (pairs : ℕ) (b : SeenKeys) (r : R) (c : Cursor) {s : SeenKeys × R} {c' : Cursor}
      → length b ≡ 16
      → for_items (keyed_pair field) pairs (b, r) c ≡ parsed (s, c')
      → (keys : List ℕ) × (length keys ≡ pairs)
        × NoRepeat keys
        × Fresh b keys
        × Fields field keys r c s.1 c'
  unfolding for_items
  keyed_pairs-Fields zero b r c len e = ([], refl, tt, tt, (ground arith, ground arith))
  keyed_pairs-Fields (suc pairs) b r c {s} {c'} len e =
      let (p, pair, after) = >>=-parsed (keyed_pair field (b, r) c) _ e in
      let (key, behind, read, m, value) = keyed_pair_inv b r c {p = p} pair in
      let (keys, count, distinct, fresh, fields) =
        keyed_pairs-Fields pairs p.0.0 p.0.1 p.1 {s = s} {c' = c'} (length-Marked m len) after in
      let (older, apart) = Fresh-before keys m len fresh in
      (
        key ∷ keys,
        ap suc count,
        (apart, distinct),
        (Marked-new m, older),
        (behind, p.0.1, p.1, read, value, fields),
      )

  -- Along such a sequence it succeeds.
  pub Fields-keyed_pairs :
      (keys : List ℕ) (b : SeenKeys) (r : R) (c : Cursor) {r' : R} {c' : Cursor}
      → length b ≡ 16
      → NoRepeat keys
      → Fresh b keys
      → Fields field keys r c r' c'
      → (b' : SeenKeys) × (for_items (keyed_pair field) (length keys) (b, r) c
          ≡ parsed ((b', r'), c'))
  unfolding for_items keyed_pair
  Fields-keyed_pairs [] b r c len distinct fresh fields = (b, ground arith)
  Fields-keyed_pairs (key ∷ keys) b r c len distinct fresh
        (behind, next, rest, read, value, fields) =
      let (b1, seen, len1) = mark_seen_key_new b key len fresh.0 in
      let m = mark_seen_key_inv b key {b' = b1} seen in
      let (b2, done) =
        Fields-keyed_pairs keys b1 next rest len1 distinct.1 (Fresh-after keys m distinct.0 fresh.1)
          fields in
      (b2, rw (read, seen, value) done)
