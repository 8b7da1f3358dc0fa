-- ===== src/Ctap/Parse/Cose/Inverse.antt =====
-- The bytes that the readers of a key accept: those that the encoder writes, and no others.
use zerofido.Base.{
  ℕ, ◌≤◌, ◌≡◌, sym, ap, ap₂, subst, ◌∙◌, none, some, Option, List, [], ◌∷◌, ◌++◌, append_assoc,
  arith, ltb, ◌!=◌, ◌==◌, if◌then◌else◌, length, take, drop, take-append-drop, length-take, All,
  IsByte,
}
use zerofido.Base.Partial.{>>=-eq-some}
use zerofido.Base.Int.{ℤ, pos, negsuc}
use zerofido.Cbor.Encode.{head_bytes}
use zerofido.Cbor.Encode.Writes.{int_bytes, string_bytes}
use zerofido.Cbor.Head.{read_head_canonical}
use zerofido.Cbor.Decode.{
  Cursor, read_head, read_int, read_bytes_ptr, read_map_start, int64_max, size_max,
}
use zerofido.Ctap.Parse.Cose.{read_bytes_copy, read_coordinate}

-- The readers take the encoder's bytes off the cursor, and leave bytes.
abbrev pub Took : List ℕ → Cursor → Cursor → Type 0
Took p c rest = (c ≡ p ++ rest) × All IsByte rest

pub All-behind : (p rest : List ℕ) → All IsByte (p ++ rest) → All IsByte rest
All-behind [] rest h = h
All-behind (b ∷ p) rest h = All-behind p rest h.1

pub took : (p c rest : List ℕ) → All IsByte c → c ≡ p ++ rest → Took p c rest
took p c rest bytes e = (e, All-behind p rest (subst (All IsByte) e bytes))

int_of :
    (m v : ℕ) (d : Cursor) (z : ℤ) (rest : Cursor)
    → (if m == 0
        then if◌then◌else◌ {A = Option (ℤ × Cursor)} (ltb int64_max v) none (some (pos v, d))
        else if m == 1
        then if◌then◌else◌ {A = Option (ℤ × Cursor)} (ltb int64_max v) none (some (negsuc v, d))
        else none)
      ≡ some (z, rest)
    → (head_bytes m v ≡ int_bytes z) × (d ≡ rest)
int_of m v d (pos n) rest e =
    let zero : m ≡ 0 = ground arith in
    let same : v ≡ n = ground arith in (ap₂ head_bytes zero same, ground arith)
int_of m v d (negsuc n) rest e =
    let one : m ≡ 1 = ground arith in
    let same : v ≡ n = ground arith in (ap₂ head_bytes one same, ground arith)

pub read_int-Took :
    (c : Cursor) (z : ℤ) (rest : Cursor)
    → All IsByte c
    → read_int c ≡ some (z, rest)
    → Took (int_bytes z) c rest
unfolding read_int
read_int-Took c z rest bytes e =
    let (h, eq, after) = >>=-eq-some (read_head c) _ e in
    let (m, v, whole) = read_head_canonical c {major = h.0} {value = h.1} {rest = h.2} bytes eq in
    let (head, left) = int_of h.0 h.1 h.2 z rest after in
    took (int_bytes z) c rest bytes (whole ∙ ap₂ ◌++◌ head left)

map_of :
    (m v : ℕ) (d : Cursor) (n : ℕ) (rest : Cursor)
    → (if m == 5
        then if◌then◌else◌ {A = Option (ℕ × Cursor)} (ltb size_max v) none (some (v, d))
        else none)
      ≡ some (n, rest)
    → (m ≡ 5) × (v ≡ n) × (d ≡ rest)
map_of m v d n rest e = (ground arith, ground arith, ground arith)

pub read_map_start-Took :
    (c : Cursor) (n : ℕ) (rest : Cursor)
    → All IsByte c
    → read_map_start c ≡ some (n, rest)
    → Took (head_bytes 5 n) c rest
unfolding read_map_start
read_map_start-Took c n rest bytes e =
    let (h, eq, after) = >>=-eq-some (read_head c) _ e in
    let (m, v, whole) = read_head_canonical c {major = h.0} {value = h.1} {rest = h.2} bytes eq in
    let (five, same, left) = map_of h.0 h.1 h.2 n rest after in
    took (head_bytes 5 n) c rest bytes (whole ∙ ap₂ ◌++◌ (ap₂ head_bytes five same) left)

content_of :
    (m v : ℕ) (d content : List ℕ) (rest : Cursor)
    → (if m == 2
        then if◌then◌else◌ {A = Option (List ℕ × Cursor)}
            (ltb (length d) v)
            none
            (some (take v d, drop v d))
        else none)
      ≡ some (content, rest)
    → (m ≡ 2) × (v ≡ length content) × (d ≡ content ++ rest)
content_of m v d content rest e =
    let front : take v d ≡ content = ground arith in
    let behind : drop v d ≡ rest = ground arith in
    let enough : v ≤ length d = ground arith in
    (
      ground arith,
      omega (arith, length-take v d, ap length front),
      sym (take-append-drop v d) ∙ ap₂ ◌++◌ front behind,
    )

read_bytes_ptr-Took :
    (c : Cursor) (content : List ℕ) (rest : Cursor)
    → All IsByte c
    → read_bytes_ptr c ≡ some (content, rest)
    → Took (string_bytes 2 content) c rest
unfolding read_bytes_ptr
read_bytes_ptr-Took c content rest bytes e =
    let (h, eq, after) = >>=-eq-some (read_head c) _ e in
    let (m, v, whole) = read_head_canonical c {major = h.0} {value = h.1} {rest = h.2} bytes eq in
    let (two, same, left) = content_of h.0 h.1 h.2 content rest after in
    took (string_bytes 2 content) c rest bytes (
      whole
      ∙ ap₂ ◌++◌ (ap₂ head_bytes two same) left
      ∙ sym (append_assoc (head_bytes 2 (length content)) content rest))

copy_of :
    (got : List ℕ) (d : Cursor) (content : List ℕ) (rest : Cursor)
    → if◌then◌else◌ {A = Option (List ℕ × Cursor)} (ltb 32 (length got)) none (some (got, d))
      ≡ some (content, rest)
    → (got ≡ content) × (d ≡ rest)
copy_of got d content rest e = (ground arith, ground arith)

exact_of :
    (got : List ℕ) (d : Cursor) (content : List ℕ) (rest : Cursor)
    → if◌then◌else◌ {A = Option (List ℕ × Cursor)} (length got != 32) none (some (got, d))
      ≡ some (content, rest)
    → (got ≡ content) × (d ≡ rest) × (length content ≡ 32)
exact_of got d content rest e =
    let same : got ≡ content = ground arith in
    (same, ground arith, sym (ap length same) ∙ ground arith)

pub read_coordinate-Took :
    (c : Cursor) (content : List ℕ) (rest : Cursor)
    → All IsByte c
    → read_coordinate c ≡ some (content, rest)
    → Took (string_bytes 2 content) c rest × (length content ≡ 32)
unfolding read_coordinate read_bytes_copy
read_coordinate-Took c content rest bytes e =
    let (r, copied, after) = >>=-eq-some (read_bytes_copy 32 c) _ e in
    let (same, left, long) = exact_of r.0 r.1 content rest after in
    let (q, pointed, fits) = >>=-eq-some (read_bytes_ptr c) _ copied in
    let (same', left') = copy_of q.0 q.1 r.0 r.1 fits in
    (
      read_bytes_ptr-Took c content rest bytes
          (pointed ∙ ap₂ (λ a b. some (a, b)) (same' ∙ same) (left' ∙ left)),
      long,
    )
