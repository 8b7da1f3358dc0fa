-- ===== src/Cbor/Skip/Lenient.antt =====
-- Where skipping is more lenient than reading.
use zerofido.Base.{
  ℕ, zero, suc, ◌+◌, ◌*◌, ◌^◌, ◌<◌, ◌≡◌, none, some, List, [], ◌∷◌, ◌++◌, arith, be_bytes, get_or,
}
use zerofido.Cbor.Decode.{read_head}
use zerofido.Cbor.Head.{read_be_front}
use zerofido.Cbor.Skip.{skip_read_head, skip_body, skip_inner, skip}

-- The four forms of an argument in 1, 2, 4 or 8 bytes of its own, and the first number that does not fit
-- in the form below it.
abbrev pub limit : ℕ → ℕ
limit form = get_or (24 ∷ 2 ^ 8 ∷ 2 ^ 16 ∷ 2 ^ 32 ∷ []) form 0

-- The head of a major type and a number in a given form.
abbrev pub form_bytes : ℕ → ℕ → ℕ → List ℕ
form_bytes major form v = (major * 32 + 24 + form) ∷ be_bytes (2 ^ form) v

-- An integer, unsigned or negative, whose argument is written in a longer form than it needs is not
-- canonical: the strict reader of heads refuses it, and skipping steps over it.
pub skip_accepts_non_minimal :
    (major form v : ℕ) (rest : List ℕ)
    → major < 2
    → form < 4
    → v < limit form
    → (read_head (form_bytes major form v ++ rest) ≡ none)
      × (skip (form_bytes major form v ++ rest) ≡ some rest)
unfolding read_head skip skip_inner skip_read_head skip_body
skip_accepts_non_minimal major zero v rest m f h =
    let front = read_be_front 1 v rest (omega arith) in ground (arith, front)
skip_accepts_non_minimal major (suc zero) v rest m f h =
    let front = read_be_front 2 v rest (omega arith) in ground (arith, front)
skip_accepts_non_minimal major (suc (suc zero)) v rest m f h =
    let front = read_be_front 4 v rest (omega arith) in ground (arith, front)
skip_accepts_non_minimal major (suc (suc (suc zero))) v rest m f h =
    let front = read_be_front 8 v rest (omega arith) in ground (arith, front)
skip_accepts_non_minimal major (suc (suc (suc (suc form)))) v rest m f h = absurd (omega arith)
