-- ===== src/Ctap/Parse/Shared/Bounds.antt =====
-- What the bounded readers return.
use zerofido.Base.{ℕ, ◌≤◌, ◌<◌, ◌≡◌, false, some, List, arith, length}
use zerofido.Base.Partial.{>>=-eq-some}
use zerofido.Cbor.Decode.{Cursor, read_text_ptr, read_bytes_ptr}
use zerofido.Ctap.Parse.Shared.{has_nul, read_text_copy}
use zerofido.Ctap.Parse.Cose.{read_bytes_copy}

-- A C string that fits its array.
pub record IsText (size : ℕ) (text : List ℕ) : Type 0 where
  pub fits : length text < size
  pub clean : has_nul text ≡ false

pub read_text_copy-IsText :
    (size : ℕ) (c : Cursor) {r : List ℕ × Cursor} → read_text_copy size c ≡ some r → IsText size r.0
unfolding read_text_copy
read_text_copy-IsText size c {r} e =
    let (t, read, rest) = >>=-eq-some (read_text_ptr c) _ e in
    record { fits = ground arith; clean = ground arith }

pub read_bytes_copy-le :
    (capacity : ℕ) (c : Cursor) {r : List ℕ × Cursor}
    → read_bytes_copy capacity c ≡ some r
    → length r.0 ≤ capacity
unfolding read_bytes_copy
read_bytes_copy-le capacity c {r} e =
    let (t, read, rest) = >>=-eq-some (read_bytes_ptr c) _ e in ground arith
