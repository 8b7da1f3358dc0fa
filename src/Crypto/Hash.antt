-- ===== src/Crypto/Hash.antt =====
-- The hash functions of zerofido_crypto.c, and their values.
use zerofido.Base.{
  ◌≡◌, sym, ◌∙◌, ℕ, ◌*◌, List, [], ◌∷◌, ◌++◌, arith, length, All, IsByte, be_bytes, be_bytes-IsByte,
  length-be_bytes, length-append,
}
use zerofido.Crypto.Sha256.{init, update, finish, store_words, transform, compress, add_working}
use zerofido.Crypto.Standard.{digest}
use zerofido.Crypto.Sha256.Digest.{Holds-init, update-Holds}
use zerofido.Crypto.Sha256.Finish.{finish-Holds}
use zerofido.Crypto.Hmac.{update_part, update_part-Holds}

unfoldable pub sha256 : List ℕ → List ℕ
sha256 message = finish (update init message)

unfoldable pub sha256_concat : List ℕ → List ℕ → List ℕ
sha256_concat first second = finish (update_part (update_part init first) second)

pub sha256_lem : (message : List ℕ) → sha256 message ≡ digest message
unfolding sha256
sha256_lem message =
    finish-Holds (update init message) message (update-Holds init [] message Holds-init)

-- The hash of two parts is the hash of the whole.
pub sha256_concat-sha256 :
    (first second : List ℕ) → sha256_concat first second ≡ sha256 (first ++ second)
unfolding sha256_concat
sha256_concat-sha256 first second =
    finish-Holds (update_part (update_part init first) second) (first ++ second) (
      update_part-Holds (update_part init first) first second
        (update_part-Holds init [] first Holds-init))
    ∙ sym (sha256_lem (first ++ second))

All-append : (a b : List ℕ) → All IsByte a → All IsByte b → All IsByte (a ++ b)
All-append [] b h k = k
All-append (x ∷ a) b h k = (h.0, All-append a b h.1 k)

store_words-IsByte : (words : List ℕ) → All IsByte (store_words words)
unfolding store_words
store_words-IsByte [] = tt
store_words-IsByte (w ∷ words) =
    All-append (be_bytes 4 w) (store_words words) (be_bytes-IsByte 4 w) (store_words-IsByte words)

length-store_words : (words : List ℕ) → length (store_words words) ≡ 4 * length words
unfolding store_words
length-store_words [] = omega arith
length-store_words (w ∷ words) = omega (
  arith,
  length-append (be_bytes 4 w) (store_words words),
  length-be_bytes 4 w,
  length-store_words words,
)

pub sha256-IsByte : (message : List ℕ) → All IsByte (sha256 message)
unfolding sha256 finish
sha256-IsByte message = store_words-IsByte _

pub length-sha256 : (message : List ℕ) → length (sha256 message) ≡ 32
unfolding sha256 finish transform compress add_working
length-sha256 message = length-store_words _
