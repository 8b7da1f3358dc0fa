-- ===== src/Crypto/Sha256/Block.antt =====
-- `zf_sha256_transform` computes what the standard does with a block.
use zerofido.Base.{
  ℕ, zero, suc, ◌+◌, ◌-◌, ◌%◌, ◌^◌, ◌<◌, ◌≡◌, refl, sym, ap, ap₂, ◌∙◌, List, [], ◌∷◌, ◌++◌,
  append_assoc, arith, length, length-append, length-drop, take, drop, get_or, be_bytes,
}
use zerofido.Crypto.Sha256.{
  Working, sha256_k, initial_state, rotr, load_be32, load_words, extend, round, rounds,
  first_working, add_working, compress, store_words, add32,
}
use zerofido.Crypto.Sha256.Update.{blocks}
use zerofido.Crypto.Standard.{
  root_from, constants, initial_hash, block_words, schedule, step, steps, variables, intermediate,
  block_hash, message_hash, output, choice, majority, big_sigma0, big_sigma1, small_sigma0,
  small_sigma1,
}

sha256_k-constants : sha256_k ≡ constants
unfolding constants root_from
sha256_k-constants = refl

pub initial_state-initial_hash : initial_state ≡ initial_hash
unfolding initial_hash root_from
initial_state-initial_hash = refl

load_words-block_words : (block : List ℕ) → load_words 16 0 block ≡ block_words block
unfolding load_words load_be32
load_words-block_words block = refl

sums :
    (h s c k w t m d : ℕ)
    → (add32 (add32 (add32 (add32 (add32 h s) c) k) w) (add32 t m)
        ≡ (h + s + c + k + w + (t + m)) % 2 ^ 32)
      × (add32 d (add32 (add32 (add32 (add32 h s) c) k) w) ≡ (d + (h + s + c + k + w)) % 2 ^ 32)
sums h s c k w t m d = (omega arith, omega arith)

round-step : (k w : ℕ) (s : Working) → round k w s ≡ step k w s
unfolding round step rotr
round-step k w s =
    let (p, q) =
      sums s.h (big_sigma1 s.e) (choice s.e s.f s.g) k w (big_sigma0 s.a) (majority s.a s.b s.c)
        s.d in
    ap₂ (λ a e. record { a = a; b = s.a; c = s.b; d = s.c; e = e; f = s.e; g = s.f; h = s.g }) p q

rounds-steps : (ks ws : List ℕ) (s : Working) → rounds ks ws s ≡ steps ks ws s
unfolding rounds steps
rounds-steps [] w s = refl
rounds-steps (k ∷ ks) [] s = refl
rounds-steps (k ∷ ks) (w ∷ ws) s =
    rounds-steps ks ws (round k w s) ∙ ap (steps ks ws) (round-step k w s)

get_or-append : (a b : List ℕ) (i j d : ℕ) → i ≡ length a + j → get_or (a ++ b) i d ≡ get_or b j d
get_or-append [] b i j d e = ap (λ t. get_or b t d) (omega arith)
get_or-append (x ∷ a) b zero j d e = absurd (omega arith)
get_or-append (x ∷ a) b (suc i) j d e = get_or-append a b i j d (omega arith)

split_first : (w : List ℕ) → 0 < length w → w ≡ get_or w 0 0 ∷ drop 1 w
split_first [] h = absurd (omega arith)
split_first (x ∷ w) h = refl

next_word :
    (w : List ℕ) (i : ℕ) (pre win : List ℕ)
    → w ≡ pre ++ win
    → i ≡ length pre + 16
    → add32
        (add32
          (add32 (get_or w (i - 16) 0) (small_sigma0 (get_or w (i - 15) 0)))
          (get_or w (i - 7) 0))
        (small_sigma1 (get_or w (i - 2) 0))
      ≡ (small_sigma1 (get_or win 14 0)
          + get_or win 9 0
          + small_sigma0 (get_or win 1 0)
          + get_or win 0 0)
        % 2 ^ 32
next_word w i pre win e at =
    let place = λ (k j : ℕ) (h : k ≡ length pre + j).
      ap (λ t. get_or t k 0) e ∙ get_or-append pre win k j 0 h in
    let w16 = place (i - 16) 0 (omega arith) in
    let w15 = place (i - 15) 1 (omega arith) in
    let w7 = place (i - 7) 9 (omega arith) in
    let w2 = place (i - 2) 14 (omega arith) in rw (w16, w15, w7, w2) (omega arith)

extend-schedule :
    (n i : ℕ) (w pre win : List ℕ)
    → w ≡ pre ++ win
    → i ≡ length pre + 16
    → length win ≡ 16
    → extend n i w ≡ pre ++ schedule n win
unfolding extend schedule rotr
extend-schedule zero i w pre win e at size = e
extend-schedule (suc n) i w pre win e at size =
    let next =
      (small_sigma1 (get_or win 14 0)
        + get_or win 9 0
        + small_sigma0 (get_or win 1 0)
        + get_or win 0 0)
      % 2 ^ 32 in
    let first = get_or win 0 0 in
    let pre' = pre ++ first ∷ [] in
    let win' = drop 1 win ++ next ∷ [] in
    let shifted = append_assoc pre (first ∷ []) win' in
    let moved =
      ap₂ (λ a b. a ++ b ∷ []) (e ∙ ap (λ t. pre ++ t) (split_first win (omega arith)))
        (next_word w i pre win e at)
      ∙ append_assoc pre (first ∷ drop 1 win) (next ∷ [])
      ∙ sym shifted in
    extend-schedule n (i + 1) _ pre' win' moved (omega (arith, at, length-append pre (first ∷ [])))
      (omega (arith, size, length-append (drop 1 win) (next ∷ []), length-drop 1 win))
    ∙ append_assoc pre (first ∷ []) (schedule n win')

add_swapped : (a b : ℕ) → add32 a b ≡ (b + a) % 2 ^ 32
add_swapped a b = omega arith

first_working-variables : (hash : List ℕ) → first_working hash ≡ variables hash
unfolding first_working variables
first_working-variables hash = refl

add_working-intermediate : (v r : Working) → add_working v r ≡ intermediate r v
unfolding add_working intermediate
add_working-intermediate v r =
    rw
      (
        add_swapped v.a r.a,
        add_swapped v.b r.b,
        add_swapped v.c r.c,
        add_swapped v.d r.d,
        add_swapped v.e r.e,
        add_swapped v.f r.f,
        add_swapped v.g r.g,
        add_swapped v.h r.h,
      )
      refl

extended : (block : List ℕ) → extend 48 16 (load_words 16 0 block) ≡ schedule 48 (block_words block)
extended block = extend-schedule 48 16 _ [] _ (load_words-block_words block) refl refl

pub compress-block_hash : (hash block : List ℕ) → compress hash block ≡ block_hash hash block
unfolding compress block_hash
compress-block_hash hash block =
    rw (extended block, sha256_k-constants, rounds-steps constants, first_working-variables hash)
      (add_working-intermediate (variables hash) _)

pub blocks-message_hash :
    (n : ℕ) (hash bytes : List ℕ) → blocks n hash bytes ≡ message_hash n hash bytes
unfolding blocks message_hash
blocks-message_hash zero hash bytes = refl
blocks-message_hash (suc n) hash bytes =
    blocks-message_hash n _ (drop 64 bytes)
    ∙ ap (λ t. message_hash n t (drop 64 bytes)) (compress-block_hash hash (take 64 bytes))

pub store_words-output : (words : List ℕ) → store_words words ≡ output words
unfolding store_words
store_words-output [] = refl
store_words-output (w ∷ words) = ap (λ t. be_bytes 4 w ++ t) (store_words-output words)
