-- ===== src/Crypto/Standard.antt =====
-- SHA-256 as its standard, FIPS 180-4, defines it: the functions and the constants of section 4, the
-- padding of section 5 and the computation of section 6, on numbers below 2 ^ 32.
use zerofido.Base.{
  ℕ, zero, suc, ◌+◌, ◌-◌, ◌*◌, ◌/◌, ◌%◌, ◌^◌, List, [], ◌∷◌, ◌++◌, leb, if◌then◌else◌, length, take,
  drop, replicate, be_bytes, get_or,
}
use Prim.Native.Nat.{bit_and, bit_or, bit_xor}
use zerofido.Crypto.Sha256.{Working}

-- ROTR and SHR.
abbrev pub rotated : ℕ → ℕ → ℕ
rotated n x = bit_or (x / 2 ^ n) (x * 2 ^ (32 - n) % 2 ^ 32)

abbrev pub shifted : ℕ → ℕ → ℕ
shifted n x = x / 2 ^ n

abbrev pub choice : ℕ → ℕ → ℕ → ℕ
choice x y z = bit_xor (bit_and x y) (bit_and (bit_xor x (2 ^ 32 - 1)) z)

abbrev pub majority : ℕ → ℕ → ℕ → ℕ
majority x y z = bit_xor (bit_xor (bit_and x y) (bit_and x z)) (bit_and y z)

-- The four functions Σ0, Σ1, σ0 and σ1.
abbrev pub big_sigma0 : ℕ → ℕ
big_sigma0 x = bit_xor (bit_xor (rotated 2 x) (rotated 13 x)) (rotated 22 x)

abbrev pub big_sigma1 : ℕ → ℕ
big_sigma1 x = bit_xor (bit_xor (rotated 6 x) (rotated 11 x)) (rotated 25 x)

abbrev pub small_sigma0 : ℕ → ℕ
small_sigma0 x = bit_xor (bit_xor (rotated 7 x) (rotated 18 x)) (shifted 3 x)

abbrev pub small_sigma1 : ℕ → ℕ
small_sigma1 x = bit_xor (bit_xor (rotated 17 x) (rotated 19 x)) (shifted 10 x)

-- The largest number below 2 ^ `bits` + `low` whose power is at most `n`.
unfoldable pub root_from : ℕ → ℕ → ℕ → ℕ → ℕ
root_from zero power n low = low
root_from (suc bits) power n low =
    root_from bits power n (if leb ((low + 2 ^ bits) ^ power) n then low + 2 ^ bits else low)

-- The first 32 bits behind the point of the root of `n` for an exponent of `power`.
abbrev fraction : ℕ → ℕ → ℕ
fraction power n = root_from 40 power (n * 2 ^ (32 * power)) 0 % 2 ^ 32

-- The first 64 primes.
abbrev primes : List ℕ
primes =
    2 ∷ 3 ∷ 5 ∷ 7 ∷ 11 ∷ 13 ∷ 17 ∷ 19 ∷ 23 ∷ 29 ∷ 31 ∷ 37 ∷ 41 ∷ 43 ∷ 47 ∷ 53 ∷ 59 ∷ 61 ∷ 67 ∷ 71
    ∷ 73 ∷ 79 ∷ 83 ∷ 89 ∷ 97 ∷ 101 ∷ 103 ∷ 107 ∷ 109 ∷ 113 ∷ 127 ∷ 131 ∷ 137 ∷ 139 ∷ 149 ∷ 151 ∷ 157
    ∷ 163 ∷ 167 ∷ 173 ∷ 179 ∷ 181 ∷ 191 ∷ 193 ∷ 197 ∷ 199 ∷ 211 ∷ 223 ∷ 227 ∷ 229 ∷ 233 ∷ 239 ∷ 241
    ∷ 251 ∷ 257 ∷ 263 ∷ 269 ∷ 271 ∷ 277 ∷ 281 ∷ 283 ∷ 293 ∷ 307 ∷ 311 ∷ []

abbrev fractions : ℕ → List ℕ → List ℕ
fractions power [] = []
fractions power (p ∷ ps) = fraction power p ∷ fractions power ps

-- K: the cube roots of the first 64 primes; H: the square roots of the first eight.
unfoldable pub constants : List ℕ
constants = fractions 3 primes

unfoldable pub initial_hash : List ℕ
initial_hash = fractions 2 (take 8 primes)

-- The sixteen words of a block, from its bytes.
abbrev word : List ℕ → ℕ → ℕ
word block t =
    bit_or
      (bit_or (bit_or (get_or block (4 * t) 0 * 2 ^ 24) (get_or block (4 * t + 1) 0 * 2 ^ 16))
        (get_or block (4 * t + 2) 0 * 2 ^ 8))
      (get_or block (4 * t + 3) 0)

abbrev pub block_words : List ℕ → List ℕ
block_words block =
    word block 0
    ∷ word block 1
    ∷ word block 2
    ∷ word block 3
    ∷ word block 4
    ∷ word block 5
    ∷ word block 6
    ∷ word block 7
    ∷ word block 8
    ∷ word block 9
    ∷ word block 10
    ∷ word block 11
    ∷ word block 12
    ∷ word block 13
    ∷ word block 14
    ∷ word block 15
    ∷ []

-- W: the sixteen words and `n` more, each from the sixteen in front of it.
unfoldable pub schedule : ℕ → List ℕ → List ℕ
schedule zero window = window
schedule (suc n) window =
    let next =
      (small_sigma1 (get_or window 14 0)
        + get_or window 9 0
        + small_sigma0 (get_or window 1 0)
        + get_or window 0 0)
      % 2 ^ 32 in
    get_or window 0 0 ∷ schedule n (drop 1 window ++ next ∷ [])

-- One step on the variables a, …, h.
unfoldable pub step : ℕ → ℕ → Working → Working
step k w s =
    let t1 = s.h + big_sigma1 s.e + choice s.e s.f s.g + k + w in
    let t2 = big_sigma0 s.a + majority s.a s.b s.c in
    record {
      a = (t1 + t2) % 2 ^ 32;
      b = s.a;
      c = s.b;
      d = s.c;
      e = (s.d + t1) % 2 ^ 32;
      f = s.e;
      g = s.f;
      h = s.g;
    }

unfoldable pub steps : List ℕ → List ℕ → Working → Working
steps [] w s = s
steps (k ∷ ks) [] s = s
steps (k ∷ ks) (w ∷ ws) s = steps ks ws (step k w s)

-- The variables before the first step, and the sums behind the last one.
unfoldable pub variables : List ℕ → Working
variables hash = record {
  a = get_or hash 0 0;
  b = get_or hash 1 0;
  c = get_or hash 2 0;
  d = get_or hash 3 0;
  e = get_or hash 4 0;
  f = get_or hash 5 0;
  g = get_or hash 6 0;
  h = get_or hash 7 0;
}

unfoldable pub intermediate : Working → Working → List ℕ
intermediate r v =
    (r.a + v.a) % 2 ^ 32
    ∷ (r.b + v.b) % 2 ^ 32
    ∷ (r.c + v.c) % 2 ^ 32
    ∷ (r.d + v.d) % 2 ^ 32
    ∷ (r.e + v.e) % 2 ^ 32
    ∷ (r.f + v.f) % 2 ^ 32
    ∷ (r.g + v.g) % 2 ^ 32
    ∷ (r.h + v.h) % 2 ^ 32
    ∷ []

-- The hash value behind a block.
unfoldable pub block_hash : List ℕ → List ℕ → List ℕ
block_hash hash block =
    intermediate (steps constants (schedule 48 (block_words block)) (variables hash))
      (variables hash)

unfoldable pub message_hash : ℕ → List ℕ → List ℕ → List ℕ
message_hash zero hash bytes = hash
message_hash (suc n) hash bytes = message_hash n (block_hash hash (take 64 bytes)) (drop 64 bytes)

abbrev pub output : List ℕ → List ℕ
output [] = []
output (w ∷ ws) = be_bytes 4 w ++ output ws

-- A one bit, zeros, and the number of bits in eight bytes.
unfoldable pub padding : ℕ → List ℕ
padding len = 0x80 ∷ (replicate ((119 - len % 64) % 64) 0 ++ be_bytes 8 (len * 8))

-- The digest of a message.
unfoldable pub digest : List ℕ → List ℕ
digest message = output (
    message_hash ((length message + 8) / 64 + 1) initial_hash (message ++ padding (length message)))
