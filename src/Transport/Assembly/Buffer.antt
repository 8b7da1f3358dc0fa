-- ===== src/Transport/Assembly/Buffer.antt =====
-- Writing the pieces of a message to the buffer, one behind the other.
use zerofido.Base.{ℕ, ◌≡◌, ◌∙◌, List, [], ◌++◌, length, take, append-nil}
use zerofido.Base.Memory.{take-front}

-- Of a packet's content and its padding just the content is copied.
pub take-content :
    (content padding : List ℕ) (n : ℕ) → n ≡ length content → take n (content ++ padding) ≡ content
take-content content padding n e = take-front padding n e

pub whole :
    (total : ℕ) (buffer content : List ℕ)
    → take total buffer ≡ content ++ []
    → take total buffer ≡ content
whole total buffer content e = e ∙ append-nil content
