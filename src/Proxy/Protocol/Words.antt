-- ===== src/Proxy/Protocol/Words.antt =====
-- encoding/binary: a 32-bit length, the high byte first.
use heimdall.Base.{ℕ, ◌+◌, ◌*◌, ◌/◌, ◌%◌, ◌^◌, ◌<◌, ◌≡◌, List, [], ◌∷◌, ◌++◌, arith}

-- `binary.BigEndian.PutUint32`
unfoldable pub put_uint32 : ℕ → List ℕ
put_uint32 n = n / 2 ^ 24 % 256 ∷ n / 2 ^ 16 % 256 ∷ n / 2 ^ 8 % 256 ∷ n % 256 ∷ []

-- `binary.BigEndian.Uint32`, of the first four bytes; the callers give it at least four.
unfoldable pub uint32 : List ℕ → ℕ
uint32 (a ∷ b ∷ c ∷ d ∷ rest) = a * 2 ^ 24 + b * 2 ^ 16 + c * 2 ^ 8 + d
uint32 _ = 0

pub uint32-put_uint32 : (n : ℕ) (rest : List ℕ) → n < 2 ^ 32 → uint32 (put_uint32 n ++ rest) ≡ n
unfolding uint32 put_uint32
uint32-put_uint32 n rest small = omega arith
