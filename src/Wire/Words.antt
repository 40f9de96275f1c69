-- ===== src/Wire/Words.antt =====
-- `binary.BigEndian` of the standard library: 16 and 32 bits as bytes, most significant first.
use go_pg.Base.{ℕ, ◌+◌, ◌*◌, ◌/◌, ◌%◌, ◌^◌, ◌<◌, ◌≡◌, [], ◌∷◌, Bytes, arith}

abbrev pub be16 : ℕ → Bytes
be16 n = (n / 256 % 256) ∷ (n % 256) ∷ []

abbrev pub be32 : ℕ → Bytes
be32 n = (n / 16777216 % 256) ∷ (n / 65536 % 256) ∷ (n / 256 % 256) ∷ (n % 256) ∷ []

abbrev pub uint16 : ℕ → ℕ → ℕ
uint16 a b = a * 256 + b

abbrev pub uint32 : ℕ → ℕ → ℕ → ℕ → ℕ
uint32 a b c d = a * 16777216 + b * 65536 + c * 256 + d

pub uint32-be32 :
    (n : ℕ)
    → n < 2 ^ 32
    → uint32 (n / 16777216 % 256) (n / 65536 % 256) (n / 256 % 256) (n % 256) ≡ n
uint32-be32 n h = omega arith

pub uint16-be16 : (n : ℕ) → n < 2 ^ 16 → uint16 (n / 256 % 256) (n % 256) ≡ n
uint16-be16 n h = omega arith
