-- ===== src/Proto/Bytes.antt =====
-- The byte order of the wire, big-endian, and what a value of some bytes is.
use eswim.Base.{ℕ, ◌/◌, ◌%◌, ◌<◌, ◌≡◌, List, [], ◌∷◌, arith}
use eswim.Fsm.{u16_of, u32_of}

-- `u16Marshal` and `u32Marshal`
abbrev pub u16_bytes : ℕ → List ℕ
u16_bytes n = (n / 256 % 256) ∷ (n % 256) ∷ []

abbrev pub u32_bytes : ℕ → List ℕ
u32_bytes n = (n / 16777216 % 256) ∷ (n / 65536 % 256) ∷ (n / 256 % 256) ∷ (n % 256) ∷ []

abbrev pub IsU16 : ℕ → Type 0
IsU16 n = n < 65536

pub u16_of-u16_bytes : (n : ℕ) → IsU16 n → u16_of (u16_bytes n) ≡ n
unfolding u16_of
u16_of-u16_bytes n h = omega arith

pub u32_of-u32_bytes : (n : ℕ) → n < 4294967296 → u32_of (u32_bytes n) ≡ n
unfolding u32_of
u32_of-u32_bytes n h = omega arith
