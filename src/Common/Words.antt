-- ===== src/Common/Words.antt =====
-- Casts to the fixed widths of C, and the ranges of the values that they give.
use Prim.Native.Nat.{ℕ, ◌*◌, ◌/◌, ◌%◌, ◌^◌, ◌<◌, bit_and, bit_or}
use mathlib.Core.List.{List, [], ◌∷◌}

-- A buffer of uint8_t.
abbrev pub Bytes : Type 0
Bytes = List ℕ

abbrev pub u8 : ℕ → ℕ
u8 n = n % 2 ^ 8

abbrev pub u16 : ℕ → ℕ
u16 n = n % 2 ^ 16

abbrev pub u32 : ℕ → ℕ
u32 n = n % 2 ^ 32

abbrev pub u64 : ℕ → ℕ
u64 n = n % 2 ^ 64

abbrev pub IsByte : ℕ → Type 0
IsByte n = n < 2 ^ 8

abbrev pub IsU32 : ℕ → Type 0
IsU32 n = n < 2 ^ 32

abbrev pub IsU64 : ℕ → Type 0
IsU64 n = n < 2 ^ 64

-- write_be32 and uint32_be, and uint16_be: most significant byte first.
abbrev pub be32 : ℕ → Bytes
be32 v = u8 (v / 2 ^ 24) ∷ u8 (v / 2 ^ 16) ∷ u8 (v / 2 ^ 8) ∷ u8 v ∷ []

abbrev pub be16 : ℕ → Bytes
be16 v = u8 (v / 2 ^ 8) ∷ u8 (bit_and v 0xFF) ∷ []

-- read_be32 and read_u16_be.
abbrev pub read_be32 : ℕ → ℕ → ℕ → ℕ → ℕ
read_be32 p0 p1 p2 p3 = bit_or (bit_or (bit_or (p0 * 2 ^ 24) (p1 * 2 ^ 16)) (p2 * 2 ^ 8)) p3

abbrev pub read_u16_be : ℕ → ℕ → ℕ
read_u16_be p0 p1 = bit_or (p0 * 2 ^ 8) p1
