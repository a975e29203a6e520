-- ===== src/Base/Words.antt =====
-- uint32_t arithmetic: values are numbers, and each operation wraps at 2 ^ 32.
use Prim.Native.Nat.{ℕ, ◌+◌, ◌-◌, ◌*◌, ◌%◌}

abbrev pub u32 : ℕ → ℕ
u32 n = n % 4294967296

abbrev pub add32 : ℕ → ℕ → ℕ
add32 a b = (a + b) % 4294967296

-- a - b wraps below 0, so the modulus is added first.
abbrev pub sub32 : ℕ → ℕ → ℕ
sub32 a b = (a + 4294967296 - b) % 4294967296

abbrev pub mul32 : ℕ → ℕ → ℕ
mul32 a b = a * b % 4294967296
