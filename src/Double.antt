-- ===== src/Double.antt =====
-- Floating point. antt has no `double`: its operations are parameters, and the laws are those of
-- IEEE 754 arithmetic that the program relies on.
use cse_322_computer_network.Base.{ℕ, ◌≤◌, ◌<◌}

-- `get_seconds` is `Time::GetSeconds` and `to_uint32` is `static_cast<uint32_t>`.
pub record Double : Type 1 where
  pub Value : Type 0
  pub of_ℕ : ℕ → Value
  pub get_seconds : ℕ → Value
  pub mul : Value → Value → Value
  pub div : Value → Value → Value
  pub to_uint32 : Value → ℕ

-- Rounding is monotone: a quotient of a smaller time by a larger one is at most 1, a number times
-- such a quotient is at most the number, and the conversion of a value not above a 32-bit number
-- gives at most that number.
pub record IsIeee (d : Double) : Type 1 where
  pub Le : d.Value → d.Value → Type 0
  pub quotient_le_one :
      (a b : ℕ) → 0 < b → a ≤ b → Le (d.div (d.get_seconds a) (d.get_seconds b)) (d.of_ℕ 1)
  pub product_le : (n : ℕ) (x : d.Value) → Le x (d.of_ℕ 1) → Le (d.mul (d.of_ℕ n) x) (d.of_ℕ n)
  pub cast_le : (n : ℕ) (x : d.Value) → n < 4294967296 → Le x (d.of_ℕ n) → d.to_uint32 x ≤ n
