-- ===== src/Sequence.antt =====
-- 32-bit sequence numbers. `SequenceNumber32` is code of ns-3: its operators are parameters of the
-- model, and what the program relies on is a record of laws.
use cse_322_computer_network.Base.{ℕ, Bool}

-- `lt` and `le` are `<` and `<=`, `add` is `+` with a size, `sub` is `-` between two sequence
-- numbers read as a uint32_t, and `back` is `-` with a size.
pub record Sequence : Type 0 where
  pub lt : ℕ → ℕ → Bool
  pub le : ℕ → ℕ → Bool
  pub add : ℕ → ℕ → ℕ
  pub sub : ℕ → ℕ → ℕ
  pub back : ℕ → ℕ → ℕ

-- `a > b` and `a >= b`.
abbrev pub gt : Sequence → ℕ → ℕ → Bool
gt q a b = q.lt b a

abbrev pub ge : Sequence → ℕ → ℕ → Bool
ge q a b = q.le b a
