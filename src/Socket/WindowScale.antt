-- ===== src/Socket/WindowScale.antt =====
-- The shift of the window scale option (CalculateWScale of NS3/1705069/TaskB/tcp-socket-base.cc)
-- against its meaning: the least shift that fits the buffer into the window field.
use cse_322_computer_network.Base.{
  ℕ, zero, suc, ◌+◌, ◌/◌, ◌^◌, ◌≤◌, ◌<◌, ◌≡◌, ◌⊎◌, inl, inr, Bool-cases, arith, ltb,
}
use cse_322_computer_network.Net.{Net}
use cse_322_computer_network.Socket.State.{Socket}
use cse_322_computer_network.Socket.Send.{scale_loop, cap_scale, calculate_w_scale}

-- `space >> n`.
abbrev pub halve : ℕ → ℕ → ℕ
halve zero space = space
halve (suc n) space = halve n (space / 2)

scale_loop-at_least : (fuel space w k : ℕ) → k ≤ scale_loop fuel space w k
unfolding scale_loop
scale_loop-at_least zero space w k = omega arith
scale_loop-at_least (suc fuel) space w k =
    ground (arith, scale_loop-at_least fuel (space / 2) w (k + 1))

-- The start of the count is carried along.
scale_loop-shift :
    (fuel space w k : ℕ) → scale_loop fuel space w (k + 1) ≡ suc (scale_loop fuel space w k)
unfolding scale_loop
scale_loop-shift zero space w k = omega arith
scale_loop-shift (suc fuel) space w k = ground (arith, scale_loop-shift fuel (space / 2) w (k + 1))

double-power : (n a : ℕ) → a < 2 ^ suc n → a / 2 < 2 ^ n
double-power n a h = omega arith

scale_loop-fits :
    (fuel space w : ℕ) → space < 2 ^ fuel → halve (scale_loop fuel space w 0) space ≤ w
unfolding scale_loop
scale_loop-fits zero space w h = omega arith
scale_loop-fits (suc fuel) space w h =
    let s = scale_loop-shift fuel (space / 2) w 0 in
    let r = scale_loop-fits fuel (space / 2) w (double-power fuel space h) in
    elim (Bool-cases (ltb w space)) [
      | inl over ↦ rw (over, s) r
      | inr fits ↦ rw fits (ground arith)
    ]

scale_loop-least : (fuel space w j : ℕ) → j < scale_loop fuel space w 0 → w < halve j space
unfolding scale_loop
scale_loop-least zero space w j h = omega arith
scale_loop-least (suc fuel) space w zero h = ground arith
scale_loop-least (suc fuel) space w (suc j) h =
    ground (arith, scale_loop-shift fuel (space / 2) w 0, scale_loop-least fuel (space / 2) w j)

module _ {x : Net} where
  -- CalculateWScale gives at most 14, and below 14 a shift that fits the receive buffer into the
  -- largest window, for a buffer of less than 2 ^ 32 bytes.
  pub calculate_w_scale-fits :
      (s : Socket x)
      → x.rx_max_buffer_size s.rx_buffer < 4294967296
      → (calculate_w_scale s ≤ 14)
        × ((calculate_w_scale s ≡ 14)
            ⊎ (halve (calculate_w_scale s) (x.rx_max_buffer_size s.rx_buffer) ≤ s.max_win_size))
  unfolding calculate_w_scale cap_scale
  calculate_w_scale-fits s h =
      let f = scale_loop-fits 32 (x.rx_max_buffer_size s.rx_buffer) s.max_win_size h in
      ground (arith, f)

  -- No shift below that of CalculateWScale fits the receive buffer into the largest window.
  pub calculate_w_scale-least :
      (s : Socket x) (j : ℕ)
      → j < calculate_w_scale s
      → s.max_win_size < halve j (x.rx_max_buffer_size s.rx_buffer)
  unfolding calculate_w_scale cap_scale
  calculate_w_scale-least s j h =
      scale_loop-least 32 (x.rx_max_buffer_size s.rx_buffer) s.max_win_size j (ground arith)
