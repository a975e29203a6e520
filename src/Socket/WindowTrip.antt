-- ===== src/Socket/WindowTrip.antt =====
-- The window that one end advertises and the other reads: AdvertisedWindowSize and
-- UpdateWindowSize (NS3/1705069/TaskB/tcp-socket-base.cc).
use cse_322_computer_network.Base.{
  ℕ, zero, suc, ◌+◌, ◌-◌, ◌*◌, ◌/◌, ◌%◌, ◌^◌, ◌≤◌, ◌<◌, ◌≡◌, arith, true, ltb, if◌then◌else◌, u32,
}
use cse_322_computer_network.Wire.{TcpHeader}
use cse_322_computer_network.Net.{Net}
use cse_322_computer_network.Socket.State.{Socket}
use cse_322_computer_network.Socket.Send.{raw_window, advertised_window_size}
use cse_322_computer_network.Socket.Receive.{received_window}

quotient_lem : (w m : ℕ) → 0 < m → (w / m * m ≤ w) × (w < w / m * m + m)
quotient_lem w m pos = (grind arith, grind arith)

product_lem : (q m : ℕ) → q < 65536 → m ≤ 16384 → q * m < 4294967296
product_lem q m a b = let h : q * m ≤ 65535 * 16384 = grind arith in omega (arith, h)

-- A number cut to whole multiples.
multiple_lem :
    (w m most : ℕ)
    → 0 < m
    → m ≤ 16384
    → most < 65536
    → w / m ≤ most
    → let a = (if ltb most (w / m) then most else w / m) % 65536 in
      (u32 (a * m) ≤ w) × (w < u32 (a * m) + m)
multiple_lem w m most pos small top le =
    let q = quotient_lem w m pos in
    let b = product_lem (w / m) m (omega arith) small in
    let n : (if ltb most (w / m) then most else w / m) % 65536 ≡ w / m = ground arith in
    let c : u32 (w / m * m) ≡ w / m * m = omega (arith, b) in rw (n, c) q

shift_positive : (k : ℕ) → 0 < 2 ^ k
shift_positive zero = omega arith
shift_positive (suc k) = omega (arith, shift_positive k)

shift_least : (d k : ℕ) → k + d ≡ 14 → 2 ^ k ≤ 16384
shift_least zero k e = let f : k ≡ 14 = omega arith in rw f (omega arith)
shift_least (suc d) k e = let r = shift_least d (suc k) (omega arith) in omega (arith, r)

module _ {x y : Net} where
  -- A window goes over the wire: when the sender of the header scales by at most 14 bits, its
  -- window fits the largest window after the shift, which is below 2 ^ 16, and the reader has the
  -- same shift, then UpdateWindowSize reads from AdvertisedWindowSize at most the window there
  -- is, and less than one unit of the shift below it.
  pub received_window-advertised_window_size :
      (s : Socket x) (t : Socket y) (header : TcpHeader)
      → t.snd_wind_shift ≡ s.rcv_wind_shift
      → s.rcv_wind_shift ≤ 14
      → s.max_win_size < 65536
      → raw_window s / 2 ^ s.rcv_wind_shift ≤ s.max_win_size
      → header.window_size ≡ advertised_window_size true s
      → (received_window header t ≤ raw_window s)
        × (raw_window s < received_window header t + 2 ^ s.rcv_wind_shift)
  unfolding advertised_window_size
  received_window-advertised_window_size s t header shift le top fits eh =
      let p = shift_positive s.rcv_wind_shift in
      let b = shift_least (14 - s.rcv_wind_shift) s.rcv_wind_shift (omega arith) in
      rw (eh, shift)
        (multiple_lem (raw_window s) (2 ^ s.rcv_wind_shift) s.max_win_size p b top fits)
