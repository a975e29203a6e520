-- ===== src/Examples/Window.antt =====
-- TcpVegas on a window of ten segments.
use cse_322_computer_network.Base.{
  ◌+◌, ◌-◌, ◌*◌, ◌/◌, ◌≤◌, ◌≡◌, refl, arith, ltb, if◌then◌else◌, List, [], ◌∷◌,
}
use cse_322_computer_network.Tcb.{Tcb, ca_open, ca_loss, get_cwnd_in_segments, new_tcb}
use cse_322_computer_network.Vegas.{adjust_window, target_cwnd, new_vegas}
use cse_322_computer_network.Vegas.Window.{adjust_linear, adjust_too_fast}
use cse_322_computer_network.Vegas.Rtt.{
  Call, acked, state_set, increase, forked, calls, assert_never_fails,
}
use cse_322_computer_network.Scenario.{exact, exact-IsIeee, plain, reno, block, vegas}

-- The base round trip is half of the smallest of the cycle, so the target is five segments.
target : target_cwnd exact vegas block ≡ 5
unfolding target_cwnd get_cwnd_in_segments new_tcb
target = refl

adjust_linear_example :
    let segs = get_cwnd_in_segments block in
    let diff = segs - target_cwnd exact vegas block in
    let t = (adjust_window exact reno 1 vegas block).1 in
    (t.c_wnd ≡ (
      if ltb vegas.beta diff
      then segs * block.segment_size - block.segment_size
      else if ltb diff vegas.alpha
      then segs * block.segment_size + block.segment_size
      else block.c_wnd))
    × (3 * t.c_wnd / 4 ≤ t.ss_thresh)
adjust_linear_example =
    adjust_linear exact-IsIeee 1 vegas block (omega arith) (omega arith) (omega arith) (omega arith)
      (omega arith)

-- The same window in slow start.
abbrev starting : Tcb
starting = record block { ss_thresh = 65535 }

adjust_too_fast_example :
    let t = (adjust_window exact reno 1 vegas starting).1 in
    (t.c_wnd ≡ target_cwnd exact vegas starting * 1460 + 1460)
    × (t.c_wnd ≤ 14600)
    × (t.ss_thresh ≤ t.c_wnd)
unfolding target_cwnd get_cwnd_in_segments new_vegas
adjust_too_fast_example =
    adjust_too_fast exact-IsIeee 1 vegas starting (omega arith) (omega arith) (omega arith)
      (omega arith) (omega arith) (omega arith) (omega arith)

abbrev history : List (Tcb × Call)
history =
    (block, acked 1 100000000)
    ∷ (block, acked 2 150000000)
    ∷ (block, increase 2)
    ∷ (block, state_set ca_loss)
    ∷ (block, forked)
    ∷ (block, state_set ca_open)
    ∷ []

assert_never_fails_example :
    target_cwnd exact (calls exact reno plain (new_vegas reno 0) history) block
    ≤ get_cwnd_in_segments block
unfolding get_cwnd_in_segments
assert_never_fails_example =
    assert_never_fails exact reno plain exact-IsIeee 0 history block (omega arith)
