-- ===== src/Vegas/Window.antt =====
-- What the Vegas calculation does to the congestion window (TcpVegas::IncreaseWindow).
use cse_322_computer_network.Base.{
  ℕ, zero, suc, ◌+◌, ◌-◌, ◌*◌, ◌/◌, ◌≤◌, ◌<◌, max, ◌≡◌, arith, ltb, add32, sub32, if◌then◌else◌,
}
use cse_322_computer_network.Tcb.{Tcb, get_cwnd_in_segments}
use cse_322_computer_network.Double.{Double, IsIeee}
use cse_322_computer_network.Vegas.{
  NewReno, Vegas, get_ss_thresh, slow_down, linear_mode, raise_ss_thresh, target_cwnd,
  adjust_window,
}

-- TcpVegas::GetSsThresh: the threshold is at least two segments, and apart from that floor it is
-- not above the old threshold nor above the window less one segment.
get_ss_thresh_bounds :
    (tcb : Tcb) (bytes : ℕ)
    → 2 * tcb.segment_size < 4294967296
    → tcb.segment_size ≤ tcb.c_wnd
    → tcb.c_wnd < 4294967296
    → (2 * tcb.segment_size ≤ get_ss_thresh tcb bytes)
      × (get_ss_thresh tcb bytes ≤ max tcb.ss_thresh (2 * tcb.segment_size))
      × (get_ss_thresh tcb bytes ≤ max (tcb.c_wnd - tcb.segment_size) (2 * tcb.segment_size))
unfolding get_ss_thresh
get_ss_thresh_bounds tcb bytes h k l = omega arith

module _ {d : Double} (ieee : IsIeee d) {n : NewReno} where
  -- The target is not above the window, which is what the source asserts.
  pub target_cwnd-le :
      (v : Vegas n) (tcb : Tcb)
      → 0 < v.min_rtt
      → v.base_rtt ≤ v.min_rtt
      → get_cwnd_in_segments tcb < 4294967296
      → target_cwnd d v tcb ≤ get_cwnd_in_segments tcb
  unfolding target_cwnd
  target_cwnd-le v tcb pos le small =
      ieee.cast_le _ _ small (ieee.product_le _ _ (ieee.quotient_le_one _ _ pos le))

-- Whole segments never exceed the window.
seg_cwnd_lem :
    (tcb : Tcb)
    → 0 < tcb.segment_size
    → (get_cwnd_in_segments tcb * tcb.segment_size ≤ tcb.c_wnd)
      × (tcb.c_wnd < get_cwnd_in_segments tcb * tcb.segment_size + tcb.segment_size)
unfolding get_cwnd_in_segments
seg_cwnd_lem tcb h = (grind arith, grind arith)

fewer-mul : (n s : ℕ) → 0 < n → n < 4294967296 → sub32 n 1 * s + s ≡ n * s
fewer-mul zero s pos small = absurd (omega arith)
fewer-mul (suc n) s pos small = let e : sub32 (suc n) 1 ≡ n = omega arith in rw e (omega arith)

more-mul : (n s : ℕ) → n + 1 < 4294967296 → add32 n 1 * s ≡ n * s + s
more-mul n s small = let e : add32 n 1 ≡ n + 1 = omega arith in rw e (grind arith)

segs-le : (n s : ℕ) → 0 < s → n ≤ n * s
segs-le n s h = grind arith

mul_mono : (a b s : ℕ) → a ≤ b → a * s ≤ b * s
mul_mono a b s h = grind arith

-- Outside slow start the window moves by one segment at most: above beta it is the whole segments
-- less one, below alpha the whole segments and one more, and otherwise it stays.
pub linear_mode_lem :
    (alpha beta diff : ℕ) (tcb : Tcb)
    → 0 < tcb.segment_size
    → tcb.c_wnd + tcb.segment_size < 4294967296
    → diff ≤ get_cwnd_in_segments tcb
    → (linear_mode alpha beta (get_cwnd_in_segments tcb) diff tcb).c_wnd ≡ (
        if ltb beta diff
        then get_cwnd_in_segments tcb * tcb.segment_size - tcb.segment_size
        else if ltb diff alpha
        then get_cwnd_in_segments tcb * tcb.segment_size + tcb.segment_size
        else tcb.c_wnd)
unfolding linear_mode
linear_mode_lem alpha beta diff tcb pos small le = ground (
  arith,
  seg_cwnd_lem tcb pos,
  segs-le (get_cwnd_in_segments tcb) tcb.segment_size pos,
  fewer-mul (get_cwnd_in_segments tcb) tcb.segment_size,
  more-mul (get_cwnd_in_segments tcb) tcb.segment_size,
)

module _ {d : Double} (ieee : IsIeee d) {n : NewReno} where
  -- Outside slow start, for a positive segment size, a window that with one more segment and
  -- times three stays below 2 ^ 32, and a positive smallest round trip of the cycle that is not
  -- below the base round trip, the Vegas calculation sets the window, by the number of segments
  -- above the target, to the whole segments less one (more than beta), the whole segments and one
  -- more (less than alpha), or leaves it, and the threshold is then at least three quarters of
  -- the window; under the laws of IEEE 754 that the model names.
  pub adjust_linear :
      (acked : ℕ) (v : Vegas n) (tcb : Tcb)
      → 0 < v.min_rtt
      → v.base_rtt ≤ v.min_rtt
      → 0 < tcb.segment_size
      → 3 * (tcb.c_wnd + tcb.segment_size) < 4294967296
      → tcb.ss_thresh ≤ tcb.c_wnd
      → let segs = get_cwnd_in_segments tcb in
        let diff = segs - target_cwnd d v tcb in
        let t = (adjust_window d n acked v tcb).1 in
        (t.c_wnd ≡ (
          if ltb v.beta diff
          then segs * tcb.segment_size - tcb.segment_size
          else if ltb diff v.alpha
          then segs * tcb.segment_size + tcb.segment_size
          else tcb.c_wnd))
        × (3 * t.c_wnd / 4 ≤ t.ss_thresh)
  unfolding adjust_window raise_ss_thresh
  adjust_linear acked v tcb pos le size small ss =
      let segs = get_cwnd_in_segments tcb in
      let q = seg_cwnd_lem tcb size in
      let few = segs-le segs tcb.segment_size size in
      let t = target_cwnd-le ieee v tcb pos le (omega arith) in
      let e : sub32 segs (target_cwnd d v tcb) ≡ segs - target_cwnd d v tcb = omega arith in
      let m =
        linear_mode_lem v.alpha v.beta (segs - target_cwnd d v tcb) tcb size (omega arith)
          (omega arith) in
      rw e (ground (arith, q, m))

  -- In slow start with more than gamma segments above a target that is not 0, for a positive
  -- segment size, a window that with one more segment and times three stays below 2 ^ 32, and a
  -- positive smallest round trip of the cycle that is not below the base round trip, the window
  -- becomes one segment more than the target, it does not grow, and slow start is over; under the
  -- laws of IEEE 754 that the model names.
  pub adjust_too_fast :
      (acked : ℕ) (v : Vegas n) (tcb : Tcb)
      → 0 < v.min_rtt
      → v.base_rtt ≤ v.min_rtt
      → 0 < tcb.segment_size
      → 3 * (tcb.c_wnd + tcb.segment_size) < 4294967296
      → tcb.c_wnd < tcb.ss_thresh
      → v.gamma < get_cwnd_in_segments tcb - target_cwnd d v tcb
      → 0 < target_cwnd d v tcb
      → let t = (adjust_window d n acked v tcb).1 in
        (t.c_wnd ≡ target_cwnd d v tcb * tcb.segment_size + tcb.segment_size)
        × (t.c_wnd ≤ tcb.c_wnd)
        × (t.ss_thresh ≤ t.c_wnd)
  unfolding adjust_window raise_ss_thresh slow_down
  adjust_too_fast acked v tcb pos le size small ss fast some_target =
      let segs = get_cwnd_in_segments tcb in
      let q = seg_cwnd_lem tcb size in
      let few = segs-le segs tcb.segment_size size in
      let e : sub32 segs (target_cwnd d v tcb) ≡ segs - target_cwnd d v tcb = omega arith in
      let m = more-mul (target_cwnd d v tcb) tcb.segment_size (omega arith) in
      let k = mul_mono (target_cwnd d v tcb + 1) segs tcb.segment_size (omega arith) in
      let two = mul_mono 1 (target_cwnd d v tcb) tcb.segment_size (omega arith) in
      rw e (ground (arith, q, m, k, two))
