-- ===== src/Vegas.antt =====
-- TcpVegas of NS3/1705069/TaskB/tcp-vegas.cc with the modification of the repository: the counter
-- that turns the mode of the connection to aggresive. The parent class TcpNewReno is code of ns-3
-- and a parameter.
pub mod Ops
pub mod Window
pub mod Rtt
pub mod Mode
pub mod Calm
pub mod Reference
pub mod Unmodified
pub mod Aggresive
use cse_322_computer_network.Base.{
  ℕ, ◌+◌, ◌-◌, ◌/◌, min, max, Bool, true, false, not, ◌&&◌, ◌||◌, ltb, leb, ◌==◌, if◌then◌else◌,
  add32, sub32, mul32,
}
use cse_322_computer_network.Tcb.{
  Tcb, CongState, aggresive, is_open, is_aggresive, time_max, get_cwnd_in_segments,
}
use cse_322_computer_network.Sequence.{Sequence, ge}
use cse_322_computer_network.Double.{Double}

-- What TcpVegas calls of its parent class.
pub record NewReno : Type 1 where
  pub State : Type 0
  pub increase_window : ℕ → State → Tcb → State × Tcb
  pub slow_start : ℕ → State → Tcb → State × Tcb

-- The members of the class, with those of the parent class in `reno`.
pub record Vegas (n : NewReno) : Type 0 where
  pub alpha : ℕ
  pub beta : ℕ
  pub gamma : ℕ
  pub base_rtt : ℕ
  pub min_rtt : ℕ
  pub cnt_rtt : ℕ
  pub doing_vegas_now : Bool
  pub beg_snd_nxt : ℕ
  pub reno : n.State

-- The `else` branch of the modification: one step back, not below 0.
abbrev pub count_down : ℕ → ℕ
count_down v = v - 1

unfoldable pub new_vegas : (n : NewReno) → n.State → Vegas n
new_vegas n reno = record {
  alpha = 2;
  beta = 4;
  gamma = 1;
  base_rtt = time_max;
  min_rtt = time_max;
  cnt_rtt = 0;
  doing_vegas_now = true;
  beg_snd_nxt = 0;
  reno = reno;
}

-- The modification in `PktsAcked`: the counter and the mode.
unfoldable pub count_rtt : ℕ → Tcb → Tcb
count_rtt rtt tcb =
    if ltb tcb.vegas_last_rtt rtt && tcb.vegas_last_cwnd == tcb.c_wnd
    then record tcb {
      v_count = tcb.v_count + 1;
      mode = if ltb tcb.v_count_max (tcb.v_count + 1) then aggresive else tcb.mode;
    }
    else if ltb rtt tcb.vegas_last_rtt
    then record tcb { v_count = count_down tcb.v_count }
    else tcb

module _ {n : NewReno} where
  -- The copy constructor, which `Fork` calls.
  unfoldable pub fork : Vegas n → Vegas n
  fork sock = record sock { doing_vegas_now = true; beg_snd_nxt = 0 }

  unfoldable pub pkts_acked : ℕ → ℕ → Vegas n → Tcb → Vegas n × Tcb
  unfolding count_rtt
  pkts_acked segments_acked rtt v tcb = if rtt == 0 then (v, tcb) else (
    record v {
      min_rtt = min v.min_rtt rtt;
      base_rtt = min v.base_rtt rtt;
      cnt_rtt = add32 v.cnt_rtt 1;
    },
    record (count_rtt rtt tcb) { vegas_last_rtt = rtt; vegas_last_cwnd = tcb.c_wnd },
  )

  unfoldable pub enable_vegas : Tcb → Vegas n → Vegas n
  enable_vegas tcb v = record v {
    doing_vegas_now = true;
    beg_snd_nxt = tcb.next_tx_sequence;
    cnt_rtt = 0;
    min_rtt = time_max;
  }

  unfoldable pub disable_vegas : Vegas n → Vegas n
  disable_vegas v = record v { doing_vegas_now = false }

  unfoldable pub congestion_state_set : CongState → Vegas n → Tcb → Vegas n × Tcb
  unfolding enable_vegas disable_vegas
  congestion_state_set new_state v tcb =
      (if is_open new_state then enable_vegas tcb v else disable_vegas v, tcb)

unfoldable pub get_ss_thresh : Tcb → ℕ → ℕ
get_ss_thresh tcb bytes_in_flight =
    max (min tcb.ss_thresh (sub32 tcb.c_wnd tcb.segment_size)) (mul32 2 tcb.segment_size)

module _ (d : Double) {n : NewReno} where
  -- `static_cast<uint32_t>(segCwnd * (baseRtt / minRtt))`.
  unfoldable pub target_cwnd : Vegas n → Tcb → ℕ
  target_cwnd v tcb = d.to_uint32 (
      d.mul (d.of_ℕ (get_cwnd_in_segments tcb))
        (d.div (d.get_seconds v.base_rtt) (d.get_seconds v.min_rtt)))

-- The window is set to a number of segments, and the threshold follows it.
unfoldable pub shrink_to : ℕ → Tcb → Tcb
unfolding get_ss_thresh
shrink_to segments tcb =
    let t = record tcb { c_wnd = mul32 segments tcb.segment_size } in
    record t { ss_thresh = get_ss_thresh t 0 }

-- "We are going too fast": the window falls to the target and slow start ends.
unfoldable pub slow_down : ℕ → ℕ → Tcb → Tcb
unfolding shrink_to
slow_down seg_cwnd target tcb = shrink_to (min seg_cwnd (add32 target 1)) tcb

-- The linear increase and decrease of congestion avoidance.
unfoldable pub linear_mode : ℕ → ℕ → ℕ → ℕ → Tcb → Tcb
unfolding shrink_to
linear_mode alpha beta seg_cwnd diff tcb =
    if ltb beta diff
    then shrink_to (sub32 seg_cwnd 1) tcb
    else if ltb diff alpha
    then record tcb { c_wnd = mul32 (add32 seg_cwnd 1) tcb.segment_size }
    else tcb

-- `tcb->m_ssThresh = std::max(tcb->m_ssThresh, 3 * tcb->m_cWnd / 4)`.
unfoldable pub raise_ss_thresh : Tcb → Tcb
raise_ss_thresh tcb = record tcb { ss_thresh = max tcb.ss_thresh (mul32 3 tcb.c_wnd / 4) }

module _ (d : Double) (n : NewReno) where
  -- Calls of the parent class, which keep the members of this one.
  unfoldable pub follow_new_reno : ℕ → Vegas n → Tcb → Vegas n × Tcb
  follow_new_reno segments_acked v tcb =
      let (r, t) = n.increase_window segments_acked v.reno tcb in (record v { reno = r }, t)

  unfoldable pub follow_slow_start : ℕ → Vegas n → Tcb → Vegas n × Tcb
  follow_slow_start segments_acked v tcb =
      let (r, t) = n.slow_start segments_acked v.reno tcb in (record v { reno = r }, t)

  -- The Vegas calculation, with enough samples of the round trip.
  unfoldable pub adjust_window : ℕ → Vegas n → Tcb → Vegas n × Tcb
  adjust_window segments_acked v tcb =
      let seg_cwnd = get_cwnd_in_segments tcb in
      let target = target_cwnd d v tcb in
      let diff = sub32 seg_cwnd target in
      let (w, t) : Vegas n × Tcb =
        if ltb v.gamma diff && ltb tcb.c_wnd tcb.ss_thresh
        then (v, slow_down seg_cwnd target tcb)
        else if ltb tcb.c_wnd tcb.ss_thresh
        then follow_slow_start segments_acked v tcb
        else (v, linear_mode v.alpha v.beta seg_cwnd diff tcb) in
      (w, raise_ss_thresh t)

  -- The end of a Vegas cycle.
  unfoldable pub end_cycle : ℕ → Vegas n → Tcb → Vegas n × Tcb
  end_cycle segments_acked v tcb =
      let v' = record v { beg_snd_nxt = tcb.next_tx_sequence } in
      let (w, t) : Vegas n × Tcb =
        if leb v.cnt_rtt 2
        then follow_new_reno segments_acked v' tcb
        else adjust_window segments_acked v' tcb in
      (record w { cnt_rtt = 0; min_rtt = time_max }, t)

  unfoldable pub increase_window : Sequence → ℕ → Vegas n → Tcb → Vegas n × Tcb
  increase_window q segments_acked v tcb =
      if not v.doing_vegas_now || is_aggresive tcb.mode
      then follow_new_reno segments_acked v tcb
      else if ge q tcb.last_acked_seq v.beg_snd_nxt
      then end_cycle segments_acked v tcb
      else if ltb tcb.c_wnd tcb.ss_thresh
      then follow_slow_start segments_acked v tcb
      else (v, tcb)
