-- ===== src/Vegas/Calm.antt =====
-- TcpVegas against what the socket relies on in its recovery (NS3/1705069/TaskB/tcp-vegas.cc).
use cse_322_computer_network.Base.{ℕ, ◌≡◌, refl, arith, sub32}
use cse_322_computer_network.Tcb.{Tcb, CongState, get_cwnd_in_segments}
use cse_322_computer_network.Sequence.{Sequence}
use cse_322_computer_network.Double.{Double}
use cse_322_computer_network.Vegas.{
  NewReno, Vegas, pkts_acked, congestion_state_set, increase_window, end_cycle, adjust_window,
  follow_new_reno, follow_slow_start, linear_mode, slow_down, shrink_to, raise_ss_thresh,
  target_cwnd,
}

-- The parent class leaves the congestion state to the socket.
pub record IsCalmReno (n : NewReno) : Type 0 where
  pub increase :
      (k : ℕ) (r : n.State) (t : Tcb) → (n.increase_window k r t).1.cong_state ≡ t.cong_state
  pub slow : (k : ℕ) (r : n.State) (t : Tcb) → (n.slow_start k r t).1.cong_state ≡ t.cong_state

shrink_to-cong : (n : ℕ) (t : Tcb) → (shrink_to n t).cong_state ≡ t.cong_state
unfolding shrink_to
shrink_to-cong n t = refl

linear_mode-cong : (a b k d : ℕ) (t : Tcb) → (linear_mode a b k d t).cong_state ≡ t.cong_state
unfolding linear_mode
linear_mode-cong a b k d t = ground arith

slow_down-cong : (k g : ℕ) (t : Tcb) → (slow_down k g t).cong_state ≡ t.cong_state
unfolding slow_down
slow_down-cong k g t = refl

module _ {n : NewReno} where
  pub pkts_acked-calm :
      (k rtt : ℕ) (v : Vegas n) (t : Tcb)
      → let u = (pkts_acked k rtt v t).1 in
        (u.cong_state ≡ t.cong_state) × (u.ss_thresh ≡ t.ss_thresh)
  unfolding pkts_acked
  pkts_acked-calm k rtt v t = ground arith

  pub congestion_state_set-calm :
      (c : CongState) (v : Vegas n) (t : Tcb)
      → let u = (congestion_state_set c v t).1 in
        (u.cong_state ≡ t.cong_state) × (u.ss_thresh ≡ t.ss_thresh)
  unfolding congestion_state_set
  congestion_state_set-calm c v t = (refl, refl)

module _ (d : Double) {n : NewReno} (calm : IsCalmReno n) where
  follow-cong :
      (k : ℕ) (v : Vegas n) (t : Tcb) → (follow_new_reno d n k v t).1.cong_state ≡ t.cong_state
  unfolding follow_new_reno
  follow-cong k v t = calm.increase k v.reno t

  slow-cong :
      (k : ℕ) (v : Vegas n) (t : Tcb) → (follow_slow_start d n k v t).1.cong_state ≡ t.cong_state
  unfolding follow_slow_start
  slow-cong k v t = calm.slow k v.reno t

  adjust_window-cong :
      (k : ℕ) (v : Vegas n) (t : Tcb) → (adjust_window d n k v t).1.cong_state ≡ t.cong_state
  unfolding adjust_window raise_ss_thresh
  adjust_window-cong k v t =
      let m = get_cwnd_in_segments t in
      let g = target_cwnd d v t in
      ground (
        arith,
        slow_down-cong m g t,
        linear_mode-cong v.alpha v.beta m (sub32 m g) t,
        slow-cong k v t,
      )

  end_cycle-cong :
      (k : ℕ) (v : Vegas n) (t : Tcb) → (end_cycle d n k v t).1.cong_state ≡ t.cong_state
  unfolding end_cycle
  end_cycle-cong k v t =
      let w : Vegas n = record v { beg_snd_nxt = t.next_tx_sequence } in
      ground (arith, follow-cong k w t, adjust_window-cong k w t)

  pub increase_window-cong :
      (q : Sequence) (k : ℕ) (v : Vegas n) (t : Tcb)
      → (increase_window d n q k v t).1.cong_state ≡ t.cong_state
  unfolding increase_window
  increase_window-cong q k v t =
      ground (arith, follow-cong k v t, end_cycle-cong k v t, slow-cong k v t)
