-- ===== src/Vegas/Rtt.antt =====
-- The round-trip samples of TcpVegas (NS3/1705069/TaskB/tcp-vegas.cc), and any sequence of calls into
-- the class.
use cse_322_computer_network.Base.{
  ℕ, ◌≤◌, ◌<◌, min, ◌≡◌, refl, arith, List, [], ◌∷◌, ◌==◌, if◌then◌else◌,
}
use cse_322_computer_network.Tcb.{Tcb, CongState, time_max, get_cwnd_in_segments}
use cse_322_computer_network.Sequence.{Sequence}
use cse_322_computer_network.Double.{Double, IsIeee}
use cse_322_computer_network.Vegas.{
  NewReno, Vegas, pkts_acked, congestion_state_set, increase_window, end_cycle, adjust_window,
  follow_new_reno, follow_slow_start, target_cwnd, new_vegas, fork,
}
use cse_322_computer_network.Vegas.Window.{target_cwnd-le}

-- The smallest sample that is not 0, and not above the start.
abbrev pub least : ℕ → List ℕ → ℕ
least m [] = m
least m (r ∷ rs) = least (if r == 0 then m else min m r) rs

module _ {n : NewReno} where
  -- `PktsAcked` for one acknowledgement after the other.
  abbrev pub pkts_acked_all : List ℕ → Vegas n → Tcb → Vegas n × Tcb
  pkts_acked_all [] v tcb = (v, tcb)
  pkts_acked_all (r ∷ rs) v tcb = let (w, t) = pkts_acked 1 r v tcb in pkts_acked_all rs w t

  -- PktsAcked for one sample after the other keeps the least of all samples that are not 0 in the
  -- base round trip and in the smallest round trip of the cycle.
  pub pkts_acked-least :
      (rs : List ℕ) (v : Vegas n) (tcb : Tcb)
      → ((pkts_acked_all rs v tcb).0.base_rtt ≡ least v.base_rtt rs)
        × ((pkts_acked_all rs v tcb).0.min_rtt ≡ least v.min_rtt rs)
  unfolding pkts_acked
  pkts_acked-least [] v tcb = (refl, refl)
  pkts_acked-least (r ∷ rs) v tcb =
      let (w, t) = pkts_acked 1 r v tcb in ground (arith, pkts_acked-least rs w t)

-- A call of the socket into TcpVegas.
pub data Call : Type 0 where
  acked : ℕ → ℕ → Call
  state_set : CongState → Call
  increase : ℕ → Call
  forked : Call

module _ (d : Double) (n : NewReno) (q : Sequence) where
  -- The object after a call, with the block as the socket has it at that time.
  unfoldable pub call : Vegas n → Tcb × Call → Vegas n
  call v (tcb, acked segments rtt) = (pkts_acked segments rtt v tcb).0
  call v (tcb, state_set c) = (congestion_state_set c v tcb).0
  call v (tcb, increase segments) = (increase_window d n q segments v tcb).0
  call v (tcb, forked) = fork v

  unfoldable pub calls : Vegas n → List (Tcb × Call) → Vegas n
  calls v [] = v
  calls v (c ∷ cs) = calls (call v c) cs

-- The base round trip is positive and not above the minimum of the cycle.
pub record IsOrdered {n : NewReno} (v : Vegas n) : Type 0 where
  pub positive : 0 < v.base_rtt
  pub ordered : v.base_rtt ≤ v.min_rtt
  pub bounded : v.base_rtt ≤ time_max

new_vegas-IsOrdered : (n : NewReno) (r : n.State) → IsOrdered (new_vegas n r)
unfolding new_vegas
new_vegas-IsOrdered n r = omega arith

module _ (d : Double) (n : NewReno) (q : Sequence) where
  pub increase_window-IsOrdered :
      (segments : ℕ) (v : Vegas n) (tcb : Tcb)
      → IsOrdered v
      → IsOrdered (increase_window d n q segments v tcb).0
  unfolding increase_window end_cycle adjust_window follow_new_reno follow_slow_start
  increase_window-IsOrdered segments v tcb o = ground arith

  -- Every call of the socket into TcpVegas keeps the base round trip positive, not above the
  -- smallest round trip of the cycle, and not above the largest time, whatever the control block
  -- holds.
  pub call-IsOrdered : (v : Vegas n) (c : Tcb × Call) → IsOrdered v → IsOrdered (call d n q v c)
  unfolding call pkts_acked congestion_state_set fork
  call-IsOrdered v (tcb, acked segments rtt) o = ground arith
  call-IsOrdered v (tcb, state_set c) o = ground arith
  call-IsOrdered v (tcb, increase segments) o = increase_window-IsOrdered segments v tcb o
  call-IsOrdered v (tcb, forked) o = ground arith

  pub calls-IsOrdered :
      (v : Vegas n) (cs : List (Tcb × Call)) → IsOrdered v → IsOrdered (calls d n q v cs)
  unfolding calls
  calls-IsOrdered v [] o = o
  calls-IsOrdered v (c ∷ cs) o = calls-IsOrdered (call d n q v c) cs (call-IsOrdered v c o)

  -- The assertion of TcpVegas::IncreaseWindow never fails: after any calls on a new object, with
  -- any contents of the control block, the target is not above the window in segments, for a
  -- window of less than 2 ^ 32 segments; under the laws of IEEE 754 that the model names.
  pub assert_never_fails :
      IsIeee d
      → (r : n.State) (cs : List (Tcb × Call)) (tcb : Tcb) → get_cwnd_in_segments tcb < 4294967296
      → target_cwnd d (calls d n q (new_vegas n r) cs) tcb ≤ get_cwnd_in_segments tcb
  assert_never_fails ieee r cs tcb small =
      let o = calls-IsOrdered (new_vegas n r) cs (new_vegas-IsOrdered n r) in
      target_cwnd-le ieee (calls d n q (new_vegas n r) cs) tcb (omega arith) o.ordered small
