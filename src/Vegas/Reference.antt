-- ===== src/Vegas/Reference.antt =====
-- TcpVegas without the modification, as ns-3 has it, to compare NS3/1705069/TaskB/tcp-vegas.cc with.
use cse_322_computer_network.Base.{
  ℕ, Bool, true, false, min, ◌≡◌, refl, arith, not, leb, ltb, ◌==◌, ◌&&◌, if◌then◌else◌, add32,
  sub32, ap,
}
use cse_322_computer_network.Tcb.{Tcb, moderate, time_max, get_cwnd_in_segments}
use cse_322_computer_network.Sequence.{Sequence, ge}
use cse_322_computer_network.Double.{Double}
use cse_322_computer_network.Vegas.{
  NewReno, Vegas, end_cycle, adjust_window, follow_new_reno, follow_slow_start, target_cwnd,
  linear_mode, slow_down, raise_ss_thresh,
}

-- The block without the members of the modification.
unfoldable pub forget : Tcb → Tcb
forget t = record t {
  v_count = 0;
  v_count_max = 0;
  vegas_last_cwnd = 0;
  vegas_last_rtt = 0;
  mode = moderate;
}

pub record SameMembers (s t : Tcb) : Type 0 where
  pub v_count : t.v_count ≡ s.v_count
  pub v_count_max : t.v_count_max ≡ s.v_count_max
  pub vegas_last_cwnd : t.vegas_last_cwnd ≡ s.vegas_last_cwnd
  pub vegas_last_rtt : t.vegas_last_rtt ≡ s.vegas_last_rtt
  pub mode : t.mode ≡ s.mode

-- TcpNewReno does not know the members of the modification.
pub record IsUnaware (n : NewReno) : Type 0 where
  pub increase :
      (k : ℕ) (r : n.State) (t : Tcb)
      → n.increase_window k r (forget t)
        ≡ ((n.increase_window k r t).0, forget (n.increase_window k r t).1)
  pub slow :
      (k : ℕ) (r : n.State) (t : Tcb)
      → n.slow_start k r (forget t) ≡ ((n.slow_start k r t).0, forget (n.slow_start k r t).1)
  pub increase_keeps : (k : ℕ) (r : n.State) (t : Tcb) → SameMembers t (n.increase_window k r t).1
  pub slow_keeps : (k : ℕ) (r : n.State) (t : Tcb) → SameMembers t (n.slow_start k r t).1

module _ {n : NewReno} where
  -- PktsAcked of ns-3: the smallest round trips and their count.
  unfoldable pub plain_acked : ℕ → Vegas n → Vegas n
  plain_acked rtt v = if rtt == 0 then v else record v {
    min_rtt = min v.min_rtt rtt;
    base_rtt = min v.base_rtt rtt;
    cnt_rtt = add32 v.cnt_rtt 1;
  }

module _ (d : Double) (n : NewReno) (q : Sequence) where
  -- IncreaseWindow of ns-3, which knows no mode.
  unfoldable pub plain_increase : ℕ → Vegas n → Tcb → Vegas n × Tcb
  plain_increase segments_acked v tcb =
      if not v.doing_vegas_now
      then follow_new_reno d n segments_acked v tcb
      else if ge q tcb.last_acked_seq v.beg_snd_nxt
      then end_cycle d n segments_acked v tcb
      else if ltb tcb.c_wnd tcb.ss_thresh
      then follow_slow_start d n segments_acked v tcb
      else (v, tcb)

slow_down-forget : (m g : ℕ) (t : Tcb) → slow_down m g (forget t) ≡ forget (slow_down m g t)
unfolding forget slow_down
slow_down-forget m g t = refl

linear_mode-forget :
    (a b m f : ℕ) (t : Tcb) → linear_mode a b m f (forget t) ≡ forget (linear_mode a b m f t)
unfolding forget linear_mode
linear_mode-forget a b m f t = ground arith

module _ {n : NewReno} where
  branch-forget :
      (b : Bool) (p p' q q' : Vegas n × Tcb)
      → p ≡ (q.0, forget q.1)
      → p' ≡ (q'.0, forget q'.1)
      → (if b then p else p') ≡ ((if b then q else q').0, forget (if b then q else q').1)
  branch-forget true p p' q q' e f = e
  branch-forget false p p' q q' e f = f

  raise-forget :
      (p q : Vegas n × Tcb)
      → p ≡ (q.0, forget q.1)
      → ◌≡◌ {A = Vegas n × Tcb} (p.0, raise_ss_thresh p.1) (q.0, forget (raise_ss_thresh q.1))
  unfolding forget raise_ss_thresh
  raise-forget p q e = ap (λ (r : Vegas n × Tcb). (r.0, raise_ss_thresh r.1)) e

module _ (d : Double) {n : NewReno} (u : IsUnaware n) where
  follow-forget :
      (k : ℕ) (v : Vegas n) (t : Tcb)
      → follow_new_reno d n k v (forget t)
        ≡ ((follow_new_reno d n k v t).0, forget (follow_new_reno d n k v t).1)
  unfolding follow_new_reno
  follow-forget k v t = rw (u.increase k v.reno t)

  slow-forget :
      (k : ℕ) (v : Vegas n) (t : Tcb)
      → follow_slow_start d n k v (forget t)
        ≡ ((follow_slow_start d n k v t).0, forget (follow_slow_start d n k v t).1)
  unfolding follow_slow_start
  slow-forget k v t = rw (u.slow k v.reno t)

  adjust_window-forget :
      (k : ℕ) (v : Vegas n) (t : Tcb)
      → adjust_window d n k v (forget t)
        ≡ ((adjust_window d n k v t).0, forget (adjust_window d n k v t).1)
  unfolding adjust_window get_cwnd_in_segments target_cwnd forget
  adjust_window-forget k v t =
      let m = get_cwnd_in_segments t in
      let g = target_cwnd d v t in
      let f = sub32 m g in
      let small = ltb t.c_wnd t.ss_thresh in
      let sd : Vegas n × Tcb = (v, slow_down m g t) in
      let lm : Vegas n × Tcb = (v, linear_mode v.alpha v.beta m f t) in
      let ss = follow_slow_start d n k v t in
      let rest = if small then ss else lm in
      let fsd : Vegas n × Tcb = (v, slow_down m g (forget t)) in
      let flm : Vegas n × Tcb = (v, linear_mode v.alpha v.beta m f (forget t)) in
      let fss = follow_slow_start d n k v (forget t) in
      let frest = if small then fss else flm in
      let er =
        branch-forget small fss flm ss lm (slow-forget k v t)
          (ap (λ (b : Tcb). (v, b)) (linear_mode-forget v.alpha v.beta m f t)) in
      let b = ltb v.gamma f && small in
      raise-forget (if b then fsd else frest) (if b then sd else rest)
        (branch-forget b fsd frest sd rest (ap (λ (b : Tcb). (v, b)) (slow_down-forget m g t)) er)

  end_cycle-forget :
      (k : ℕ) (v : Vegas n) (t : Tcb)
      → end_cycle d n k v (forget t) ≡ ((end_cycle d n k v t).0, forget (end_cycle d n k v t).1)
  unfolding end_cycle forget
  end_cycle-forget k v t =
      let w : Vegas n = record v { beg_snd_nxt = t.next_tx_sequence } in
      let e =
        branch-forget (leb v.cnt_rtt 2) (follow_new_reno d n k w (forget t))
          (adjust_window d n k w (forget t)) (follow_new_reno d n k w t) (adjust_window d n k w t)
          (follow-forget k w t) (adjust_window-forget k w t) in
      ap (λ (p : Vegas n × Tcb). (record p.0 { cnt_rtt = 0; min_rtt = time_max }, p.1)) e

  pub plain_increase-forget :
      (q : Sequence) (k : ℕ) (v : Vegas n) (t : Tcb)
      → plain_increase d n q k v (forget t)
        ≡ ((plain_increase d n q k v t).0, forget (plain_increase d n q k v t).1)
  unfolding plain_increase forget
  plain_increase-forget q k v t =
      let same : Vegas n × Tcb = (v, t) in
      let fsame : Vegas n × Tcb = (v, forget t) in
      let ss = follow_slow_start d n k v t in
      let fss = follow_slow_start d n k v (forget t) in
      let nr = follow_new_reno d n k v t in
      let fnr = follow_new_reno d n k v (forget t) in
      let ec = end_cycle d n k v t in
      let fec = end_cycle d n k v (forget t) in
      let small = ltb t.c_wnd t.ss_thresh in
      let turn = ge q t.last_acked_seq v.beg_snd_nxt in
      let grow = if small then ss else same in
      let fgrow = if small then fss else fsame in
      branch-forget (not v.doing_vegas_now) fnr (if turn then fec else fgrow) nr
        (if turn then ec else grow) (follow-forget k v t)
        (branch-forget turn fec fgrow ec grow (end_cycle-forget k v t)
          (branch-forget small fss fsame ss same (slow-forget k v t) refl))

  pub plain_increase-SameMembers :
      (q : Sequence) (k : ℕ) (v : Vegas n) (t : Tcb) → SameMembers t (plain_increase d n q k v t).1
  unfolding plain_increase end_cycle adjust_window follow_new_reno follow_slow_start linear_mode
      slow_down raise_ss_thresh
  plain_increase-SameMembers q k v t =
      ground (arith, u.increase_keeps k v.reno t, u.slow_keeps k v.reno t)
