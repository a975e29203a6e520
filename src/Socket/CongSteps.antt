-- ===== src/Socket/CongSteps.antt =====
-- The congestion states that an acknowledgement leads to: DupAck, NewAck and ProcessAck
-- (NS3/1705069/TaskB/tcp-socket-base.cc).
use cse_322_computer_network.Base.{
  ℕ, ◌+◌, ◌≡◌, arith, Bool, true, false, not, ◌&&◌, ltb, ◌==◌, if◌then◌else◌, add32, none, some,
  ◌∙◌,
}
use cse_322_computer_network.Sequence.{gt}
use cse_322_computer_network.Tcb.{ca_recovery}
use cse_322_computer_network.Wire.{notify_send}
use cse_322_computer_network.Net.{Net}
use cse_322_computer_network.Socket.State.{
  Socket, retx_timeout, is_syn_rcvd, is_fin_wait_1, is_closing, ◌▷◌, emit, computed_rto, set_tcb,
  cong_call, has_cong_control,
}
use cse_322_computer_network.Socket.Transmit.{
  bytes_in_flight, note_bytes_in_flight, un_ack_data_count, update_pacing_rate,
}
use cse_322_computer_network.Socket.Loop.{do_retransmit}
use cse_322_computer_network.Socket.Ack.{
  calm_vegas, mark_lost, begin_recovery, enter_recovery, dup_ack_in_recovery, new_ack, set_cong,
  start_recovery, run_recovery, change_tx, set_ss_thresh,
}
use cse_322_computer_network.Socket.ProcessAck.{
  Acked, pkts_acked, retransmit_partial, partial_ack, loss_ack, cwr_ack,
}
use cse_322_computer_network.Socket.Sending.{send_data_packet_lem}
use cse_322_computer_network.Socket.Steady.{
  IsCalm, Steady, same-Steady, trans-Steady, branch-Steady, cong_call-Steady, recovery_call-Steady,
}

module _ {x : Net} where
  do_retransmit-Steady : (s : Socket x) → Steady s (do_retransmit s)
  unfolding do_retransmit
  do_retransmit-Steady s =
      let (seq, n) : ℕ × ℕ = elim (x.tx_next_seg s.r_wnd false s.tx_buffer) [
        | none ↦ (x.tx_head_sequence s.tx_buffer, s.tcb.segment_size)
        | some (next, next_high) ↦ (next, x.seq.sub next_high next)
      ] in
      let u : Socket x = record s { tcb = record s.tcb { next_tx_sequence = seq } } in
      ground (arith, send_data_packet_lem seq n true u)

  pub update_pacing_rate-Steady : (s : Socket x) → Steady s (update_pacing_rate s)
  unfolding update_pacing_rate
  update_pacing_rate-Steady s = ground arith

  pub new_ack-Steady : (ack : ℕ) (r : Bool) (s : Socket x) → Steady s (new_ack ack r s)
  unfolding new_ack
  new_ack-Steady ack r s =
      let t : Socket x = record s { data_retr_count = s.data_retries } in
      let o = computed_rto t in
      let t1 : Socket x = record t { rto = o; retx_event = some (retx_timeout (t.now + o)) } in
      let b = not (is_syn_rcvd t.state) && r in
      let u : Socket x = if b then t1 else t in
      let eu : Steady s u = branch-Steady b (ground arith) (ground arith) in
      let u1 : Socket x = emit (notify_send (x.tx_available u.tx_buffer)) u in
      let c = ltb 0 (x.tx_available u.tx_buffer) in
      let v : Socket x = if c then u1 else u in
      let ev : Steady u v = branch-Steady c (ground arith) (ground arith) in
      let v1 : Socket x = set_tcb (λ k. record k { next_tx_sequence = ack }) v in
      let d = gt x.seq ack v.tcb.next_tx_sequence in
      let w : Socket x = if d then v1 else v in
      let ew : Steady v w = branch-Steady d (ground arith) (ground arith) in
      let e =
        x.tx_size w.tx_buffer == 0 && not (is_fin_wait_1 w.state) && not (is_closing w.state) in
      trans-Steady eu
        (trans-Steady ev (trans-Steady ew (branch-Steady e (ground arith) (same-Steady w))))

module _ {x : Net} (calm : IsCalm x) where
  pub pkts_acked-Steady : (n : ℕ) (s : Socket x) → Steady s (pkts_acked n s)
  pkts_acked-Steady n s =
      cong_call-Steady (x.cong.pkts_acked n s.tcb.last_rtt) s (calm.acked n s.tcb.last_rtt)

  pub run_recovery-Steady : (n : ℕ) (s : Socket x) → Steady s (run_recovery n s)
  run_recovery-Steady n s =
      branch-Steady (has_cong_control s) (same-Steady s)
        (recovery_call-Steady (x.recovery_do n) s (calm.recover n))

  pub start_recovery-Steady : (n : ℕ) (s : Socket x) → Steady s (start_recovery n s)
  start_recovery-Steady n s = branch-Steady (has_cong_control s) (same-Steady s) (
      recovery_call-Steady (x.recovery_enter s.dup_ack_count (un_ack_data_count s) n) s
        (calm.enter s.dup_ack_count (un_ack_data_count s) n))

  begin_recovery-cong : (n : ℕ) (s : Socket x) → (begin_recovery n s).tcb.cong_state ≡ ca_recovery
  unfolding begin_recovery
  begin_recovery-cong n s =
      let t = mark_lost s ▷ λ s.
      record s { recover = s.tcb.high_tx_mark; recover_active = true }
      ▷ set_tcb calm_vegas
      ▷ cong_call (x.cong.congestion_state_set ca_recovery)
      ▷ set_cong ca_recovery
      ▷ note_bytes_in_flight in
      let bytes =
        if t.sack_enabled
        then bytes_in_flight t
        else add32 (bytes_in_flight t) t.tcb.segment_size in
      let k = start_recovery-Steady n (set_ss_thresh bytes t) in k.cong_state

  pub enter_recovery-cong :
      (n : ℕ) (s : Socket x) → (enter_recovery n s).tcb.cong_state ≡ ca_recovery
  unfolding enter_recovery
  enter_recovery-cong n s =
      let k = do_retransmit-Steady (begin_recovery n s) in k.cong_state ∙ begin_recovery-cong n s

  pub dup_ack_in_recovery-Steady : (n : ℕ) (s : Socket x) → Steady s (dup_ack_in_recovery n s)
  unfolding dup_ack_in_recovery
  dup_ack_in_recovery-Steady n s =
      let t : Socket x = if s.sack_enabled then s else change_tx x.tx_add_reno_sack s in
      let k : Steady s t = branch-Steady s.sack_enabled (same-Steady s) (ground arith) in
      trans-Steady k (run_recovery-Steady n t)

  retransmit_partial-Steady : (ack n : ℕ) (s : Socket x) → Steady s (retransmit_partial ack n s)
  retransmit_partial-Steady ack n s = let k = do_retransmit-Steady s in ground (arith, k)

  recovered-Steady :
      (b : Bool) (n : ℕ) (s : Socket x) → Steady s (if b then run_recovery n s else s)
  recovered-Steady b n s = branch-Steady b (run_recovery-Steady n s) (same-Steady s)

  pub partial_ack-Steady :
      (ack : ℕ) (a : Acked) (n : ℕ) (s : Socket x) → Steady s (partial_ack ack a n s)
  unfolding partial_ack
  partial_ack-Steady ack a n s =
      let t : Socket x = if s.sack_enabled then s else change_tx x.tx_mark_head_as_lost s in
      let u : Socket x = if ltb 0 a.segs then run_recovery n t else t in
      let w : Socket x = retransmit_partial ack a.bytes u in
      let v : Socket x = pkts_acked 1 w in
      let z : Socket x = new_ack ack v.is_first_partial_ack v in
      let kt : Steady s t = branch-Steady s.sack_enabled (same-Steady s) (ground arith) in
      let kz : Steady z (record z { is_first_partial_ack = false }) = ground arith in
      trans-Steady kt (
        trans-Steady (recovered-Steady (ltb 0 a.segs) n t) (
          trans-Steady (retransmit_partial-Steady ack a.bytes u) (
            trans-Steady (pkts_acked-Steady 1 w)
              (trans-Steady (new_ack-Steady ack v.is_first_partial_ack v) kz))))

  pub cwr_ack-Steady : (ack segs n : ℕ) (s : Socket x) → Steady s (cwr_ack ack segs n s)
  unfolding cwr_ack
  cwr_ack-Steady ack segs n s =
      let t : Socket x = pkts_acked segs s in
      let u : Socket x = if ltb 0 segs then run_recovery n t else t in
      trans-Steady (pkts_acked-Steady segs s)
        (trans-Steady (recovered-Steady (ltb 0 segs) n t) (new_ack-Steady ack true u))

  pub loss_ack-cong :
      (ack segs : ℕ) (s : Socket x) → (loss_ack ack segs s).tcb.cong_state ≡ s.tcb.cong_state
  unfolding loss_ack
  loss_ack-cong ack segs s =
      let t : Socket x = pkts_acked segs s in
      let u : Socket x = cong_call (x.cong.increase_window segs) t in
      let k = pkts_acked-Steady segs s in
      let l = new_ack-Steady ack true u in
      l.cong_state ∙ calm.increase segs t.congestion t.tcb ∙ k.cong_state
