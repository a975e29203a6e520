-- ===== src/Socket/AckPhase.antt =====
-- What an acknowledgement does to the phase of a connection: DupAck, ProcessAck and the calls around
-- them (NS3/1705069/TaskB/tcp-socket-base.cc).
use cse_322_computer_network.Base.{
  ℕ, ◌+◌, ◌≡◌, refl, arith, Bool, true, false, not, none, some, ◌&&◌, ltb, ◌==◌, if◌then◌else◌,
  List, [], ◌∷◌, ◌∙◌,
}
use cse_322_computer_network.Tcb.{
  is_recovery, ecn_ece_rcvd, CongState, ca_open, ca_disorder, ca_cwr, ca_recovery, ca_loss,
}
use cse_322_computer_network.Wire.{
  TcpOption, win_scale, sack_permitted, sack, timestamp, other_option, notify_send,
}
use cse_322_computer_network.Sequence.{gt}
use cse_322_computer_network.Net.{Net}
use cse_322_computer_network.Socket.State.{
  Socket, cong_call, set_tcb, emit, computed_rto, is_syn_rcvd, retx_timeout,
}
use cse_322_computer_network.Socket.Transmit.{update_pacing_rate}
use cse_322_computer_network.Socket.Ack.{
  enter_cwr, mark_lost, begin_recovery, enter_recovery, dup_ack_in_recovery, dup_ack_in_disorder,
  leave_open, count_dup_ack, dup_ack, new_ack, change_tx, run_recovery,
}
use cse_322_computer_network.Socket.ProcessAck.{
  Acked, count_acked, pkts_acked, partial_ack, loss_ack, cwr_ack, settle, full_ack, advance,
  is_dup_ack, process_ack, retransmit_partial, deactivate_recover, leave_recovery, grow_window,
}
use cse_322_computer_network.Socket.ReceivedAck.{
  read_options, note_retrans_acked, leave_cwr, note_echo, run_cong_control,
}
use cse_322_computer_network.Socket.Phase.{
  Onward, same-Onward, trans-Onward, do_retransmit-Onward, update_pacing_rate-state,
}

module _ {x : Net} where
  enter_cwr-state : (d : ℕ) (s : Socket x) → (enter_cwr d s).state ≡ s.state
  unfolding enter_cwr
  enter_cwr-state d s = ground arith

  mark_lost-state : (s : Socket x) → (mark_lost s).state ≡ s.state
  unfolding mark_lost
  mark_lost-state s = ground arith

  begin_recovery-state : (d : ℕ) (s : Socket x) → (begin_recovery d s).state ≡ s.state
  unfolding begin_recovery
  begin_recovery-state d s = ground (arith, mark_lost-state s)

  enter_recovery-Onward : (d : ℕ) (s : Socket x) → Onward s (enter_recovery d s)
  unfolding enter_recovery
  enter_recovery-Onward d s =
      trans-Onward (same-Onward (begin_recovery-state d s)) (do_retransmit-Onward _)

  dup_ack_in_recovery-state : (d : ℕ) (s : Socket x) → (dup_ack_in_recovery d s).state ≡ s.state
  unfolding dup_ack_in_recovery
  dup_ack_in_recovery-state d s = ground arith

  dup_ack_in_disorder-Onward : (d : ℕ) (s : Socket x) → Onward s (dup_ack_in_disorder d s)
  unfolding dup_ack_in_disorder
  dup_ack_in_disorder-Onward d s = ground (arith, enter_recovery-Onward d s)

  begin_dup_ack-state : (s : Socket x) → (leave_open (count_dup_ack s)).state ≡ s.state
  unfolding leave_open count_dup_ack
  begin_dup_ack-state s = ground arith

  dup_ack-Onward : (d : ℕ) (s : Socket x) → Onward s (dup_ack d s)
  unfolding dup_ack
  dup_ack-Onward d s =
      let t = leave_open (count_dup_ack s) in
      ground (
        arith,
        begin_dup_ack-state s,
        dup_ack_in_recovery-state d t,
        dup_ack_in_disorder-Onward d t,
      )

  -- A test between two sockets in the same state.
  if_state :
      (b : Bool) (s t u : Socket x)
      → t.state ≡ s.state
      → u.state ≡ s.state
      → (if b then t else u).state ≡ s.state
  if_state true s t u e f = e
  if_state false s t u e f = f

  new_ack-state : (ack : ℕ) (r : Bool) (s : Socket x) → (new_ack ack r s).state ≡ s.state
  unfolding new_ack
  new_ack-state ack r s =
      let t : Socket x = record s { data_retr_count = s.data_retries } in
      let o = computed_rto t in
      let t1 : Socket x = record t { rto = o; retx_event = some (retx_timeout (t.now + o)) } in
      let b = not (is_syn_rcvd t.state) && r in
      let u : Socket x = if b then t1 else t in
      let eu = if_state b s t1 t refl refl in
      let u1 : Socket x = emit (notify_send (x.tx_available u.tx_buffer)) u in
      let c = ltb 0 (x.tx_available u.tx_buffer) in
      let v : Socket x = if c then u1 else u in
      let ev = if_state c s u1 u eu eu in
      let v1 : Socket x = set_tcb (λ k. record k { next_tx_sequence = ack }) v in
      let d = gt x.seq ack v.tcb.next_tx_sequence in
      let w : Socket x = if d then v1 else v in
      let ew = if_state d s v1 v ev ev in if_state _ s (record w { retx_event = none }) w ew ew

  retransmit_partial-Onward : (ack n : ℕ) (s : Socket x) → Onward s (retransmit_partial ack n s)
  retransmit_partial-Onward ack n s = ground (arith, do_retransmit-Onward s)

  partial_ack-Onward :
      (ack : ℕ) (a : Acked) (d : ℕ) (s : Socket x) → Onward s (partial_ack ack a d s)
  unfolding partial_ack
  partial_ack-Onward ack a d s =
      let t = if s.sack_enabled then s else change_tx x.tx_mark_head_as_lost s in
      let u = if ltb 0 a.segs then run_recovery d t else t in
      let v = pkts_acked 1 (retransmit_partial ack a.bytes u) in
      let e : u.state ≡ s.state = ground arith in
      trans-Onward (same-Onward e) (
        trans-Onward (retransmit_partial-Onward ack a.bytes u)
          (same-Onward (new_ack-state ack v.is_first_partial_ack v)))

  loss_ack-state : (ack n : ℕ) (s : Socket x) → (loss_ack ack n s).state ≡ s.state
  unfolding loss_ack
  loss_ack-state ack n s = new_ack-state _ _ _

  cwr_ack-state : (ack n d : ℕ) (s : Socket x) → (cwr_ack ack n d s).state ≡ s.state
  unfolding cwr_ack
  cwr_ack-state ack n d s =
      let t = pkts_acked n s in
      let u = if ltb 0 n then run_recovery d t else t in
      let e : u.state ≡ s.state = ground arith in new_ack-state ack true u ∙ e

  settle-state :
      (c : CongState) (ack old n k : ℕ) (b : Bool) (s : Socket x)
      → (settle c ack old n k b s).0.state ≡ s.state
  unfolding settle
  settle-state ca_open ack old n k b s = refl
  settle-state ca_disorder ack old n k b s = ground arith
  settle-state ca_recovery ack old n k b s = refl
  settle-state ca_loss ack old n k b s = refl
  settle-state ca_cwr ack old n k b s = refl

  leave_recovery-state : (ack : ℕ) (s : Socket x) → (leave_recovery ack s).state ≡ s.state
  leave_recovery-state ack s = new_ack-state ack true s

  grow_window-state : (ack n : ℕ) (s : Socket x) → (grow_window ack n s).state ≡ s.state
  grow_window-state ack n s =
      let t : Socket x = cong_call (x.cong.increase_window n) s in
      let u : Socket x = set_tcb (λ b. record b { c_wnd_infl = b.c_wnd }) t in
      ground (arith, new_ack-state ack true u)

  full_ack-state :
      (ack old n k : ℕ) (b : Bool) (s : Socket x) → (full_ack ack old n k b s).state ≡ s.state
  unfolding full_ack
  full_ack-state ack old n k b s =
      let (t, m) = settle s.tcb.cong_state ack old n k b s in
      let u = deactivate_recover ack t in
      let w : Socket x = if is_recovery s.tcb.cong_state then leave_recovery ack u else u in
      let e : u.state ≡ s.state = ground (arith, settle-state s.tcb.cong_state ack old n k b s) in
      let f : w.state ≡ u.state = ground (arith, leave_recovery-state ack u) in
      grow_window-state ack m w ∙ f ∙ e

  advance-Onward :
      (ack old k : ℕ) (b : Bool) (d : ℕ) (s : Socket x) → Onward s (advance ack old k b d s)
  unfolding advance
  advance-Onward ack old k b d s =
      let acked = count_acked (x.seq.sub ack old) s.bytes_acked_not_processed s.tcb.segment_size in
      let t : Socket x = record s {
        bytes_acked_not_processed = acked.left;
        dup_ack_count = if b then s.dup_ack_count else 0;
      } in
      ground (
        arith,
        partial_ack-Onward ack acked d t,
        loss_ack-state ack acked.segs t,
        cwr_ack-state ack acked.segs d t,
        full_ack-state ack old acked.segs k b t,
      )

  -- ProcessAck after the duplicate is dealt with.
  acknowledged-Onward :
      (ack old k : ℕ) (b : Bool) (d : ℕ) (u : Socket x)
      → Onward u (
          if ack == old && ack == u.tcb.high_tx_mark
          then u
          else if ack == old && gt x.seq ack u.tcb.high_tx_mark
          then update_pacing_rate (set_tcb (λ t. record t { next_tx_sequence = ack }) u)
          else if ack == old
          then update_pacing_rate (pkts_acked 1 u)
          else if gt x.seq ack old
          then update_pacing_rate (advance ack old k b d u)
          else update_pacing_rate u)
  acknowledged-Onward ack old k b d u = ground (
    arith,
    update_pacing_rate-state u,
    update_pacing_rate-state (set_tcb (λ t. record t { next_tx_sequence = ack }) u),
    update_pacing_rate-state (pkts_acked 1 u),
    update_pacing_rate-state (advance ack old k b d u),
    advance-Onward ack old k b d u,
  )

  pub process_ack-Onward :
      (ack : ℕ) (b : Bool) (d old : ℕ) (s : Socket x) → Onward s (process_ack ack b d old s)
  unfolding process_ack
  process_ack-Onward ack b d old s =
      let t : Socket x = record s { tcb = record s.tcb { last_acked_seq = ack } } in
      let dup = is_dup_ack ack old b t in
      let u : Socket x = if dup then dup_ack d t else t in
      let k : Onward s u = ground (arith, dup_ack-Onward d t) in
      trans-Onward k (acknowledged-Onward ack old s.dup_ack_count dup d u)

  pub read_options-state :
      (os : List TcpOption) (n : ℕ) (s : Socket x) → (read_options os n s).0.state ≡ s.state
  unfolding read_options
  read_options-state [] n s = refl
  read_options-state (sack bs ∷ os) n s =
      let (tx, rate, m) = x.tx_update bs s.tx_buffer s.rate in
      read_options-state os m (record s { tx_buffer = tx; rate = rate })
  read_options-state (win_scale _ ∷ os) n s = read_options-state os n s
  read_options-state (sack_permitted ∷ os) n s = read_options-state os n s
  read_options-state (timestamp _ _ ∷ os) n s = read_options-state os n s
  read_options-state (other_option ∷ os) n s = read_options-state os n s

  pub note_retrans_acked-state :
      (ack old : ℕ) (s : Socket x) → (note_retrans_acked ack old s).state ≡ s.state
  unfolding note_retrans_acked
  note_retrans_acked-state ack old s = ground arith

  pub leave_cwr-state : (ack : ℕ) (s : Socket x) → (leave_cwr ack s).state ≡ s.state
  unfolding leave_cwr
  leave_cwr-state ack s = ground arith

  pub note_echo-state :
      (ack old : ℕ) (b : Bool) (d : ℕ) (s : Socket x) → (note_echo ack old b d s).state ≡ s.state
  unfolding note_echo
  note_echo-state ack old b d s =
      let t : Socket x = record s {
        ecn_echo_seq = ack;
        tcb = record s.tcb { ecn_state = ecn_ece_rcvd };
      } in
      ground (arith, enter_cwr-state d t)

  pub run_cong_control-state :
      (a b c : ℕ) (s : Socket x) → (run_cong_control a b c s).state ≡ s.state
  unfolding run_cong_control
  run_cong_control-state a b c s = ground arith
