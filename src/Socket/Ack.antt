-- ===== src/Socket/Ack.antt =====
-- Loss recovery: EnterCwr, EnterRecovery, DupAck and NewAck
-- (NS3/1705069/TaskB/tcp-socket-base.cc).
use cse_322_computer_network.Base.{
  ℕ, ◌+◌, ◌-◌, ◌/◌, Bool, true, not, ◌&&◌, ◌||◌, ltb, ◌==◌, if◌then◌else◌, add32, none, some,
}
use cse_322_computer_network.Sequence.{gt, ge}
use cse_322_computer_network.Tcb.{
  Tcb, CongState, ca_disorder, ca_cwr, ca_recovery, is_open, is_disorder, is_recovery, is_loss,
  moderate,
}
use cse_322_computer_network.Wire.{notify_send}
use cse_322_computer_network.Net.{Net}
use cse_322_computer_network.Socket.State.{
  Socket, retx_timeout, is_syn_rcvd, is_fin_wait_1, is_closing, ◌▷◌, emit, set_tcb, cong_call,
  recovery_call, has_cong_control, computed_rto,
}
use cse_322_computer_network.Socket.Transmit.{
  bytes_in_flight, note_bytes_in_flight, un_ack_data_count,
}
use cse_322_computer_network.Socket.Loop.{do_retransmit}

unfoldable pub safe_subtraction : ℕ → ℕ → ℕ
safe_subtraction a b = if ltb b a then a - b else 0

-- The modification: a fast retransmit halves the counter and ends the aggresive mode.
unfoldable pub calm_vegas : Tcb → Tcb
calm_vegas t = record t { v_count = t.v_count / 2; mode = moderate }

module _ {x : Net} where
  abbrev pub set_cong : CongState → Socket x → Socket x
  set_cong c s = set_tcb (λ t. record t { cong_state = c }) s

  abbrev pub change_tx : (x.Tx → x.Tx) → Socket x → Socket x
  change_tx f s = record s { tx_buffer = f s.tx_buffer }

  -- `m_tcb->m_ssThresh = m_congestionControl->GetSsThresh (m_tcb, bytes)`.
  abbrev pub set_ss_thresh : ℕ → Socket x → Socket x
  set_ss_thresh bytes s =
      set_tcb (λ t. record t { ss_thresh = x.cong.get_ss_thresh s.congestion t bytes }) s

  -- The recovery algorithm runs unless the congestion control does its work itself.
  abbrev pub start_recovery : ℕ → Socket x → Socket x
  start_recovery delivered s =
      if has_cong_control s
      then s
      else recovery_call (x.recovery_enter s.dup_ack_count (un_ack_data_count s) delivered) s

  abbrev pub run_recovery : ℕ → Socket x → Socket x
  run_recovery delivered s =
      if has_cong_control s then s else recovery_call (x.recovery_do delivered) s

  unfoldable pub enter_cwr : ℕ → Socket x → Socket x
  enter_cwr delivered s =
      s
      ▷ note_bytes_in_flight
      ▷ set_ss_thresh (bytes_in_flight s)
      ▷ set_tcb (λ t. record t { c_wnd_infl = t.ss_thresh; cong_state = ca_cwr })
      ▷ λ s. record s { recover = s.tcb.high_tx_mark } ▷ start_recovery delivered

  -- Without SACK one segment has left the network and the head is lost.
  unfoldable pub mark_lost : Socket x → Socket x
  mark_lost s =
      if not s.sack_enabled
      then change_tx (λ t. x.tx_mark_head_as_lost (x.tx_add_reno_sack t)) s
      else if x.tx_is_lost (x.tx_head_sequence s.tx_buffer) s.tx_buffer
      then s
      else change_tx x.tx_mark_head_as_lost s

  -- EnterRecovery up to the retransmission.
  unfoldable pub begin_recovery : ℕ → Socket x → Socket x
  begin_recovery delivered s =
      let t = mark_lost s ▷ λ s.
      record s { recover = s.tcb.high_tx_mark; recover_active = true }
      ▷ set_tcb calm_vegas
      ▷ cong_call (x.cong.congestion_state_set ca_recovery)
      ▷ set_cong ca_recovery
      ▷ note_bytes_in_flight in
      let bytes =
        if t.sack_enabled
        then bytes_in_flight t
        else add32 (bytes_in_flight t) t.tcb.segment_size in
      t ▷ set_ss_thresh bytes ▷ start_recovery delivered

  unfoldable pub enter_recovery : ℕ → Socket x → Socket x
  enter_recovery delivered s = s ▷ begin_recovery delivered ▷ do_retransmit

  -- DupAck in CA_RECOVERY.
  unfoldable pub dup_ack_in_recovery : ℕ → Socket x → Socket x
  dup_ack_in_recovery delivered s =
      (if s.sack_enabled then s else change_tx x.tx_add_reno_sack s) ▷ run_recovery delivered

  -- DupAck in CA_DISORDER: recovery at the threshold, or when the buffer sees a loss.
  unfoldable pub dup_ack_in_disorder : ℕ → Socket x → Socket x
  dup_ack_in_disorder delivered s =
      if s.dup_ack_count == s.retx_thresh
        && (ge x.seq s.high_rx_ack_mark s.recover || not s.recover_active)
      then enter_recovery delivered s
      else if x.tx_is_lost (x.seq.add s.high_rx_ack_mark s.tcb.segment_size) s.tx_buffer
      then enter_recovery delivered s
      else if not s.sack_enabled && s.limited_tx
      then change_tx x.tx_add_reno_sack s
      else s

  -- The first duplicate takes the machine from CA_OPEN to CA_DISORDER.
  unfoldable pub leave_open : Socket x → Socket x
  leave_open s =
      if is_open s.tcb.cong_state
      then s ▷ cong_call (x.cong.congestion_state_set ca_disorder) ▷ set_cong ca_disorder
      else s

  unfoldable pub count_dup_ack : Socket x → Socket x
  count_dup_ack s =
      if is_recovery s.tcb.cong_state
      then s
      else record s { dup_ack_count = add32 s.dup_ack_count 1 }

  unfoldable pub dup_ack : ℕ → Socket x → Socket x
  dup_ack delivered s =
      let t = s ▷ count_dup_ack ▷ leave_open in
      if is_loss s.tcb.cong_state
      then s
      else if is_recovery t.tcb.cong_state
      then dup_ack_in_recovery delivered t
      else if is_disorder t.tcb.cong_state
      then dup_ack_in_disorder delivered t
      else t

  unfoldable pub new_ack : ℕ → Bool → Socket x → Socket x
  new_ack ack reset_rto s =
      let t = record s { data_retr_count = s.data_retries } in
      let r = computed_rto t in
      let u =
        if not (is_syn_rcvd t.state) && reset_rto
        then record t { rto = r; retx_event = some (retx_timeout (t.now + r)) }
        else t in
      let v =
        if ltb 0 (x.tx_available u.tx_buffer)
        then emit (notify_send (x.tx_available u.tx_buffer)) u
        else u in
      let w =
        if gt x.seq ack v.tcb.next_tx_sequence
        then set_tcb (λ b. record b { next_tx_sequence = ack }) v
        else v in
      if x.tx_size w.tx_buffer == 0 && not (is_fin_wait_1 w.state) && not (is_closing w.state)
      then record w { retx_event = none }
      else w
