-- ===== src/Socket/ProcessAck.antt =====
-- ProcessAck: what an acknowledgement does in each congestion state
-- (NS3/1705069/TaskB/tcp-socket-base.cc).
use cse_322_computer_network.Base.{
  ℕ, ◌-◌, ◌/◌, ◌%◌, Bool, true, false, ◌&&◌, ltb, leb, ◌==◌, if◌then◌else◌, add32,
}
use cse_322_computer_network.Sequence.{gt, ge}
use cse_322_computer_network.Tcb.{
  CongState, ca_open, ca_disorder, ca_cwr, ca_recovery, ca_loss, is_open, is_cwr, is_recovery,
  is_loss, complete_cwr,
}
use cse_322_computer_network.Net.{Net}
use cse_322_computer_network.Socket.State.{Socket, ◌▷◌, set_tcb, cong_call, recovery_call}
use cse_322_computer_network.Socket.Transmit.{update_pacing_rate}
use cse_322_computer_network.Socket.Loop.{do_retransmit}
use cse_322_computer_network.Socket.Ack.{
  safe_subtraction, set_cong, change_tx, run_recovery, dup_ack, new_ack,
}

-- The whole segments that an acknowledgement covers, with the bytes left over from before: the
-- segments, their bytes, and the bytes left over now.
pub record Acked : Type 0 where
  pub segs : ℕ
  pub bytes : ℕ
  pub left : ℕ

unfoldable pub count_acked : ℕ → ℕ → ℕ → Acked
count_acked bytes left seg =
    let n = bytes / seg in
    let rest = add32 left (bytes % seg) in
    let whole = bytes - bytes % seg in
    if leb seg rest
    then record { segs = add32 n 1; bytes = add32 whole seg; left = rest - seg }
    else record { segs = n; bytes = whole; left = rest }

module _ {x : Net} where
  abbrev pub pkts_acked : ℕ → Socket x → Socket x
  pkts_acked segs s = cong_call (x.cong.pkts_acked segs s.tcb.last_rtt) s

  abbrev pub to_open : Socket x → Socket x
  to_open s = s ▷ cong_call (x.cong.congestion_state_set ca_open) ▷ set_cong ca_open

  abbrev pub retransmit_partial : ℕ → ℕ → Socket x → Socket x
  retransmit_partial ack bytes s =
      if x.tx_is_retransmitted_data_acked (x.seq.add ack s.tcb.segment_size) s.tx_buffer
      then s
      else do_retransmit s
        ▷ set_tcb (λ t. record t { c_wnd_infl = safe_subtraction t.c_wnd_infl bytes })

  -- An acknowledgement below the recovery point, in CA_RECOVERY.
  unfoldable pub partial_ack : ℕ → Acked → ℕ → Socket x → Socket x
  partial_ack ack acked delivered s =
      let t = if s.sack_enabled then s else change_tx x.tx_mark_head_as_lost s in
      let u = if ltb 0 acked.segs then run_recovery delivered t else t in
      let v = u ▷ retransmit_partial ack acked.bytes ▷ pkts_acked 1 in
      record (new_ack ack v.is_first_partial_ack v) { is_first_partial_ack = false }

  -- An acknowledgement below the recovery point, in CA_LOSS.
  unfoldable pub loss_ack : ℕ → ℕ → Socket x → Socket x
  loss_ack ack segs s =
      s ▷ pkts_acked segs ▷ cong_call (x.cong.increase_window segs) ▷ new_ack ack true

  unfoldable pub cwr_ack : ℕ → ℕ → ℕ → Socket x → Socket x
  cwr_ack ack segs delivered s =
      let t = pkts_acked segs s in
      new_ack ack true (if ltb 0 segs then run_recovery delivered t else t)

  -- The way back to CA_OPEN, by state: the socket, and the segments that may increase the window.
  unfoldable pub settle : CongState → ℕ → ℕ → ℕ → ℕ → Bool → Socket x → Socket x × ℕ
  settle ca_open ack old segs old_dup is_dupack s = (pkts_acked segs s, segs)
  settle ca_disorder ack old segs old_dup is_dupack s =
      let t = if leb old_dup segs then pkts_acked (segs - old_dup) s else s in
      (if is_dupack then t else to_open t, segs)
  settle ca_recovery ack old segs old_dup is_dupack s =
      let n = x.seq.sub ack old / s.tcb.segment_size in
      let t =
        record s { is_first_partial_ack = true }
        ▷ pkts_acked n
        ▷ cong_call (x.cong.cwnd_event complete_cwr)
        ▷ to_open in
      (record t { dup_ack_count = 0 }, n)
  settle ca_loss ack old segs old_dup is_dupack s =
      let n = x.seq.sub ack s.recover / s.tcb.segment_size in
      (record s { is_first_partial_ack = true } ▷ pkts_acked n ▷ to_open, n)
  settle ca_cwr ack old segs old_dup is_dupack s = (s, segs)

  abbrev pub deactivate_recover : ℕ → Socket x → Socket x
  deactivate_recover ack s =
      if ge x.seq ack s.recover then record s { recover_active = false } else s

  -- Fast recovery ends with the window at the threshold.
  abbrev pub leave_recovery : ℕ → Socket x → Socket x
  leave_recovery ack s =
      new_ack ack true s
      ▷ set_tcb (λ t. record t { c_wnd = t.ss_thresh })
      ▷ recovery_call x.recovery_exit

  -- An acknowledgement in CA_OPEN lets the congestion control increase the window.
  abbrev pub grow_window : ℕ → ℕ → Socket x → Socket x
  grow_window ack segs s =
      if is_open s.tcb.cong_state
      then s
        ▷ cong_call (x.cong.increase_window segs)
        ▷ set_tcb (λ t. record t { c_wnd_infl = t.c_wnd })
        ▷ new_ack ack true
      else s

  unfoldable pub full_ack : ℕ → ℕ → ℕ → ℕ → Bool → Socket x → Socket x
  full_ack ack old segs old_dup is_dupack s =
      let (t, n) = settle s.tcb.cong_state ack old segs old_dup is_dupack s in
      let u = deactivate_recover ack t in
      grow_window ack n (if is_recovery s.tcb.cong_state then leave_recovery ack u else u)

  -- An acknowledgement of new data.
  unfoldable pub advance : ℕ → ℕ → ℕ → Bool → ℕ → Socket x → Socket x
  advance ack old old_dup is_dupack delivered s =
      let acked = count_acked (x.seq.sub ack old) s.bytes_acked_not_processed s.tcb.segment_size in
      let t : Socket x = record s {
        bytes_acked_not_processed = acked.left;
        dup_ack_count = if is_dupack then s.dup_ack_count else 0;
      } in
      let below = x.seq.lt ack t.recover in
      if below && is_recovery t.tcb.cong_state
      then partial_ack ack acked delivered t
      else if below && is_loss t.tcb.cong_state
      then loss_ack ack acked.segs t
      else if is_cwr t.tcb.cong_state
      then cwr_ack ack acked.segs delivered t
      else full_ack ack old acked.segs old_dup is_dupack t

  unfoldable pub is_dup_ack : ℕ → ℕ → Bool → Socket x → Bool
  is_dup_ack ack old scoreboard_updated s =
      if s.sack_enabled then scoreboard_updated else ack == old && x.seq.lt ack s.tcb.high_tx_mark

  unfoldable pub process_ack : ℕ → Bool → ℕ → ℕ → Socket x → Socket x
  process_ack ack scoreboard_updated delivered old s =
      let t = set_tcb (λ b. record b { last_acked_seq = ack }) s in
      let dup = is_dup_ack ack old scoreboard_updated t in
      let u = if dup then dup_ack delivered t else t in
      if ack == old && ack == u.tcb.high_tx_mark
      then u
      else if ack == old && gt x.seq ack u.tcb.high_tx_mark
      then update_pacing_rate (set_tcb (λ b. record b { next_tx_sequence = ack }) u)
      else if ack == old
      then update_pacing_rate (pkts_acked 1 u)
      else if gt x.seq ack old
      then update_pacing_rate (advance ack old s.dup_ack_count dup delivered u)
      else update_pacing_rate u
