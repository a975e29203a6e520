-- ===== src/Socket/Timeouts.antt =====
-- What the timers of a socket do: ReTxTimeout, DelAckTimeout, LastAckTimeout, PersistTimeout
-- (NS3/1705069/TaskB/tcp-socket-base.cc).
use cse_322_computer_network.Base.{
  ℕ, ◌+◌, ◌-◌, ◌*◌, min, true, not, ◌&&◌, ◌||◌, ◌==◌, if◌then◌else◌, none, some, [],
}
use cse_322_computer_network.Sequence.{ge}
use cse_322_computer_network.Tcb.{Tcb, ca_loss, is_loss, moderate, is_use_ecn_on, loss, delayed_ack}
use cse_322_computer_network.Wire.{
  Flags, no_flags, flag_fin, flag_syn, flag_fin_ack, flag_syn_ece_cwr, TcpHeader, sent,
  notify_error_close,
}
use cse_322_computer_network.Net.{Net}
use cse_322_computer_network.Socket.State.{
  Socket, is_closed, is_time_wait, is_syn_sent, is_fin_wait_1, is_closing, is_last_ack,
  before_established, is_established, ◌▷◌, emit, set_tcb, cong_call,
}
use cse_322_computer_network.Socket.Send.{
  ports, deallocate_end_point, add_options, advertised_window_size, note_adv_wnd, send_empty_packet,
}
use cse_322_computer_network.Socket.Transmit.{bytes_in_flight, note_bytes_in_flight}
use cse_322_computer_network.Socket.Loop.{send_pending_data}
use cse_322_computer_network.Socket.Close.{arm_last_ack}
use cse_322_computer_network.Socket.Receive.{send_ack_or_echo}
use cse_322_computer_network.Socket.Ack.{set_ss_thresh}

-- A minute, the longest retransmission and persist timeout.
abbrev pub minute : ℕ
minute = 60000000000

-- The modification: a timeout clears the counter and ends the aggresive mode.
unfoldable pub reset_vegas : Tcb → Tcb
reset_vegas t = record t { v_count = 0; mode = moderate }

module _ {x : Net} where
  -- A SYN, with the ECN flags if ECN is on.
  unfoldable pub send_syn : Socket x → Socket x
  send_syn s =
      send_empty_packet (if is_use_ecn_on s.tcb.use_ecn then flag_syn_ece_cwr else flag_syn) s

  -- No data retries are left.
  unfoldable pub drop_connection : Socket x → Socket x
  drop_connection s = deallocate_end_point (emit notify_error_close s)

  abbrev pub reset_sack : Socket x → Socket x
  reset_sack s = record s {
    tx_buffer =
        x.tx_set_sent_list_lost (not s.sack_enabled)
          (if s.sack_enabled then s.tx_buffer else x.tx_reset_reno_sack s.tx_buffer);
  }

  -- The threshold falls unless the head was already sent again in CA_LOSS.
  abbrev pub reduce_ss_thresh : ℕ → Socket x → Socket x
  reduce_ss_thresh in_flight s =
      if not (is_loss s.tcb.cong_state) || not (x.tx_is_head_retransmitted s.tx_buffer)
      then set_ss_thresh in_flight s
      else s

  -- ReTxTimeout with data to send again, up to SendPendingData.
  unfoldable pub enter_loss : Socket x → Socket x
  enter_loss s =
      let in_flight = bytes_in_flight s in
      s ▷ note_bytes_in_flight ▷ λ s. record s { dup_ack_count = 0 } ▷ reset_sack ▷ λ s.
      record s {
        recover = s.tcb.high_tx_mark;
        recover_active = true;
        rto = min (s.rto + s.rto) minute;
        history = [];
      }
      ▷ reduce_ss_thresh in_flight
      ▷ cong_call (x.cong.cwnd_event loss)
      ▷ cong_call (x.cong.congestion_state_set ca_loss)
      ▷ set_tcb (λ t. record t {
        cong_state = ca_loss;
        c_wnd = t.segment_size;
        c_wnd_infl = t.segment_size;
      })
      ▷ set_tcb reset_vegas
      ▷ λ s. record s { pacing_timer = none }

  -- ReTxTimeout with data to send again.
  unfoldable pub retransmit_data : Socket x → Socket x
  retransmit_data s =
      let t = enter_loss (record s { data_retr_count = s.data_retr_count - 1 }) in
      if s.data_retr_count == 0 then drop_connection s else (send_pending_data t.connected t).0

  -- The event has run, so it does not run any more.
  unfoldable pub re_tx_timeout : Socket x → Socket x
  re_tx_timeout s' =
      let s = record s' { retx_event = none } in
      if is_closed s.state || is_time_wait s.state
      then s
      else if is_syn_sent s.state
      then send_syn s
      else if x.tx_size s.tx_buffer == 0
      then (if is_fin_wait_1 s.state || is_closing s.state then send_empty_packet flag_fin s else s)
      else if (before_established s.state || is_established s.state)
          && ge x.seq (x.tx_head_sequence s.tx_buffer) s.tcb.high_tx_mark
          && x.tx_size s.tx_buffer == 0
      then s
      else retransmit_data s

  -- The retransmission event of a SYN or FIN runs SendEmptyPacket.
  unfoldable pub send_empty_timeout : Flags → Socket x → Socket x
  send_empty_timeout f s = send_empty_packet f (record s { retx_event = none })

  unfoldable pub del_ack_timeout : Socket x → Socket x
  del_ack_timeout s =
      record s { del_ack_event = none; del_ack_count = 0 }
      ▷ cong_call (x.cong.cwnd_event delayed_ack)
      ▷ send_ack_or_echo

  unfoldable pub last_ack_timeout : Socket x → Socket x
  last_ack_timeout s' =
      let s = record s' { last_ack_event = none } in
      let t = record s { data_retr_count = s.data_retr_count - 1 } in
      if not (is_last_ack s.state)
      then s
      else if s.data_retr_count == 0
      then drop_connection s
      else arm_last_ack (send_empty_packet flag_fin_ack t)

  -- A probe of one byte of data, with no flags; the time between probes doubles up to a minute.
  unfoldable pub persist_timeout : Socket x → Socket x
  persist_timeout s' =
      let s : Socket x = record s' {
        persist_event = none;
        persist_timeout = min minute (2 * s'.persist_timeout);
      } in
      let (tx, item) = x.tx_copy_from_sequence 1 s.tcb.next_tx_sequence s.tx_buffer in
      let e = ports s.end_point s.end_point6 in
      let header : TcpHeader = record {
        flags = no_flags;
        seq = s.tcb.next_tx_sequence;
        ack_number = x.rx_next_sequence s.rx_buffer;
        window_size = advertised_window_size true s;
        source_port = e.local_port;
        destination_port = e.peer_port;
        options = add_options s;
      } in
      let t = emit (sent header (x.item_size item)) (note_adv_wnd s) in
      record t {
        tx_buffer = x.tx_reset_last_segment_sent tx;
        persist_event = some (t.now + t.persist_timeout);
      }
