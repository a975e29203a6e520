-- ===== src/Socket/Transmit.antt =====
-- Sending data: the window, pacing and SendDataPacket (NS3/1705069/TaskB/tcp-socket-base.cc).
use cse_322_computer_network.Base.{
  ℕ, ◌+◌, ◌-◌, ◌/◌, min, max, Bool, true, not, ◌&&◌, ◌||◌, ltb, ◌==◌, if◌then◌else◌, is_some, mul32,
  none, some,
}
use cse_322_computer_network.Sequence.{gt}
use cse_322_computer_network.Tcb.{Tcb, is_recovery, is_cwr, is_ece_rcvd, ecn_cwr_sent}
use cse_322_computer_network.Wire.{Flags, no_flags, TcpHeader, sent, scheduled_data_sent}
use cse_322_computer_network.Net.{Net}
use cse_322_computer_network.Socket.State.{
  fin_wait_1, last_ack, is_established, is_close_wait, Socket, retx_timeout, ◌▷◌, emit, set_state,
  set_tcb, has_cong_control,
}
use cse_322_computer_network.Socket.Send.{
  ports, add_options, advertised_window_size, note_adv_wnd, update_rtt_history,
}

-- `factor`: the slow-start ratio below half the threshold, the other ratio above.
abbrev pub pacing_factor : (x : Net) → Tcb → x.double.Value
pacing_factor x t =
    x.double.div
      (x.double.of_ℕ
        (if ltb t.c_wnd (t.ss_thresh / 2) then t.pacing_ss_ratio else t.pacing_ca_ratio))
      (x.double.of_ℕ 100)

abbrev pub paced_rate : Net → Tcb → ℕ
paced_rate x t = x.data_rate (
    x.double.div
      (x.double.mul (x.double.of_ℕ (mul32 (max t.c_wnd t.bytes_in_flight) 8)) (pacing_factor x t))
      (x.double.get_seconds t.last_rtt))

module _ {x : Net} where
  abbrev pub bytes_in_flight : Socket x → ℕ
  bytes_in_flight s = x.tx_bytes_in_flight s.tx_buffer

  -- `BytesInFlight` also records the number for its trace.
  abbrev pub note_bytes_in_flight : Socket x → Socket x
  note_bytes_in_flight s = set_tcb (λ t. record t { bytes_in_flight = bytes_in_flight s }) s

  unfoldable pub un_ack_data_count : Socket x → ℕ
  un_ack_data_count s = x.seq.sub s.tcb.high_tx_mark (x.tx_head_sequence s.tx_buffer)

  unfoldable pub window : Socket x → ℕ
  window s = min s.r_wnd s.tcb.c_wnd

  unfoldable pub available_window : Socket x → ℕ
  available_window s =
      if ltb (window s) (bytes_in_flight s) then 0 else window s - bytes_in_flight s

  unfoldable pub is_pacing_enabled : Socket x → Bool
  is_pacing_enabled s =
      s.tcb.pacing
      && (s.tcb.pace_initial_window
          || ltb (mul32 s.tcb.initial_c_wnd s.tcb.segment_size) s.tcb.high_tx_mark)

  unfoldable pub update_pacing_rate : Socket x → Socket x
  update_pacing_rate s =
      if has_cong_control s || not s.tcb.pacing
      then s
      else set_tcb
          (λ t. record t {
            pacing_rate =
                if ltb (paced_rate x t) t.max_pacing_rate
                then paced_rate x t
                else t.max_pacing_rate;
          })
          s

  -- The pacing timer starts for a packet of `sz` bytes unless it runs.
  unfoldable pub start_pacing : ℕ → Socket x → Socket x
  start_pacing sz s =
      if is_pacing_enabled s && not (is_some s.pacing_timer)
      then record s { pacing_timer = some (s.now + x.bytes_tx_time s.tcb.pacing_rate sz) }
      else s

  -- The sender answers an echo by CWR on the first new segment after it.
  abbrev pub answers_echo : Bool → Socket x → Bool
  answers_echo is_retransmission s =
      is_ece_rcvd s.tcb.ecn_state && gt x.seq s.ecn_echo_seq s.ecn_cwr_seq && not is_retransmission

  unfoldable pub note_cwr_sent : ℕ → Bool → Socket x → Socket x
  note_cwr_sent seq is_retransmission s =
      if answers_echo is_retransmission s
      then set_tcb (λ t. record t { ecn_state = ecn_cwr_sent }) (record s { ecn_cwr_seq = seq })
      else s

  -- The last data of a socket that closes when it is empty carries the FIN.
  abbrev pub carries_fin : ℕ → Socket x → Bool
  carries_fin remaining s = s.close_on_empty && remaining == 0

  unfoldable pub note_fin_sent : ℕ → Socket x → Socket x
  note_fin_sent remaining s =
      if carries_fin remaining s
      then (if is_established s.state
          then set_state fin_wait_1 s
          else if is_close_wait s.state
          then set_state last_ack s
          else s)
      else s

  abbrev pub note_with_ack : Bool → Socket x → Socket x
  note_with_ack with_ack s =
      if with_ack then record s { del_ack_event = none; del_ack_count = 0 } else s

  -- The header and the packet leave; the retransmission timer starts unless it runs.
  unfoldable pub send_data_header : Flags → ℕ → ℕ → Socket x → Socket x
  send_data_header flags seq sz s =
      let e = ports s.end_point s.end_point6 in
      let header : TcpHeader = record {
        flags = flags;
        seq = seq;
        ack_number = x.rx_next_sequence s.rx_buffer;
        window_size = advertised_window_size true s;
        source_port = e.local_port;
        destination_port = e.peer_port;
        options = add_options s;
      } in
      let t = note_adv_wnd s in
      let u =
        if is_some t.retx_event
        then t
        else record t { retx_event = some (retx_timeout (t.now + t.rto)) } in
      emit (sent header sz) u

  -- What SendDataPacket records once the packet has left.
  unfoldable pub note_data_sent : ℕ → ℕ → Bool → Socket x → Socket x
  note_data_sent seq sz is_retransmission s =
      let t = update_rtt_history seq sz is_retransmission s in
      let u =
        if is_recovery t.tcb.cong_state || is_cwr t.tcb.cong_state
        then record t { recovery = x.recovery_update_bytes_sent sz t.recovery }
        else t in
      let end = x.seq.add seq sz in
      let v =
        if is_retransmission
        then u
        else emit (scheduled_data_sent (x.seq.sub end u.tcb.high_tx_mark)) u in
      set_tcb
        (λ b. record b {
          high_tx_mark = if x.seq.lt end b.high_tx_mark then b.high_tx_mark else end;
        })
        v

  -- SendDataPacket after the item is copied from the buffer.
  unfoldable pub send_item : ℕ → Bool → x.Item → Socket x → Socket x
  send_item seq with_ack item s =
      let sz = x.item_size item in
      let retrans = x.item_is_retrans item in
      let remaining = x.tx_size_from_sequence (x.seq.add seq sz) s.tx_buffer in
      let t = s ▷ start_pacing sz ▷ note_with_ack with_ack in
      let flags : Flags = record no_flags {
        ack = with_ack;
        cwr = answers_echo retrans t;
        fin = carries_fin remaining t;
      } in
      t
      ▷ note_cwr_sent seq retrans
      ▷ note_fin_sent remaining
      ▷ send_data_header flags seq sz
      ▷ note_data_sent seq sz retrans

  abbrev pub copy_item : ℕ → ℕ → Socket x → Socket x × x.Item
  copy_item seq max_size s =
      let (tx, item) = x.tx_copy_from_sequence max_size seq s.tx_buffer in
      (
        record s { tx_buffer = tx; rate = x.rate_skb_sent item (bytes_in_flight s == 0) s.rate },
        item,
      )

  -- The state and the size of the packet.
  unfoldable pub send_data_packet : ℕ → ℕ → Bool → Socket x → Socket x × ℕ
  send_data_packet seq max_size with_ack s =
      let (t, item) = copy_item seq max_size (note_bytes_in_flight s) in
      (send_item seq with_ack item t, x.item_size item)
