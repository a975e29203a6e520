-- ===== src/Socket/Receive.antt =====
-- What a socket does with an arriving segment before and beside its state machine: range checks,
-- options, the peer's window, round-trip estimation, and the receive buffer
-- (NS3/1705069/TaskB/tcp-socket-base.cc).
use cse_322_computer_network.Base.{
  ℕ, ◌+◌, ◌-◌, ◌*◌, ◌^◌, min, Bool, true, false, not, ◌&&◌, ◌||◌, ltb, leb, ◌==◌, if◌then◌else◌,
  is_some, u32, add32, Option, none, some, List, [], ◌∷◌,
}
use cse_322_computer_network.Sequence.{Sequence, gt, ge}
use cse_322_computer_network.Tcb.{ecn_sending_ece, owes_echo, non_delayed_ack, delayed_ack}
use cse_322_computer_network.Wire.{Flags, flag_ack, flag_ack_ece, TcpHeader, notify_data_recv}
use cse_322_computer_network.Net.{Net}
use cse_322_computer_network.Socket.State.{
  TcpState, listen, syn_sent, syn_rcvd, last_ack, closing, close_wait, Socket, RttHistory,
  before_established, is_fin_wait_1, ◌▷◌, emit, set_state, set_tcb, cong_call, computed_rto,
}
use cse_322_computer_network.Socket.Send.{send_empty_packet}
use cse_322_computer_network.Socket.Close.{do_peer_close}

-- OutOfRange, by state: no buffer yet, only the next byte, or the window of the buffer.
unfoldable pub out_of_range_in : Sequence → TcpState → ℕ → ℕ → ℕ → ℕ → Bool
out_of_range_in q listen next last head tail = false
out_of_range_in q syn_sent next last head tail = false
out_of_range_in q syn_rcvd next last head tail = false
out_of_range_in q last_ack next last head tail = not (next == head)
out_of_range_in q closing next last head tail = not (next == head)
out_of_range_in q close_wait next last head tail = not (next == head)
out_of_range_in q _ next last head tail = q.lt tail next || q.le last head

-- The first loop of EstimateRtt: acknowledged segments leave the history.
unfoldable pub drop_acked : Sequence → ℕ → List RttHistory → List RttHistory
drop_acked q ack [] = []
drop_acked q ack (h ∷ hs) = if gt q (q.add h.seq h.count) ack then h ∷ hs else drop_acked q ack hs

module _ {x : Net} where
  unfoldable pub out_of_range : ℕ → ℕ → Socket x → Bool
  out_of_range head tail s =
      out_of_range_in x.seq s.state (x.rx_next_sequence s.rx_buffer) (x.rx_max_sequence s.rx_buffer)
        head tail

  unfoldable pub is_valid_tcp_segment : ℕ → ℕ → ℕ → Socket x → Socket x × Bool
  is_valid_tcp_segment seq header_size payload_size s =
      if header_size == 0 || ltb 60 header_size
      then (s, false)
      else if ltb 0 payload_size && out_of_range seq (x.seq.add seq payload_size) s
      then (send_empty_packet flag_ack s, false)
      else (s, true)

  -- An acknowledgement, with the echo of a congestion mark if one is owed.
  unfoldable pub send_ack_or_echo : Socket x → Socket x
  send_ack_or_echo s =
      if owes_echo s.tcb.ecn_state
      then set_tcb (λ t. record t { ecn_state = ecn_sending_ece })
          (send_empty_packet flag_ack_ece s)
      else send_empty_packet flag_ack s

  -- The end of ReceivedData: acknowledge now if there is a gap or the count is reached, else later.
  unfoldable pub acknowledge_data : ℕ → Socket x → Socket x
  acknowledge_data end s =
      let now_event = cong_call {x = x} (x.cong.cwnd_event non_delayed_ack) in
      let gap =
        ltb (x.rx_available s.rx_buffer) (x.rx_size s.rx_buffer)
        || gt x.seq (x.rx_next_sequence s.rx_buffer) end in
      let t = record s { del_ack_count = add32 s.del_ack_count 1 } in
      if gap
      then s ▷ now_event ▷ send_ack_or_echo
      else if leb t.del_ack_max_count t.del_ack_count
      then record t { del_ack_event = none; del_ack_count = 0 } ▷ now_event ▷ send_ack_or_echo
      else (let u = cong_call (x.cong.cwnd_event delayed_ack) t in
          if is_some u.del_ack_event
          then u
          else record u { del_ack_event = some (u.now + u.del_ack_timeout) })

  -- ReceivedData after the buffer took the packet.
  unfoldable pub data_accepted : ℕ → ℕ → Flags → Socket x → Socket x
  data_accepted expected size flags s =
      let advanced = x.seq.lt expected (x.rx_next_sequence s.rx_buffer) in
      let t = if advanced && not s.shutdown_recv then emit notify_data_recv s else s in
      if advanced && x.rx_finished t.rx_buffer && not flags.fin
      then do_peer_close t
      else acknowledge_data (x.seq.add expected size) t

  unfoldable pub received_data : x.Packet → TcpHeader → Socket x → Socket x
  received_data p header s =
      let (rx, added) = x.rx_add p header s.rx_buffer in
      let t = record s { rx_buffer = rx } in
      if added
      then data_accepted (x.rx_next_sequence s.rx_buffer) (x.packet_size p) header.flags t
      else send_ack_or_echo t

  -- A timestamp gives at least a microsecond.
  abbrev pub elapsed : RttHistory → Option (ℕ × ℕ) → Socket x → ℕ
  elapsed h none s = s.now - h.time
  elapsed h (some (stamp, echo)) s =
      let m = x.elapsed_time_from_ts_value s.now echo in if m == 0 then 1000 else m

  -- The sample that an acknowledgement gives, 0 for none: the first segment of the history, if it
  -- was not sent again and is acknowledged whole.
  unfoldable pub rtt_sample : TcpHeader → Socket x → List RttHistory → ℕ
  rtt_sample header s [] = 0
  rtt_sample header s (h ∷ hs) =
      if not h.retx && ge x.seq header.ack_number (x.seq.add h.seq h.count)
      then elapsed h (if s.timestamp_enabled then x.get_timestamp header.options else none) s
      else 0

  unfoldable pub note_sample : ℕ → Socket x → Socket x
  note_sample m s =
      let t : Socket x = record s { rtt = x.rtt_measurement m s.rtt } in
      set_tcb
        (λ b. record b {
          last_rtt = x.rtt_estimate t.rtt;
          min_rtt = min (x.rtt_estimate t.rtt) b.min_rtt;
        })
        (record t { rto = computed_rto t })

  unfoldable pub estimate_rtt : TcpHeader → Socket x → Socket x
  estimate_rtt header s =
      let m = rtt_sample header s s.history in
      let t = record s { history = drop_acked x.seq header.ack_number s.history } in
      if m == 0 then t else note_sample m t

  -- The peer's shift is at most 14.
  unfoldable pub process_option_w_scale : ℕ → Socket x → Socket x
  process_option_w_scale scale s = record s { snd_wind_shift = if ltb 14 scale then 14 else scale }

  unfoldable pub process_option_timestamp : ℕ → ℕ → ℕ → Socket x → Socket x
  process_option_timestamp stamp echo seq s =
      let t =
        set_tcb (λ b. record b { rcv_timestamp_value = stamp; rcv_timestamp_echo_reply = echo })
          s in
      if ltb stamp s.tcb.rcv_timestamp_value
      then s
      else if seq == x.rx_next_sequence s.rx_buffer && x.seq.le seq s.high_tx_ack
      then record t { timestamp_to_echo = stamp }
      else t

  -- The window of the header, scaled; a shift of a uint32_t loses what passes 32 bits.
  abbrev pub received_window : TcpHeader → Socket x → ℕ
  received_window header s = u32 (header.window_size * 2 ^ s.snd_wind_shift)

  unfoldable pub update_window_size : TcpHeader → Socket x → Socket x
  update_window_size header s =
      let wider =
        header.ack_number == s.high_rx_ack_mark && ltb s.r_wnd (received_window header s) in
      let new_ack = gt x.seq header.ack_number s.high_rx_ack_mark in
      let new_data = gt x.seq header.seq s.high_rx_mark in
      if before_established s.state
      then record s { r_wnd = received_window header s }
      else record s {
        high_rx_ack_mark = if new_ack then header.ack_number else s.high_rx_ack_mark;
        high_rx_mark = if new_data then header.seq else s.high_rx_mark;
        r_wnd = if wider || new_ack || new_data then received_window header s else s.r_wnd;
      }

  -- PeerClose: remember the FIN, take its data, and close if nothing is missing before it.
  unfoldable pub peer_close : x.Packet → TcpHeader → Socket x → Socket x
  peer_close p header s =
      let size = x.packet_size p in
      let fin_at = x.rx_set_fin_sequence (x.seq.add header.seq size) s.rx_buffer in
      let t = record s { rx_buffer = fin_at } in
      let u = if size == 0 then t else received_data p header t in
      if x.seq.lt header.seq (x.rx_next_sequence s.rx_buffer)
        || gt x.seq header.seq (x.rx_max_sequence s.rx_buffer)
      then s
      else if not (x.rx_finished u.rx_buffer)
      then u
      else if is_fin_wait_1 u.state
      then set_state closing u
      else do_peer_close u
