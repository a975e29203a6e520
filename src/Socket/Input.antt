-- ===== src/Socket/Input.antt =====
-- The way of an arriving segment into the socket: ForwardUp, ForwardUp6, DoForwardUp and the start
-- of a forked socket in CompleteFork (NS3/1705069/TaskB/tcp-socket-base.cc).
use cse_322_computer_network.Base.{
  ℕ, ◌+◌, Bool, true, false, not, ◌&&◌, ◌==◌, if◌then◌else◌, is_some, mul32, Option, none, some,
}
use cse_322_computer_network.Tcb.{
  EcnCodePoint, not_ect, cong_exp, ecn_ce_rcvd, ecn_idle, ecn_disabled, is_ecn_disabled, is_ce_rcvd,
  ecn_is_ce, ecn_no_ce,
}
use cse_322_computer_network.Wire.{
  Flags, flag_rst, flag_syn_ack, flag_syn_ack_ece, flags_eq, without_psh_urg, TcpHeader, sent,
}
use cse_322_computer_network.Net.{Net}
use cse_322_computer_network.Socket.State.{
  Peer, TcpState, closed, listen, syn_sent, syn_rcvd, established, close_wait, last_ack, fin_wait_1,
  fin_wait_2, closing, time_wait, is_established, Socket, EndPoint, ◌▷◌, emit, set_state, set_tcb,
  cong_call,
}
use cse_322_computer_network.Socket.Send.{
  add_options, advertised_window_size, note_adv_wnd, send_empty_packet,
}
use cse_322_computer_network.Socket.Loop.{send_pending_data}
use cse_322_computer_network.Socket.Receive.{
  is_valid_tcp_segment, process_option_w_scale, process_option_timestamp, estimate_rtt,
  update_window_size,
}
use cse_322_computer_network.Socket.Process.{
  process_established, process_listen, process_syn_sent, process_syn_rcvd, both_ecn, expect_after,
}
use cse_322_computer_network.Socket.Ending.{process_wait, process_closing, process_last_ack}

abbrev pub is_not_ect : EcnCodePoint → Bool
is_not_ect not_ect = true
is_not_ect _ = false

abbrev pub is_cong_exp : EcnCodePoint → Bool
is_cong_exp cong_exp = true
is_cong_exp _ = false

module _ {x : Net} where
  -- CWR from the sender ends the echo, unless a mark has just arrived.
  unfoldable pub note_cwr : Flags → Socket x → Socket x
  note_cwr f s =
      if is_established s.state && not f.rst && f.cwr && not (is_ce_rcvd s.tcb.ecn_state)
      then set_tcb (λ t. record t { ecn_state = ecn_idle }) s
      else s

  abbrev pub syn_w_scale : TcpHeader → Socket x → Socket x
  syn_w_scale header s =
      elim (if s.win_scaling_enabled then x.get_win_scale header.options else none) [
        | none ↦ record s { win_scaling_enabled = false }
        | some scale ↦ process_option_w_scale scale s
      ]

  abbrev pub syn_sack : TcpHeader → Socket x → Socket x
  syn_sack header s =
      if x.has_sack_permitted header.options && s.sack_enabled
      then s
      else record s { sack_enabled = false; tx_buffer = x.tx_set_sack_enabled false s.tx_buffer }

  abbrev pub syn_timestamp : TcpHeader → Socket x → Socket x
  syn_timestamp header s =
      elim (if s.timestamp_enabled then x.get_timestamp header.options else none) [
        | none ↦ record s { timestamp_enabled = false }
        | some (stamp, echo) ↦ process_option_timestamp stamp echo header.seq s
      ]

  -- The options and the window of a SYN; the window of a SYN is not scaled.
  unfoldable pub read_syn : TcpHeader → Socket x → Socket x
  read_syn header s =
      let t =
        record s { r_wnd = header.window_size }
        ▷ syn_w_scale header
        ▷ syn_sack header
        ▷ syn_timestamp header
        ▷ set_tcb (λ b. record b {
          c_wnd = mul32 b.initial_c_wnd b.segment_size;
          c_wnd_infl = mul32 b.initial_c_wnd b.segment_size;
          ss_thresh = b.initial_ss_thresh;
        }) in
      if header.flags.ack
      then record (estimate_rtt header t) { high_rx_ack_mark = header.ack_number }
      else t

  -- An ACK brings a round-trip sample and a window; with timestamps agreed, one without is dropped.
  unfoldable pub read_ack : TcpHeader → Socket x → Option (Socket x)
  read_ack header s =
      let accept = λ (t : Socket x). some (update_window_size header (estimate_rtt header t)) in
      if not s.timestamp_enabled then accept s else elim (x.get_timestamp header.options) [
        | none ↦ none
        | some (stamp, echo) ↦ accept (process_option_timestamp stamp echo header.seq s)
      ]

  -- A closed window starts the probes and stops the retransmission timer.
  unfoldable pub enter_persist : Socket x → Socket x
  enter_persist s =
      if s.r_wnd == 0 && not (is_some s.persist_event)
      then record s { retx_event = none; persist_event = some (s.now + s.persist_timeout) }
      else s

  -- The answer of a closed socket, which has no end point: the ports come from the segment.
  unfoldable pub refuse : TcpHeader → Socket x → Socket x
  refuse header s =
      let h : TcpHeader = record {
        flags = flag_rst;
        seq = s.tcb.next_tx_sequence;
        ack_number = x.rx_next_sequence s.rx_buffer;
        window_size = advertised_window_size true s;
        source_port = header.destination_port;
        destination_port = header.source_port;
        options = add_options s;
      } in
      if flags_eq (without_psh_urg header.flags) flag_rst
      then s
      else emit (sent h 0) (note_adv_wnd s)

  -- The `switch` of DoForwardUp. `accepts` is the answer of the application to a request, `peer`
  -- where the segment came from.
  unfoldable pub dispatch : TcpState → x.Packet → TcpHeader → Bool → Peer → Socket x → Socket x
  dispatch established p header accepts peer s = process_established p header s
  dispatch listen p header accepts peer s = process_listen accepts header s
  dispatch time_wait p header accepts peer s = s
  dispatch closed p header accepts peer s = refuse header s
  dispatch syn_sent p header accepts peer s = process_syn_sent p header s
  dispatch syn_rcvd p header accepts peer s = process_syn_rcvd p header peer s
  dispatch fin_wait_1 p header accepts peer s = process_wait p header s
  dispatch fin_wait_2 p header accepts peer s = process_wait p header s
  dispatch close_wait p header accepts peer s = process_wait p header s
  dispatch closing p header accepts peer s = process_closing header s
  dispatch last_ack p header accepts peer s = process_last_ack p header s

  -- An open window ends the probes.
  unfoldable pub leave_persist : Socket x → Socket x
  leave_persist s =
      if not (s.r_wnd == 0) && is_some s.persist_event
      then (send_pending_data s.connected (record s { persist_event = none })).0
      else s

  unfoldable pub do_forward_up : x.Packet → TcpHeader → Bool → Peer → Socket x → Socket x
  do_forward_up p header accepts peer s =
      let t = note_cwr header.flags s in
      let rest = λ (u : Socket x).
        let v = enter_persist u in leave_persist (dispatch v.state p header accepts peer v) in
      if header.flags.syn
      then rest (read_syn header t)
      else if header.flags.ack
      then (elim (read_ack header t) [ none ↦ t | some u ↦ rest u ])
      else rest t

  -- The ECN field of the IPv4 header: a mark counts if it is newer than the last.
  unfoldable pub note_ip_ecn : EcnCodePoint → ℕ → Socket x → Socket x
  note_ip_ecn ecn seq s =
      if is_cong_exp ecn && x.seq.lt s.ecn_ce_seq seq
      then record s { ecn_ce_seq = seq }
        ▷ set_tcb (λ t. record t { ecn_state = ecn_ce_rcvd })
        ▷ cong_call (x.cong.cwnd_event ecn_is_ce)
      else if not (is_not_ect ecn) && not (is_ecn_disabled s.tcb.ecn_state)
      then cong_call (x.cong.cwnd_event ecn_no_ce) s
      else s

  -- The same for IPv6, where the second test does not ask whether ECN is disabled.
  unfoldable pub note_ip_ecn6 : EcnCodePoint → ℕ → Socket x → Socket x
  note_ip_ecn6 ecn seq s =
      if is_cong_exp ecn && x.seq.lt s.ecn_ce_seq seq
      then record s { ecn_ce_seq = seq }
        ▷ set_tcb (λ t. record t { ecn_state = ecn_ce_rcvd })
        ▷ cong_call (x.cong.cwnd_event ecn_is_ce)
      else if not (is_not_ect ecn)
      then cong_call (x.cong.cwnd_event ecn_no_ce) s
      else s

  unfoldable pub forward_up :
      x.Packet → TcpHeader → ℕ → EcnCodePoint → Bool → Peer → Socket x → Socket x
  forward_up p header header_size ecn accepts peer s =
      let (t, valid) = is_valid_tcp_segment header.seq header_size (x.packet_size p) s in
      if valid then do_forward_up p header accepts peer (note_ip_ecn ecn header.seq t) else t

  unfoldable pub forward_up6 :
      x.Packet → TcpHeader → ℕ → EcnCodePoint → Bool → Peer → Socket x → Socket x
  forward_up6 p header header_size ecn accepts peer s =
      let (t, valid) = is_valid_tcp_segment header.seq header_size (x.packet_size p) s in
      if valid then do_forward_up p header accepts peer (note_ip_ecn6 ecn header.seq t) else t

  -- CompleteFork on the copy of a listening socket: `e` and `e6` are the end points that
  -- TcpL4Protocol allocates.
  unfoldable pub complete_fork : Option EndPoint → Option EndPoint → TcpHeader → Socket x → Socket x
  complete_fork e e6 header s =
      let t : Socket x =
        record (set_state syn_rcvd s) {
          end_point = e;
          end_point6 = e6;
          syn_count = s.syn_retries;
          data_retr_count = s.data_retries;
        }
        ▷ expect_after header in
      if both_ecn header.flags t
      then set_tcb (λ b. record b { ecn_state = ecn_idle }) (send_empty_packet flag_syn_ack_ece t)
      else set_tcb (λ b. record b { ecn_state = ecn_disabled }) (send_empty_packet flag_syn_ack t)
