-- ===== src/Socket/Process.antt =====
-- The state machine for a segment that arrives before a connection ends: ProcessEstablished,
-- ProcessListen, ProcessSynSent and ProcessSynRcvd (NS3/1705069/TaskB/tcp-socket-base.cc).
use cse_322_computer_network.Base.{
  Bool, true, not, ◌&&◌, ◌||◌, ltb, ◌==◌, if◌then◌else◌, Option, none, some,
}
use cse_322_computer_network.Sequence.{gt}
use cse_322_computer_network.Tcb.{ecn_disabled, ecn_idle, is_use_ecn_off}
use cse_322_computer_network.Wire.{
  Flags, no_flags, flag_fin, flag_syn, flag_rst, flag_ack, flag_fin_ack, flag_syn_ack,
  flag_syn_ack_ece, flags_eq, without_psh_urg, without_extras, TcpHeader, notify_send,
  notify_new_connection_created, scheduled_connection_succeeded, scheduled_fork,
}
use cse_322_computer_network.Net.{Net}
use cse_322_computer_network.Socket.State.{
  Peer, syn_rcvd, established, Socket, EndPoint, ◌▷◌, emit, set_state, set_tcb,
}
use cse_322_computer_network.Socket.Send.{close_and_notify, send_empty_packet, send_rst}
use cse_322_computer_network.Socket.Transmit.{update_pacing_rate}
use cse_322_computer_network.Socket.Loop.{send_pending_data}
use cse_322_computer_network.Socket.Receive.{received_data, send_ack_or_echo, peer_close}
use cse_322_computer_network.Socket.ProcessAck.{to_open}
use cse_322_computer_network.Socket.ReceivedAck.{received_ack}

-- A FIN alone or with an ACK.
abbrev pub is_fin : Flags → Bool
is_fin f = flags_eq f flag_fin || flags_eq f flag_fin_ack

-- A SYN alone or with an ACK.
abbrev pub is_syn : Flags → Bool
is_syn f = flags_eq f flag_syn || flags_eq f flag_syn_ack

abbrev pub set_peer : Peer → Option EndPoint → Option EndPoint
set_peer peer none = none
set_peer peer (some e) = some (record e { peer_address = peer.0; peer_port = peer.1 })

module _ {x : Net} where
  -- A segment that the state has no use for: answered by a reset unless it is one, and the socket
  -- is closed.
  unfoldable pub reject : Flags → Socket x → Socket x
  reject f s = close_and_notify (if flags_eq f flag_rst then s else send_rst s)

  unfoldable pub established_ack : x.Packet → TcpHeader → Socket x → Socket x
  established_ack p header s =
      if x.seq.lt header.ack_number (x.tx_head_sequence s.tx_buffer)
      then s
      else if gt x.seq header.ack_number s.tcb.high_tx_mark
      then send_ack_or_echo s
      else received_ack p header s

  unfoldable pub established_data : x.Packet → TcpHeader → Socket x → Socket x
  established_data p header s =
      let t = received_data p header s in
      if x.rx_finished t.rx_buffer then peer_close p header t else t

  unfoldable pub process_established : x.Packet → TcpHeader → Socket x → Socket x
  process_established p header s =
      let f = without_extras header.flags in
      if flags_eq f flag_ack
      then established_ack p header s
      else if is_syn f
      then s
      else if is_fin f
      then peer_close p header s
      else if flags_eq f no_flags
      then established_data p header s
      else reject f s

  -- `accepts` is what the application answers to the request.
  unfoldable pub process_listen : Bool → TcpHeader → Socket x → Socket x
  process_listen accepts header s =
      if flags_eq (without_extras header.flags) flag_syn && accepts
      then emit (scheduled_fork header) s
      else s

  -- The answer to a SYN, with ECN if both ends can; the state of ECN follows.
  abbrev pub both_ecn : Flags → Socket x → Bool
  both_ecn f s = not (is_use_ecn_off s.tcb.use_ecn) && f.cwr && f.ece

  unfoldable pub expect_after : TcpHeader → Socket x → Socket x
  expect_after header s = record s {
    rx_buffer = x.rx_set_next_sequence (x.seq.add header.seq 1) s.rx_buffer;
  }

  unfoldable pub answer_syn : Flags → Socket x → Socket x
  answer_syn f s =
      if both_ecn f s
      then set_tcb (λ t. record t { ecn_state = ecn_idle }) (send_empty_packet flag_syn_ack_ece s)
      else send_empty_packet flag_syn_ack (set_tcb (λ t. record t { ecn_state = ecn_disabled }) s)

  -- What makes a connection established.
  unfoldable pub establish : Socket x → Socket x
  establish s = record (set_state established (to_open s)) { connected = true; retx_event = none }

  -- The sequence number of the SYN is taken.
  unfoldable pub take_syn_sequence : Socket x → Socket x
  take_syn_sequence s =
      let next = x.seq.add s.tcb.next_tx_sequence 1 in
      set_tcb (λ t. record t { next_tx_sequence = next; high_tx_mark = next })
        (record s { tx_buffer = x.tx_set_head_sequence next s.tx_buffer })

  -- The first data packet is acknowledged at once.
  abbrev pub ack_first_at_once : Socket x → Socket x
  ack_first_at_once s = record s { del_ack_count = s.del_ack_max_count }

  unfoldable pub syn_sent_data : x.Packet → TcpHeader → Socket x → Socket x
  syn_sent_data p header s =
      establish s ▷ ack_first_at_once ▷ received_data p header ▷ emit scheduled_connection_succeeded

  unfoldable pub syn_sent_syn : Flags → TcpHeader → Socket x → Socket x
  syn_sent_syn f header s =
      record (set_state syn_rcvd s) { syn_count = s.syn_retries }
      ▷ expect_after header
      ▷ answer_syn f

  unfoldable pub handshake_completed : Flags → TcpHeader → Socket x → Socket x
  handshake_completed f header s =
      let ecn = not (is_use_ecn_off s.tcb.use_ecn) && f.ece && not f.cwr in
      establish s
      ▷ expect_after header
      ▷ take_syn_sequence
      ▷ update_pacing_rate
      ▷ send_empty_packet flag_ack
      ▷ set_tcb (λ t. record t { ecn_state = if ecn then ecn_idle else ecn_disabled })
      ▷ λ s.
          (send_pending_data s.connected s).0
          ▷ emit scheduled_connection_succeeded
          ▷ ack_first_at_once

  unfoldable pub process_syn_sent : x.Packet → TcpHeader → Socket x → Socket x
  process_syn_sent p header s =
      let f = without_psh_urg header.flags in
      if flags_eq f no_flags
      then syn_sent_data p header s
      else if f.ack && not f.syn
      then s
      else if f.syn && not f.ack
      then syn_sent_syn f header s
      else if (f.syn || f.ack) && x.seq.add s.tcb.next_tx_sequence 1 == header.ack_number
      then handshake_completed f header s
      else close_and_notify (if f.rst then s else send_rst s)

  -- The peer's address and port go to the IPv4 end point, or to the other if there is no such.
  abbrev pub set_peer_end : Peer → Socket x → Socket x
  set_peer_end peer s = record s {
    end_point = set_peer peer s.end_point;
    end_point6 = elim s.end_point [ none ↦ set_peer peer s.end_point6 | some _ ↦ s.end_point6 ];
  }

  abbrev pub notify_space : Socket x → Socket x
  notify_space s =
      if ltb 0 (x.tx_available s.tx_buffer)
      then emit (notify_send (x.tx_available s.tx_buffer)) s
      else s

  unfoldable pub syn_rcvd_complete : x.Packet → TcpHeader → Peer → Socket x → Socket x
  syn_rcvd_complete p header peer s =
      establish s
      ▷ take_syn_sequence
      ▷ set_peer_end peer
      ▷ ack_first_at_once
      ▷ emit notify_new_connection_created
      ▷ received_ack p header
      ▷ update_pacing_rate
      ▷ notify_space

  unfoldable pub syn_rcvd_fin : x.Packet → TcpHeader → Peer → Socket x → Socket x
  syn_rcvd_fin p header peer s =
      if header.seq == x.rx_next_sequence s.rx_buffer
      then record s { connected = true; retx_event = none }
        ▷ take_syn_sequence
        ▷ set_peer_end peer
        ▷ emit notify_new_connection_created
        ▷ peer_close p header
      else s

  unfoldable pub process_syn_rcvd : x.Packet → TcpHeader → Peer → Socket x → Socket x
  process_syn_rcvd p header peer s =
      let f = without_extras header.flags in
      if flags_eq f no_flags
        || flags_eq f flag_ack && x.seq.add s.tcb.next_tx_sequence 1 == header.ack_number
      then syn_rcvd_complete p header peer s
      else if flags_eq f flag_syn
      then s ▷ expect_after header ▷ answer_syn header.flags
      else if flags_eq f flag_fin_ack
      then syn_rcvd_fin p header peer s
      else close_and_notify (if flags_eq f flag_rst then s else send_rst (set_peer_end peer s))
