-- ===== src/Socket/SynPhase.antt =====
-- What a segment does to the phase of a connection in SYN_RCVD: ProcessSynRcvd
-- (NS3/1705069/TaskB/tcp-socket-base.cc).
use cse_322_computer_network.Base.{◌≤◌, ◌≡◌, refl, arith, true, if◌then◌else◌, none, ap}
use cse_322_computer_network.Tcb.{ecn_disabled}
use cse_322_computer_network.Wire.{
  Flags, flag_rst, flag_syn_ack, flag_syn_ack_ece, flags_eq, TcpHeader, without_extras,
  notify_new_connection_created,
}
use cse_322_computer_network.Net.{Net}
use cse_322_computer_network.Socket.State.{Peer, Socket, emit}
use cse_322_computer_network.Socket.Send.{close_and_notify, send_rst}
use cse_322_computer_network.Socket.Transmit.{update_pacing_rate}
use cse_322_computer_network.Socket.ReceivedAck.{received_ack}
use cse_322_computer_network.Socket.Process.{
  answer_syn, expect_after, establish, take_syn_sequence, syn_rcvd_complete, syn_rcvd_fin,
  process_syn_rcvd, ack_first_at_once, set_peer_end, notify_space,
}
use cse_322_computer_network.Socket.Phase.{update_pacing_rate-state, phase}
use cse_322_computer_network.Socket.DataPhase.{
  five_is_last, close_and_notify-state, send_empty_packet-up, peer_close-Onward,
}
use cse_322_computer_network.Socket.ReceivedPhase.{received_ack-Onward}

pub established_phase : {x : Net} (s : Socket x) → phase (take_syn_sequence (establish s)).state ≡ 2
unfolding take_syn_sequence establish phase
established_phase s = refl

module _ {x : Net} where
  answer_syn-up : (f : Flags) (s : Socket x) → phase s.state ≤ phase (answer_syn f s).state
  unfolding answer_syn
  answer_syn-up f s =
      let t : Socket x = record s { tcb = record s.tcb { ecn_state = ecn_disabled } } in
      ground (arith, send_empty_packet-up flag_syn_ack_ece s, send_empty_packet-up flag_syn_ack t)

  pub finish-state : (s : Socket x) → (notify_space (update_pacing_rate s)).state ≡ s.state
  finish-state s = ground (arith, update_pacing_rate-state s)

  syn_rcvd_complete-up :
      (p : x.Packet) (h : TcpHeader) (peer : Peer) (s : Socket x)
      → phase s.state ≤ 2
      → phase s.state ≤ phase (syn_rcvd_complete p h peer s).state
  unfolding syn_rcvd_complete
  syn_rcvd_complete-up p h peer s le =
      let c = take_syn_sequence (establish s) in
      let t : Socket x =
        emit notify_new_connection_created (ack_first_at_once (set_peer_end peer c)) in
      let e : phase t.state ≡ 2 = established_phase s in
      let k = received_ack-Onward p h t (omega (arith, e)) in
      let v = received_ack p h t in omega (arith, e, k.up, ap phase (finish-state v))

  syn_rcvd_fin-up :
      (p : x.Packet) (h : TcpHeader) (peer : Peer) (s : Socket x)
      → phase s.state ≤ 3
      → phase s.state ≤ phase (syn_rcvd_fin p h peer s).state
  unfolding syn_rcvd_fin take_syn_sequence
  syn_rcvd_fin-up p h peer s le =
      let c = take_syn_sequence (record s { connected = true; retx_event = none }) in
      let t : Socket x = emit notify_new_connection_created (set_peer_end peer c) in
      ground (arith, peer_close-Onward p h t le)

  pub process_syn_rcvd-up :
      (p : x.Packet) (h : TcpHeader) (peer : Peer) (s : Socket x)
      → phase s.state ≤ 2
      → phase s.state ≤ phase (process_syn_rcvd p h peer s).state
  unfolding process_syn_rcvd expect_after
  process_syn_rcvd-up p h peer s le =
      let t = expect_after h s in
      let u =
        if flags_eq (without_extras h.flags) flag_rst then s else send_rst (set_peer_end peer s) in
      ground (
        arith,
        syn_rcvd_complete-up p h peer s le,
        answer_syn-up h.flags t,
        syn_rcvd_fin-up p h peer s,
        five_is_last s (close_and_notify u) (close_and_notify-state u),
      )
