-- ===== src/Socket/SparedHandlers.antt =====
-- Segments of a handshake, and the handlers of every state, against CA_LOSS
-- (NS3/1705069/TaskB/tcp-socket-base.cc).
use cse_322_computer_network.Base.{
  refl, Bool, true, not, ◌&&◌, ◌||◌, ltb, ◌==◌, if◌then◌else◌, none,
}
use cse_322_computer_network.Tcb.{ecn_idle, ecn_disabled, is_use_ecn_off}
use cse_322_computer_network.Wire.{
  Flags, no_flags, flag_rst, flag_ack, flag_fin_ack, flag_syn, flags_eq, without_psh_urg,
  without_extras, TcpHeader, notify_new_connection_created,
}
use cse_322_computer_network.Net.{Net}
use cse_322_computer_network.Socket.State.{
  Peer, TcpState, closed, listen, syn_sent, syn_rcvd, established, close_wait, last_ack, fin_wait_1,
  fin_wait_2, closing, time_wait, Socket, emit, set_state, set_tcb,
}
use cse_322_computer_network.Socket.Send.{send_empty_packet}
use cse_322_computer_network.Socket.Receive.{received_data}
use cse_322_computer_network.Socket.Transmit.{update_pacing_rate}
use cse_322_computer_network.Socket.Loop.{send_pending_data}
use cse_322_computer_network.Socket.ReceivedAck.{received_ack}
use cse_322_computer_network.Socket.Process.{
  process_syn_sent, process_syn_rcvd, syn_sent_data, syn_sent_syn, handshake_completed,
  syn_rcvd_complete, syn_rcvd_fin, expect_after, establish, take_syn_sequence, ack_first_at_once,
  set_peer_end, notify_space,
}
use cse_322_computer_network.Socket.Input.{dispatch}
use cse_322_computer_network.Socket.Sending.{IsSending}
use cse_322_computer_network.Socket.Steady.{IsCalm}
use cse_322_computer_network.Socket.CongSteps.{update_pacing_rate-Steady}
use cse_322_computer_network.Socket.Reading.{Untouched}
use cse_322_computer_network.Socket.Spared.{
  Spared, same-Spared, Steady-Spared, trans-Spared, branch-Spared, still, send_empty_packet-Spared,
  refused-Spared, process_closing-Spared, process_listen-Spared, refuse-Spared, ack-Spared,
  data-Spared, sent-Spared, peer_close-Spared, process_established-Spared, process_wait-Spared,
  process_last_ack-Spared, establish-Spared, answer_syn-Spared, take_syn-cong,
}

module _ {x : Net} where
  expect-Spared : (h : TcpHeader) (s : Socket x) → Spared s (expect_after h s)
  unfolding expect_after
  expect-Spared h s = same-Spared s _ refl

  take-Spared : (s : Socket x) → Spared s (take_syn_sequence s)
  take-Spared s = same-Spared s (take_syn_sequence s) (take_syn-cong s)

  pub Untouched-Spared : {s t : Socket x} → Untouched s t → Spared s t
  Untouched-Spared {s} {t} k = same-Spared s t k.cong_state

  space-Spared : (s : Socket x) → Spared s (notify_space s)
  space-Spared s =
      branch-Spared (ltb 0 (x.tx_available s.tx_buffer)) (same-Spared s _ refl) (still s)

  syn_sent_syn-Spared : (f : Flags) (h : TcpHeader) (s : Socket x) → Spared s (syn_sent_syn f h s)
  unfolding syn_sent_syn
  syn_sent_syn-Spared f h s =
      let t : Socket x = record (set_state syn_rcvd s) { syn_count = s.syn_retries } in
      trans-Spared (same-Spared s t refl)
        (trans-Spared (expect-Spared h t) (answer_syn-Spared f (expect_after h t)))

module _ {x : Net} (calm : IsCalm x) (laws : IsSending x) where
  syn_sent_data-Spared :
      (p : x.Packet) (h : TcpHeader) (s : Socket x) → Spared s (syn_sent_data p h s)
  unfolding syn_sent_data
  syn_sent_data-Spared p h s =
      let t : Socket x = ack_first_at_once (establish s) in
      let u : Socket x = received_data p h t in
      trans-Spared (establish-Spared s) (
        trans-Spared (same-Spared (establish s) t refl)
          (trans-Spared (data-Spared calm laws p h t) (same-Spared u _ refl)))

  handshake_completed-Spared :
      (f : Flags) (h : TcpHeader) (s : Socket x) → Spared s (handshake_completed f h s)
  unfolding handshake_completed
  handshake_completed-Spared f h s =
      let ecn = not (is_use_ecn_off s.tcb.use_ecn) && f.ece && not f.cwr in
      let e = expect_after h (establish s) in
      let r : Socket x = take_syn_sequence e in
      let t : Socket x = update_pacing_rate r in
      let v : Socket x = send_empty_packet flag_ack t in
      let u : Socket x =
        set_tcb (λ b. record b { ecn_state = if ecn then ecn_idle else ecn_disabled }) v in
      let w : Socket x = (send_pending_data u.connected u).0 in
      trans-Spared (establish-Spared s) (
        trans-Spared (expect-Spared h (establish s)) (
          trans-Spared (take-Spared e) (
            trans-Spared (Steady-Spared (update_pacing_rate-Steady r)) (
              trans-Spared (send_empty_packet-Spared flag_ack t) (
                trans-Spared (same-Spared v u refl)
                  (trans-Spared (sent-Spared calm laws u.connected u) (same-Spared w _ refl)))))))

  process_syn_sent-Spared :
      (p : x.Packet) (h : TcpHeader) (s : Socket x) → Spared s (process_syn_sent p h s)
  unfolding process_syn_sent
  process_syn_sent-Spared p h s =
      let f = without_psh_urg h.flags in
      branch-Spared (flags_eq f no_flags) (syn_sent_data-Spared p h s) (
        branch-Spared (f.ack && not f.syn) (still s) (
          branch-Spared (f.syn && not f.ack) (syn_sent_syn-Spared f h s) (
            branch-Spared ((f.syn || f.ack) && x.seq.add s.tcb.next_tx_sequence 1 == h.ack_number)
              (handshake_completed-Spared f h s) (refused-Spared f.rst s s refl))))

  syn_rcvd_complete-Spared :
      (p : x.Packet) (h : TcpHeader) (peer : Peer) (s : Socket x)
      → Spared s (syn_rcvd_complete p h peer s)
  unfolding syn_rcvd_complete
  syn_rcvd_complete-Spared p h peer s =
      let c = take_syn_sequence (establish s) in
      let t : Socket x =
        emit notify_new_connection_created (ack_first_at_once (set_peer_end peer c)) in
      let v : Socket x = received_ack p h t in
      trans-Spared (establish-Spared s) (
        trans-Spared (take-Spared (establish s)) (
          trans-Spared (same-Spared c t refl) (
            trans-Spared (ack-Spared calm laws p h t) (
              trans-Spared (Steady-Spared (update_pacing_rate-Steady v))
                (space-Spared (update_pacing_rate v))))))

  syn_rcvd_fin-Spared :
      (p : x.Packet) (h : TcpHeader) (peer : Peer) (s : Socket x)
      → Spared s (syn_rcvd_fin p h peer s)
  unfolding syn_rcvd_fin
  syn_rcvd_fin-Spared p h peer s =
      let r : Socket x = record s { connected = true; retx_event = none } in
      let c = take_syn_sequence r in
      let t : Socket x = emit notify_new_connection_created (set_peer_end peer c) in
      branch-Spared (h.seq == x.rx_next_sequence s.rx_buffer)
        (trans-Spared (same-Spared s r refl) (
          trans-Spared (take-Spared r)
            (trans-Spared (same-Spared c t refl) (peer_close-Spared calm laws p h t))))
        (still s)

  process_syn_rcvd-Spared :
      (p : x.Packet) (h : TcpHeader) (peer : Peer) (s : Socket x)
      → Spared s (process_syn_rcvd p h peer s)
  unfolding process_syn_rcvd
  process_syn_rcvd-Spared p h peer s =
      let f = without_extras h.flags in
      branch-Spared
        (flags_eq f no_flags
          || flags_eq f flag_ack && x.seq.add s.tcb.next_tx_sequence 1 == h.ack_number)
        (syn_rcvd_complete-Spared p h peer s)
        (branch-Spared (flags_eq f flag_syn)
          (trans-Spared (expect-Spared h s) (answer_syn-Spared h.flags (expect_after h s)))
          (branch-Spared (flags_eq f flag_fin_ack) (syn_rcvd_fin-Spared p h peer s)
            (refused-Spared (flags_eq f flag_rst) s (set_peer_end peer s) refl)))

  pub dispatch-Spared :
      (st : TcpState) (p : x.Packet) (h : TcpHeader) (accepts : Bool) (peer : Peer) (s : Socket x)
      → Spared s (dispatch st p h accepts peer s)
  unfolding dispatch
  dispatch-Spared closed p h accepts peer s = refuse-Spared h s
  dispatch-Spared listen p h accepts peer s = process_listen-Spared accepts h s
  dispatch-Spared syn_sent p h accepts peer s = process_syn_sent-Spared p h s
  dispatch-Spared syn_rcvd p h accepts peer s = process_syn_rcvd-Spared p h peer s
  dispatch-Spared established p h accepts peer s = process_established-Spared calm laws p h s
  dispatch-Spared close_wait p h accepts peer s = process_wait-Spared calm laws p h s
  dispatch-Spared last_ack p h accepts peer s = process_last_ack-Spared calm laws p h s
  dispatch-Spared fin_wait_1 p h accepts peer s = process_wait-Spared calm laws p h s
  dispatch-Spared fin_wait_2 p h accepts peer s = process_wait-Spared calm laws p h s
  dispatch-Spared closing p h accepts peer s = process_closing-Spared h s
  dispatch-Spared time_wait p h accepts peer s = still s
