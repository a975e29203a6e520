-- ===== src/Socket/AnswerFollows.antt =====
-- The answer to a SYN against the states that may follow
-- (NS3/1705069/TaskB/tcp-socket-base.cc).
use cse_322_computer_network.Base.{ℕ, ◌≡◌, arith, true, false}
use cse_322_computer_network.Tcb.{ecn_disabled}
use cse_322_computer_network.Wire.{Flags, flag_syn_ack, flag_syn_ack_ece}
use cse_322_computer_network.Net.{Net}
use cse_322_computer_network.Socket.State.{syn_rcvd, Socket, computed_rto}
use cse_322_computer_network.Socket.Send.{
  send_empty_packet, send_empty_from, note_adv_wnd, note_w_scale, syn_attempt, add_syn_options,
  add_options, advertised_window_size,
}
use cse_322_computer_network.Socket.Process.{answer_syn}
use cse_322_computer_network.Socket.DataPhase.{
  give_up_connecting-state, syn_attempt-state, send_empty_header-state,
}
use cse_322_computer_network.Socket.HandlerFollows.{Follows}

module _ {x : Net} where
  send_empty_from-Follows :
      (f : Flags) (seq : ℕ) (s : Socket x)
      → s.state ≡ syn_rcvd
      → Follows syn_rcvd (send_empty_from f seq s)
  unfolding send_empty_from note_adv_wnd
  send_empty_from-Follows f seq s e =
      let t : Socket x = note_adv_wnd (record s { rto = computed_rto s }) in
      let u : Socket x = note_w_scale t in
      let a : Socket x = note_adv_wnd (syn_attempt seq u) in
      let os = add_syn_options (add_options s) t in
      let w = advertised_window_size false (syn_attempt seq u) in
      ground (
        arith,
        give_up_connecting-state u,
        syn_attempt-state seq u,
        send_empty_header-state f seq w os a,
        send_empty_header-state f seq (advertised_window_size true s) (add_options s) t,
      )

  send_empty_packet-Follows :
      (f : Flags) (s : Socket x) → s.state ≡ syn_rcvd → Follows syn_rcvd (send_empty_packet f s)
  unfolding send_empty_packet
  send_empty_packet-Follows f s e =
      let g = record f { ack = true } in
      let n = x.seq.add s.tcb.next_tx_sequence 1 in
      ground (
        arith,
        send_empty_from-Follows f n s,
        send_empty_from-Follows f s.tcb.next_tx_sequence s,
        send_empty_from-Follows g s.tcb.next_tx_sequence s,
        send_empty_from-Follows g n s,
      )

  pub answer_syn-Follows :
      (f : Flags) (s : Socket x) → s.state ≡ syn_rcvd → Follows syn_rcvd (answer_syn f s)
  unfolding answer_syn
  answer_syn-Follows f s e =
      let t : Socket x = record s { tcb = record s.tcb { ecn_state = ecn_disabled } } in
      ground (
        arith,
        send_empty_packet-Follows flag_syn_ack_ece s,
        send_empty_packet-Follows flag_syn_ack t,
      )
