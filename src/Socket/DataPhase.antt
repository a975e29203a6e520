-- ===== src/Socket/DataPhase.antt =====
-- What arriving data, a FIN and the packets sent in answer do to the phase of a connection
-- (NS3/1705069/TaskB/tcp-socket-base.cc).
use cse_322_computer_network.Base.{
  ℕ, ◌≤◌, ◌≡◌, refl, arith, Bool, true, false, not, ◌&&◌, ◌==◌, if◌then◌else◌, none, List, ◌∙◌,
}
use cse_322_computer_network.Tcb.{non_delayed_ack}
use cse_322_computer_network.Wire.{
  Flags, flag_ack, flag_ack_ece, flag_rst, flag_fin_ack, TcpHeader, TcpOption, notify_data_recv,
}
use cse_322_computer_network.Net.{Net}
use cse_322_computer_network.Socket.State.{
  TcpState, closed, close_wait, fin_wait_1, closing, Socket, cong_call, set_state, emit,
  is_last_ack, computed_rto,
}
use cse_322_computer_network.Socket.Send.{
  deallocate_end_point, notify_close_once, cancel_all_timers, close_and_notify, give_up_connecting,
  note_ack_sent, note_adv_wnd, note_w_scale, syn_attempt, update_rtt_history, send_empty_header,
  send_empty_from, send_empty_packet, send_rst, advertised_window_size, add_syn_options,
  add_options,
}
use cse_322_computer_network.Socket.Close.{close_in, do_close, close, arm_last_ack, do_peer_close}
use cse_322_computer_network.Socket.Receive.{
  send_ack_or_echo, acknowledge_data, data_accepted, received_data, peer_close,
}
use cse_322_computer_network.Socket.Phase.{rank, corank, phase, Onward}

pub phase_le : (st : TcpState) → phase st ≤ 5
unfolding phase
phase_le st = ground arith

closing_ranks :
    (phase fin_wait_1 ≡ 3)
    × (phase closing ≡ 3)
    × (rank fin_wait_1 ≡ 4)
    × (rank closing ≡ 5)
    × (corank fin_wait_1 ≡ 4)
    × (corank closing ≡ 5)
unfolding phase rank corank
closing_ranks = (refl, refl, refl, refl, refl, refl)

rank_le : (st : TcpState) → (rank st ≤ 9) × (corank st ≤ 9)
unfolding rank corank
rank_le st = (ground arith, ground arith)

module _ {x : Net} where
  -- The state is CLOSE_WAIT or LAST_ACK, as the phase and the ranks tell.
  pub record IsLast (s : Socket x) : Type 0 where
    pub at_phase : phase s.state ≡ 3
    pub at_rank : rank s.state ≡ 9
    pub at_corank : corank s.state ≡ 9

  same-IsLast : {s t : Socket x} → t.state ≡ s.state → IsLast s → IsLast t
  same-IsLast e k = ground arith

  branch-IsLast : (b : Bool) {s t : Socket x} → IsLast s → IsLast t → IsLast (if b then s else t)
  branch-IsLast true k l = k
  branch-IsLast false k l = l

  last-Onward : (s t : Socket x) → phase s.state ≤ 3 → IsLast t → Onward s t
  last-Onward s t le k = ground (arith, rank_le s.state)

  pub deallocate_end_point-state : (s : Socket x) → (deallocate_end_point s).state ≡ s.state
  unfolding deallocate_end_point cancel_all_timers
  deallocate_end_point-state s = ground arith

  pub close_and_notify-state : (s : Socket x) → (close_and_notify s).state ≡ closed
  unfolding close_and_notify
  close_and_notify-state s = deallocate_end_point-state _

  pub give_up_connecting-state : (s : Socket x) → (give_up_connecting s).state ≡ closed
  unfolding give_up_connecting
  give_up_connecting-state s = deallocate_end_point-state _

  pub send_empty_header-state :
      (f : Flags) (seq w : ℕ) (os : List TcpOption) (s : Socket x)
      → (send_empty_header f seq w os s).state ≡ s.state
  unfolding send_empty_header note_ack_sent
  send_empty_header-state f seq w os s = ground arith

  send_empty_from-state :
      (f : Flags) (seq : ℕ) (s : Socket x)
      → f.syn ≡ false
      → (send_empty_from f seq s).state ≡ s.state
  unfolding send_empty_from note_adv_wnd
  send_empty_from-state f seq s e = rw e (send_empty_header-state _ _ _ _ _)

  pub send_empty_packet-state :
      (f : Flags) (s : Socket x) → f.syn ≡ false → (send_empty_packet f s).state ≡ s.state
  unfolding send_empty_packet
  send_empty_packet-state f s e =
      let g = record f { ack = true } in
      let n = x.seq.add s.tcb.next_tx_sequence 1 in
      ground (
        arith,
        send_empty_from-state f n s e,
        send_empty_from-state f s.tcb.next_tx_sequence s e,
        send_empty_from-state g n s e,
        send_empty_from-state g s.tcb.next_tx_sequence s e,
      )

  pub send_rst-state : (s : Socket x) → (send_rst s).state ≡ s.state
  unfolding send_rst
  send_rst-state s = deallocate_end_point-state _ ∙ send_empty_packet-state flag_rst s refl

  pub send_ack_or_echo-state : (s : Socket x) → (send_ack_or_echo s).state ≡ s.state
  unfolding send_ack_or_echo
  send_ack_or_echo-state s =
      ground (
        arith,
        send_empty_packet-state flag_ack s refl,
        send_empty_packet-state flag_ack_ece s refl,
      )

  acknowledge_data-state : (n : ℕ) (s : Socket x) → (acknowledge_data n s).state ≡ s.state
  unfolding acknowledge_data
  acknowledge_data-state n s =
      let u : Socket x = cong_call (x.cong.cwnd_event non_delayed_ack) s in
      let v : Socket x =
        cong_call (x.cong.cwnd_event non_delayed_ack)
          (record s { del_ack_event = none; del_ack_count = 0 }) in
      ground (arith, send_ack_or_echo-state u, send_ack_or_echo-state v)

  -- Close in CLOSE_WAIT goes to LAST_ACK, or stays with a reset or data left.
  close_wait_close : (s : Socket x) → s.state ≡ close_wait → IsLast (close s)
  unfolding close do_close close_in phase rank corank
  close_wait_close s e =
      ground (arith, send_rst-state s, send_empty_packet-state flag_fin_ack s refl)

  waits : (s : Socket x) → s.state ≡ close_wait → IsLast s
  unfolding phase rank corank
  waits s e = ground arith

  arm-state :
      (s : Socket x)
      → (if is_last_ack s.state
          then arm_last_ack (record s { data_retr_count = s.data_retries })
          else s).state
        ≡ s.state
  arm-state s = ground arith

  pub do_peer_close-IsLast : (s : Socket x) → IsLast (do_peer_close s)
  unfolding do_peer_close
  do_peer_close-IsLast s =
      let t : Socket x = notify_close_once (set_state close_wait s) in
      let u : Socket x = if t.shutdown_send then close t else send_empty_packet flag_ack t in
      let e : t.state ≡ close_wait = ground arith in
      let f : IsLast u =
        branch-IsLast t.shutdown_send (close_wait_close t e)
          (same-IsLast (send_empty_packet-state flag_ack t refl) (waits t e)) in
      same-IsLast (arm-state u) f

  data_accepted-Onward :
      (a b : ℕ) (f : Flags) (s : Socket x) → phase s.state ≤ 3 → Onward s (data_accepted a b f s)
  unfolding data_accepted
  data_accepted-Onward a b f s le =
      let advanced = x.seq.lt a (x.rx_next_sequence s.rx_buffer) in
      let t : Socket x = if advanced && not s.shutdown_recv then emit notify_data_recv s else s in
      ground
        (arith, do_peer_close-IsLast t, rank_le s.state, acknowledge_data-state (x.seq.add a b) t)

  pub received_data-Onward :
      (p : x.Packet) (h : TcpHeader) (s : Socket x)
      → phase s.state ≤ 3
      → Onward s (received_data p h s)
  unfolding received_data
  received_data-Onward p h s le =
      let (rx, added) = x.rx_add p h s.rx_buffer in
      let t = record s { rx_buffer = rx } in
      let n = x.rx_next_sequence s.rx_buffer in
      ground
        (arith, send_ack_or_echo-state t, data_accepted-Onward n (x.packet_size p) h.flags t le)

  pub peer_close-Onward :
      (p : x.Packet) (h : TcpHeader) (s : Socket x)
      → phase s.state ≤ 3
      → Onward s (peer_close p h s)
  unfolding peer_close
  peer_close-Onward p h s le =
      let fin_at = x.rx_set_fin_sequence (x.seq.add h.seq (x.packet_size p)) s.rx_buffer in
      let t = record s { rx_buffer = fin_at } in
      let u : Socket x = if x.packet_size p == 0 then t else received_data p h t in
      ground (
        arith,
        received_data-Onward p h t le,
        do_peer_close-IsLast u,
        rank_le s.state,
        closing_ranks,
      )

  pub syn_attempt-state : (seq : ℕ) (s : Socket x) → (syn_attempt seq s).state ≡ s.state
  unfolding syn_attempt update_rtt_history
  syn_attempt-state seq s = ground arith

  pub five_is_last : (s t : Socket x) → t.state ≡ closed → phase s.state ≤ phase t.state
  unfolding phase
  five_is_last s t e = rw e (phase_le s.state)

  -- A SYN either leaves the state or, with no attempt left, closes the socket.
  send_empty_from-up :
      (f : Flags) (seq : ℕ) (s : Socket x) → phase s.state ≤ phase (send_empty_from f seq s).state
  unfolding send_empty_from note_adv_wnd
  send_empty_from-up f seq s =
      let t : Socket x = note_adv_wnd (record s { rto = computed_rto s }) in
      let u : Socket x = note_w_scale t in
      let a : Socket x = note_adv_wnd (syn_attempt seq u) in
      let os = add_syn_options (add_options s) t in
      let w = advertised_window_size false (syn_attempt seq u) in
      ground (
        arith,
        five_is_last s (give_up_connecting u) (give_up_connecting-state u),
        syn_attempt-state seq u,
        send_empty_header-state f seq w os a,
        send_empty_header-state f seq (advertised_window_size true s) (add_options s) t,
      )

  pub send_empty_packet-up :
      (f : Flags) (s : Socket x) → phase s.state ≤ phase (send_empty_packet f s).state
  unfolding send_empty_packet
  send_empty_packet-up f s =
      let g = record f { ack = true } in
      let n = x.seq.add s.tcb.next_tx_sequence 1 in
      ground (
        arith,
        send_empty_from-up f n s,
        send_empty_from-up f s.tcb.next_tx_sequence s,
        send_empty_from-up g s.tcb.next_tx_sequence s,
        send_empty_from-up g n s,
      )
