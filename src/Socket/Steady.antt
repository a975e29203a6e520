-- ===== src/Socket/Steady.antt =====
-- What the parts of the processing of an acknowledgement leave of the recovery: the congestion
-- state, the threshold and the recovery point (NS3/1705069/TaskB/tcp-socket-base.cc).
use cse_322_computer_network.Base.{
  ℕ, ◌≡◌, arith, Bool, true, false, not, ◌&&◌, if◌then◌else◌, add32, none, List,
}
use cse_322_computer_network.Tcb.{Tcb, CongState, CaEvent, non_delayed_ack, delayed_ack}
use cse_322_computer_network.Wire.{
  Flags, flag_ack, flag_ack_ece, flag_rst, flag_fin, flag_fin_ack, TcpHeader, TcpOption,
  notify_data_recv, notify_error_close, notify_connection_failed,
}
use cse_322_computer_network.Net.{Net}
use cse_322_computer_network.Socket.State.{
  TcpState, closed, close_wait, Socket, cong_call, recovery_call, set_state, emit, is_last_ack,
  computed_rto,
}
use cse_322_computer_network.Socket.Send.{
  deallocate_end_point, cancel_all_timers, notify_close_once, close_and_notify, give_up_connecting,
  note_ack_sent, note_adv_wnd, note_w_scale, syn_attempt, update_rtt_history, send_empty_header,
  send_empty_from, send_empty_packet, send_rst, advertised_window_size, add_syn_options,
  add_options,
}
use cse_322_computer_network.Socket.Close.{close_in, do_close, close, arm_last_ack, do_peer_close}
use cse_322_computer_network.Socket.Receive.{
  send_ack_or_echo, acknowledge_data, data_accepted, received_data,
}

-- A call that leaves the congestion state and the threshold.
abbrev pub Leaves : {S : Type 0} → (S → Tcb → S × Tcb) → Type 0
Leaves {S} f =
    (c : S) (t : Tcb) → ((f c t).1.cong_state ≡ t.cong_state) × ((f c t).1.ss_thresh ≡ t.ss_thresh)

-- What ns-3 leaves to the socket: the congestion state is set by TcpSocketBase alone, and the
-- threshold by what GetSsThresh answers and by the increase of the window.
pub record IsCalm (x : Net) : Type 0 where
  pub increase :
      (n : ℕ) (c : x.cong.State) (t : Tcb)
      → (x.cong.increase_window n c t).1.cong_state ≡ t.cong_state
  pub acked : (n rtt : ℕ) → Leaves (x.cong.pkts_acked n rtt)
  pub told : (c : CongState) → Leaves (x.cong.congestion_state_set c)
  pub event : (e : CaEvent) → Leaves (x.cong.cwnd_event e)
  pub control : (sample : x.Sample) → Leaves (x.cong.cong_control sample)
  pub enter : (a b c : ℕ) → Leaves (x.recovery_enter a b c)
  pub recover : (a : ℕ) → Leaves (x.recovery_do a)
  pub leave : Leaves x.recovery_exit

module _ {x : Net} where
  pub record Steady (s t : Socket x) : Type 0 where
    pub cong_state : t.tcb.cong_state ≡ s.tcb.cong_state
    pub ss_thresh : t.tcb.ss_thresh ≡ s.tcb.ss_thresh
    pub recover : t.recover ≡ s.recover

  pub same-Steady : (s : Socket x) → Steady s s
  same-Steady s = ground arith

  pub trans-Steady : {s t u : Socket x} → Steady s t → Steady t u → Steady s u
  trans-Steady p q = ground (arith, p, q)

  pub branch-Steady :
      (b : Bool) {s t u : Socket x} → Steady s t → Steady s u → Steady s (if b then t else u)
  branch-Steady true k l = k
  branch-Steady false k l = l

  pub cong_call-Steady :
      (f : x.cong.State → Tcb → x.cong.State × Tcb) (s : Socket x)
      → Leaves f
      → Steady s (cong_call f s)
  cong_call-Steady f s k = ground (arith, k s.congestion s.tcb)

  pub recovery_call-Steady :
      (f : x.Recovery → Tcb → x.Recovery × Tcb) (s : Socket x)
      → Leaves f
      → Steady s (recovery_call f s)
  recovery_call-Steady f s k = ground (arith, k s.recovery s.tcb)

  pub deallocate-Steady : (s : Socket x) → Steady s (deallocate_end_point s)
  unfolding deallocate_end_point cancel_all_timers
  deallocate-Steady s = ground arith

  pub close_and_notify-Steady : (s : Socket x) → Steady s (close_and_notify s)
  unfolding close_and_notify
  close_and_notify-Steady s =
      let t : Socket x = notify_close_once s in
      let u : Socket x = record t { last_ack_event = none; state = closed } in
      ground (arith, deallocate-Steady u)

  give_up-Steady : (s : Socket x) → Steady s (give_up_connecting s)
  unfolding give_up_connecting
  give_up-Steady s =
      let t : Socket x = record s { rtt = x.rtt_reset s.rtt } in
      let u : Socket x = set_state closed (emit notify_connection_failed t) in
      ground (arith, deallocate-Steady u)

  send_empty_header-Steady :
      (f : Flags) (seq w : ℕ) (os : List TcpOption) (s : Socket x)
      → Steady s (send_empty_header f seq w os s)
  unfolding send_empty_header note_ack_sent
  send_empty_header-Steady f seq w os s = ground arith

  syn_attempt-Steady : (seq : ℕ) (s : Socket x) → Steady s (syn_attempt seq s)
  unfolding syn_attempt update_rtt_history
  syn_attempt-Steady seq s = ground arith

  send_empty_from-Steady : (f : Flags) (seq : ℕ) (s : Socket x) → Steady s (send_empty_from f seq s)
  unfolding send_empty_from note_adv_wnd
  send_empty_from-Steady f seq s =
      let t : Socket x = note_adv_wnd (record s { rto = computed_rto s }) in
      let u : Socket x = note_w_scale t in
      let a : Socket x = note_adv_wnd (syn_attempt seq u) in
      let os = add_syn_options (add_options s) t in
      let w = advertised_window_size false (syn_attempt seq u) in
      ground (
        arith,
        give_up-Steady u,
        syn_attempt-Steady seq u,
        send_empty_header-Steady f seq w os a,
        send_empty_header-Steady f seq (advertised_window_size true s) (add_options s) t,
      )

  pub send_empty_packet-Steady : (f : Flags) (s : Socket x) → Steady s (send_empty_packet f s)
  unfolding send_empty_packet
  send_empty_packet-Steady f s =
      let g = record f { ack = true } in
      let n = x.seq.add s.tcb.next_tx_sequence 1 in
      ground (
        arith,
        send_empty_from-Steady f n s,
        send_empty_from-Steady f s.tcb.next_tx_sequence s,
        send_empty_from-Steady g s.tcb.next_tx_sequence s,
        send_empty_from-Steady g n s,
      )

  pub send_rst-Steady : (s : Socket x) → Steady s (send_rst s)
  unfolding send_rst
  send_rst-Steady s =
      let t = emit notify_error_close (send_empty_packet flag_rst s) in
      ground (arith, send_empty_packet-Steady flag_rst s, deallocate-Steady t)

  pub send_ack_or_echo-Steady : (s : Socket x) → Steady s (send_ack_or_echo s)
  unfolding send_ack_or_echo
  send_ack_or_echo-Steady s =
      ground (arith, send_empty_packet-Steady flag_ack s, send_empty_packet-Steady flag_ack_ece s)

  pub close_in-Steady : (st : TcpState) (s : Socket x) → Steady s (close_in st s)
  unfolding close_in
  close_in-Steady st s = ground (
    arith,
    close_and_notify-Steady s,
    close_and_notify-Steady (send_rst s),
    send_rst-Steady s,
    send_empty_packet-Steady flag_fin s,
    send_empty_packet-Steady flag_fin_ack s,
  )

  pub close-Steady : (s : Socket x) → Steady s (close s)
  unfolding close do_close
  close-Steady s = ground (arith, send_rst-Steady s, close_in-Steady s.state s)

  armed-Steady :
      (s : Socket x)
      → Steady s (
          if is_last_ack s.state
          then arm_last_ack (record s { data_retr_count = s.data_retries })
          else s)
  armed-Steady s = ground arith

  pub do_peer_close-Steady : (s : Socket x) → Steady s (do_peer_close s)
  unfolding do_peer_close
  do_peer_close-Steady s =
      let t : Socket x = notify_close_once (set_state close_wait s) in
      let u : Socket x = if t.shutdown_send then close t else send_empty_packet flag_ack t in
      let k : Steady t u =
        branch-Steady t.shutdown_send (close-Steady t) (send_empty_packet-Steady flag_ack t) in
      let e : Steady s t = ground arith in trans-Steady e (trans-Steady k (armed-Steady u))

  acknowledge_data-Steady : IsCalm x → (n : ℕ) (s : Socket x) → Steady s (acknowledge_data n s)
  unfolding acknowledge_data
  acknowledge_data-Steady calm n s =
      let t : Socket x = record s { del_ack_count = 0; del_ack_event = none } in
      let w : Socket x = record s { del_ack_count = add32 s.del_ack_count 1 } in
      let u : Socket x = cong_call (x.cong.cwnd_event non_delayed_ack) s in
      let v : Socket x = cong_call (x.cong.cwnd_event non_delayed_ack) t in
      ground (
        arith,
        calm.event non_delayed_ack s.congestion s.tcb,
        calm.event delayed_ack s.congestion s.tcb,
        send_ack_or_echo-Steady u,
        send_ack_or_echo-Steady v,
      )

  data_accepted-Steady :
      IsCalm x → (a b : ℕ) (f : Flags) (s : Socket x) → Steady s (data_accepted a b f s)
  unfolding data_accepted
  data_accepted-Steady calm a b f s =
      let advanced = x.seq.lt a (x.rx_next_sequence s.rx_buffer) in
      let t : Socket x = if advanced && not s.shutdown_recv then emit notify_data_recv s else s in
      ground (arith, do_peer_close-Steady t, acknowledge_data-Steady calm (x.seq.add a b) t)

  pub received_data-Steady :
      IsCalm x → (p : x.Packet) (h : TcpHeader) (s : Socket x) → Steady s (received_data p h s)
  unfolding received_data
  received_data-Steady calm p h s =
      let (rx, added) = x.rx_add p h s.rx_buffer in
      let t = record s { rx_buffer = rx } in
      let n = x.rx_next_sequence s.rx_buffer in
      ground
        (arith, send_ack_or_echo-Steady t, data_accepted-Steady calm n (x.packet_size p) h.flags t)
