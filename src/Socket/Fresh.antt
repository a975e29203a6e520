-- ===== src/Socket/Fresh.antt =====
-- What the copy of a listening socket keeps of the modification: the copy constructors of
-- TcpSocketBase and TcpSocketState together (NS3/1705069/TaskB/tcp-socket-base.cc and
-- tcp-socket-state.cc).
use cse_322_computer_network.Base.{ℕ, ◌≡◌, arith, List, Option, true, false}
use cse_322_computer_network.Tcb.{Tcb, moderate, copy_tcb}
use cse_322_computer_network.Wire.{Flags, flag_syn_ack, flag_syn_ack_ece, TcpHeader, TcpOption}
use cse_322_computer_network.Net.{Net}
use cse_322_computer_network.Socket.State.{syn_rcvd, Socket, EndPoint, set_state, computed_rto}
use cse_322_computer_network.Socket.Send.{
  syn_attempt, note_adv_wnd, note_w_scale, update_rtt_history, note_ack_sent, send_empty_header,
  send_empty_from, send_empty_packet, advertised_window_size, add_syn_options, add_options,
  give_up_connecting, deallocate_end_point, cancel_all_timers,
}
use cse_322_computer_network.Socket.Process.{expect_after}
use cse_322_computer_network.Socket.Input.{complete_fork}
use cse_322_computer_network.Socket.Fork.{Copies, fork, accept}

-- The members of the modification are in no code of ns-3, so `Init` of a congestion control
-- leaves them.
pub record IsKeeping (x : Net) : Type 0 where
  pub mode : (c : x.cong.State) (t : Tcb) → (x.cong.init c t).1.mode ≡ t.mode
  pub v_count : (c : x.cong.State) (t : Tcb) → (x.cong.init c t).1.v_count ≡ t.v_count
  pub v_count_max : (c : x.cong.State) (t : Tcb) → (x.cong.init c t).1.v_count_max ≡ t.v_count_max
  pub last_rtt :
      (c : x.cong.State) (t : Tcb) → (x.cong.init c t).1.vegas_last_rtt ≡ t.vegas_last_rtt
  pub last_cwnd :
      (c : x.cong.State) (t : Tcb) → (x.cong.init c t).1.vegas_last_cwnd ≡ t.vegas_last_cwnd

-- The members of the modification in a block that nothing has used.
pub record IsUnused (garbage : ℕ) (t : Tcb) : Type 0 where
  pub mode : t.mode ≡ moderate
  pub v_count : t.v_count ≡ 0
  pub v_count_max : t.v_count_max ≡ 5
  pub last_rtt : t.vegas_last_rtt ≡ 0
  pub last_cwnd : t.vegas_last_cwnd ≡ garbage

module _ {x : Net} where
  send_empty_header-tcb :
      (f : Flags) (seq w : ℕ) (os : List TcpOption) (s : Socket x)
      → (send_empty_header f seq w os s).tcb ≡ s.tcb
  unfolding send_empty_header note_ack_sent
  send_empty_header-tcb f seq w os s = ground arith

  syn_attempt-tcb : (seq : ℕ) (s : Socket x) → (note_adv_wnd (syn_attempt seq s)).tcb ≡ s.tcb
  unfolding note_adv_wnd syn_attempt update_rtt_history
  syn_attempt-tcb seq s = ground arith

  give_up_connecting-tcb : (s : Socket x) → (give_up_connecting s).tcb ≡ s.tcb
  unfolding give_up_connecting deallocate_end_point cancel_all_timers
  give_up_connecting-tcb s = ground arith

  send_empty_from-tcb : (f : Flags) (seq : ℕ) (s : Socket x) → (send_empty_from f seq s).tcb ≡ s.tcb
  unfolding send_empty_from note_adv_wnd
  send_empty_from-tcb f seq s =
      let t : Socket x = note_adv_wnd (record s { rto = computed_rto s }) in
      let u : Socket x = note_w_scale t in
      let v : Socket x = note_adv_wnd (syn_attempt seq u) in
      ground (
        arith,
        send_empty_header-tcb f seq (advertised_window_size false (syn_attempt seq u))
            (add_syn_options (add_options s) t) v,
        syn_attempt-tcb seq u,
        give_up_connecting-tcb u,
        send_empty_header-tcb f seq (advertised_window_size true s) (add_options s) t,
      )

  pub send_empty_packet-tcb : (f : Flags) (s : Socket x) → (send_empty_packet f s).tcb ≡ s.tcb
  unfolding send_empty_packet
  send_empty_packet-tcb f s =
      let g = record f { ack = true } in
      let n = x.seq.add s.tcb.next_tx_sequence 1 in
      ground (
        arith,
        send_empty_from-tcb f n s,
        send_empty_from-tcb f s.tcb.next_tx_sequence s,
        send_empty_from-tcb g n s,
        send_empty_from-tcb g s.tcb.next_tx_sequence s,
      )

  fork-IsUnused : (k : Copies x) (s : Socket x) → IsKeeping x → IsUnused k.garbage (fork k s).tcb
  unfolding fork copy_tcb
  fork-IsUnused k s laws =
      let b = copy_tcb k.garbage s.tcb in
      let t : Tcb = record b { pacing_rate = b.max_pacing_rate } in
      let c = x.cong.fork s.congestion in
      record {
        mode = laws.mode c t;
        v_count = laws.v_count c t;
        v_count_max = laws.v_count_max c t;
        last_rtt = laws.last_rtt c t;
        last_cwnd = laws.last_cwnd c t;
      }

  -- The copy of a listening socket that answers a request has the modification's members as in a
  -- block that nothing has used: the mode is moderate, counter and last round trip are 0, the
  -- limit is 5 even if the listening socket was set to another, and the last window is the
  -- indeterminate value of a new block; if the Init of the congestion control leaves these
  -- members.
  pub accept-IsUnused :
      (k : Copies x) (e e6 : Option EndPoint) (request : TcpHeader) (s : Socket x)
      → IsKeeping x
      → IsUnused k.garbage (accept k e e6 request s).tcb
  unfolding accept complete_fork expect_after
  accept-IsUnused k e e6 request s laws =
      let c : Socket x = fork k s in
      let t : Socket x = expect_after request (record (set_state syn_rcvd c) {
        end_point = e;
        end_point6 = e6;
        syn_count = c.syn_retries;
        data_retr_count = c.data_retries;
      }) in
      ground (
        arith,
        fork-IsUnused k s laws,
        send_empty_packet-tcb flag_syn_ack t,
        send_empty_packet-tcb flag_syn_ack_ece t,
      )
