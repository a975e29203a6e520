-- ===== src/Socket/Phase.antt =====
-- The phase of a connection, and what an acknowledgement and the sending of data do to it
-- (NS3/1705069/TaskB/tcp-socket-base.cc).
use cse_322_computer_network.Base.{
  ℕ, zero, suc, ◌+◌, ◌≤◌, max, ◌≡◌, refl, arith, Bool, true, false, Option, none, some,
}
use cse_322_computer_network.Tcb.{tx_start}
use cse_322_computer_network.Wire.{Flags}
use cse_322_computer_network.Net.{Net}
use cse_322_computer_network.Socket.State.{
  TcpState, closed, listen, syn_sent, syn_rcvd, established, close_wait, last_ack, fin_wait_1,
  fin_wait_2, closing, time_wait, Socket, cong_call,
}
use cse_322_computer_network.Socket.Send.{update_rtt_history, note_adv_wnd}
use cse_322_computer_network.Socket.Transmit.{
  start_pacing, note_cwr_sent, note_fin_sent, send_data_header, note_data_sent, send_item,
  copy_item, send_data_packet, note_bytes_in_flight, update_pacing_rate, available_window,
  note_with_ack,
}
use cse_322_computer_network.Socket.Loop.{
  ask_for_data, send_segment, send_chosen, send_from, send_round, send_on, send_loop,
  send_pending_data, do_retransmit, next_seg,
}

-- Listening or calling, answering, established, closing, waiting, and closed.
unfoldable pub phase : TcpState → ℕ
phase listen = 0
phase syn_sent = 0
phase syn_rcvd = 1
phase established = 2
phase close_wait = 3
phase last_ack = 3
phase fin_wait_1 = 3
phase fin_wait_2 = 3
phase closing = 3
phase time_wait = 4
phase closed = 5

-- Two ranks that together order the states by what acknowledgements, data and the sending of data
-- can do: from ESTABLISHED over FIN_WAIT_1 to CLOSING, and from everywhere to CLOSE_WAIT and
-- LAST_ACK. Other states are apart: one rank or the other falls.
unfoldable pub rank : TcpState → ℕ
rank listen = 0
rank syn_sent = 1
rank syn_rcvd = 2
rank established = 3
rank fin_wait_1 = 4
rank closing = 5
rank fin_wait_2 = 6
rank time_wait = 7
rank closed = 8
rank close_wait = 9
rank last_ack = 9

unfoldable pub corank : TcpState → ℕ
corank closed = 0
corank time_wait = 1
corank fin_wait_2 = 2
corank established = 3
corank fin_wait_1 = 4
corank closing = 5
corank syn_rcvd = 6
corank syn_sent = 7
corank listen = 8
corank close_wait = 9
corank last_ack = 9

module _ {x : Net} where
  -- Not back, and not beyond the closing phase unless it was there.
  pub record Onward (s t : Socket x) : Type 0 where
    pub up : phase s.state ≤ phase t.state
    pub limit : phase t.state ≤ max 3 (phase s.state)
    pub ranked : rank s.state ≤ rank t.state
    pub coranked : corank s.state ≤ corank t.state

  pub same-Onward : {s t : Socket x} → t.state ≡ s.state → Onward s t
  same-Onward e = ground arith

  pub trans-Onward : {s t u : Socket x} → Onward s t → Onward t u → Onward s u
  trans-Onward p q = ground (arith, p, q)

  note_fin_sent-Onward : (n : ℕ) (s : Socket x) → Onward s (note_fin_sent n s)
  unfolding note_fin_sent phase rank corank
  note_fin_sent-Onward n s = ground arith

  note_with_ack-Onward : (b : Bool) (s : Socket x) → Onward s (note_with_ack b s)
  note_with_ack-Onward b s = ground arith

  start_pacing-Onward : (sz : ℕ) (s : Socket x) → Onward s (start_pacing sz s)
  unfolding start_pacing
  start_pacing-Onward sz s = ground arith

  note_cwr_sent-Onward : (n : ℕ) (b : Bool) (s : Socket x) → Onward s (note_cwr_sent n b s)
  unfolding note_cwr_sent
  note_cwr_sent-Onward n b s = ground arith

  send_data_header-Onward :
      (f : Flags) (seq sz : ℕ) (s : Socket x) → Onward s (send_data_header f seq sz s)
  unfolding send_data_header note_adv_wnd
  send_data_header-Onward f seq sz s = ground arith

  note_data_sent-Onward :
      (seq sz : ℕ) (b : Bool) (s : Socket x) → Onward s (note_data_sent seq sz b s)
  unfolding note_data_sent update_rtt_history
  note_data_sent-Onward seq sz b s = ground arith

  pub send_item-Onward :
      (seq : ℕ) (b : Bool) (item : x.Item) (s : Socket x) → Onward s (send_item seq b item s)
  unfolding send_item
  send_item-Onward seq b item s = trans-Onward (start_pacing-Onward _ _) (
      trans-Onward (note_with_ack-Onward _ _) (
        trans-Onward (note_cwr_sent-Onward _ _ _) (
          trans-Onward (note_fin_sent-Onward _ _)
            (trans-Onward (send_data_header-Onward _ _ _ _) (note_data_sent-Onward _ _ _ _)))))

  send_data_packet-Onward :
      (seq n : ℕ) (b : Bool) (s : Socket x) → Onward s (send_data_packet seq n b s).0
  unfolding send_data_packet
  send_data_packet-Onward seq n b s =
      let (t, item) = copy_item seq n (note_bytes_in_flight s) in
      ground (arith, send_item-Onward seq b item t)

  send_segment-Onward :
      (next n : ℕ) (b : Bool) (s : Socket x) → Onward s (send_segment next n b s).0
  unfolding send_segment
  send_segment-Onward next n b s =
      let u : Socket x = record s { tcb = record s.tcb { next_tx_sequence = next } } in
      let v : Socket x = cong_call (x.cong.cwnd_event tx_start) u in
      ground (
        arith,
        send_data_packet-Onward u.tcb.next_tx_sequence n b u,
        send_data_packet-Onward v.tcb.next_tx_sequence n b v,
      )

  send_chosen-Onward :
      (next : ℕ) (b : Bool) (o : Option ℕ) (s : Socket x) → Onward s (send_chosen next b o s).0
  unfolding send_chosen
  send_chosen-Onward next b none s = same-Onward refl
  send_chosen-Onward next b (some n) s = send_segment-Onward next n b s

  ask_for_data-state : (a n : ℕ) (s : Socket x) → (ask_for_data a n s).state ≡ s.state
  unfolding ask_for_data
  ask_for_data-state a n s = ground arith

  send_from-Onward :
      (a : ℕ) (b : Bool) (o : Option (ℕ × ℕ)) (s : Socket x) → Onward s (send_from a b o s).0
  unfolding send_from
  send_from-Onward a b none s = same-Onward refl
  send_from-Onward a b (some (next, high)) s =
      trans-Onward (same-Onward (ask_for_data-state a next s)) (send_chosen-Onward next b _ _)

  send_round-Onward : (b : Bool) (s : Socket x) → Onward s (send_round b s).0
  unfolding send_round
  send_round-Onward b s =
      let t = note_bytes_in_flight s in
      ground (arith, send_from-Onward (available_window s) b (next_seg t) t)

  send_on-Onward :
      (o : Option ℕ) (n : ℕ) (s : Socket x) (rest : Socket x × ℕ)
      → Onward s rest.0
      → Onward s (send_on o n s rest).0
  unfolding send_on
  send_on-Onward none n s rest k = same-Onward refl
  send_on-Onward (some sz) n s rest k = ground (arith, start_pacing-Onward sz s)

  send_loop-Onward : (fuel n : ℕ) (b : Bool) (s : Socket x) → Onward s (send_loop fuel b n s).0
  unfolding send_loop
  send_loop-Onward zero n b s = same-Onward refl
  send_loop-Onward (suc fuel) n b s =
      let (t, o) = send_round b s in
      trans-Onward (send_round-Onward b s)
        (send_on-Onward o n t _ (send_loop-Onward fuel (n + 1) b t))

  pub send_pending_data-Onward : (b : Bool) (s : Socket x) → Onward s (send_pending_data b s).0
  unfolding send_pending_data
  send_pending_data-Onward b s = ground (arith, send_loop-Onward (suc (available_window s)) 0 b s)

  pub do_retransmit-Onward : (s : Socket x) → Onward s (do_retransmit s)
  unfolding do_retransmit
  do_retransmit-Onward s =
      let (seq, n) : ℕ × ℕ = elim (x.tx_next_seg s.r_wnd false s.tx_buffer) [
        | none ↦ (x.tx_head_sequence s.tx_buffer, s.tcb.segment_size)
        | some (next, next_high) ↦ (next, x.seq.sub next_high next)
      ] in
      let u : Socket x = record s { tcb = record s.tcb { next_tx_sequence = seq } } in
      ground (arith, send_data_packet-Onward seq n true u)

  pub update_pacing_rate-state : (s : Socket x) → (update_pacing_rate s).state ≡ s.state
  unfolding update_pacing_rate
  update_pacing_rate-state s = ground arith
