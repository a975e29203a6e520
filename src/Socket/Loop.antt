-- ===== src/Socket/Loop.antt =====
-- The loop of SendPendingData, and DoRetransmit (NS3/1705069/TaskB/tcp-socket-base.cc).
use cse_322_computer_network.Base.{
  ℕ, zero, suc, ◌+◌, min, Bool, true, false, not, ◌&&◌, ltb, ◌==◌, if◌then◌else◌, is_some, Option,
  none, some,
}
use cse_322_computer_network.Tcb.{is_open, is_recovery, tx_start}
use cse_322_computer_network.Wire.{notify_send}
use cse_322_computer_network.Net.{Net}
use cse_322_computer_network.Socket.State.{is_fin_wait_1, Socket, emit, set_tcb, cong_call}
use cse_322_computer_network.Socket.Send.{has_end_point}
use cse_322_computer_network.Socket.Transmit.{
  note_bytes_in_flight, un_ack_data_count, available_window, is_pacing_enabled, start_pacing,
  send_data_packet,
}

module _ {x : Net} where
  -- Whether the loop of SendPendingData queries the scoreboard, and what it answers.
  unfoldable pub next_seg : Socket x → Option (ℕ × ℕ)
  next_seg s =
      if is_pacing_enabled s && is_some s.pacing_timer
      then none
      else if is_open s.tcb.cong_state && is_fin_wait_1 s.state
      then none
      else x.tx_next_seg s.r_wnd (s.sack_enabled && is_recovery s.tcb.cong_state) s.tx_buffer

  -- The application is asked for more if there is less data than window.
  unfoldable pub ask_for_data : ℕ → ℕ → Socket x → Socket x
  ask_for_data available next s =
      if ltb (x.tx_size_from_sequence next s.tx_buffer) available
      then emit (notify_send (x.tx_available s.tx_buffer)) s
      else s

  -- The size to send, unless silly-window avoidance or Nagle's algorithm holds it back.
  unfoldable pub size_to_send : ℕ → ℕ → ℕ → Socket x → Option ℕ
  size_to_send available next next_high s =
      let data_left = x.tx_size_from_sequence next s.tx_buffer in
      let seg = s.tcb.segment_size in
      if ltb available seg && ltb available data_left
      then none
      else if not s.no_delay && ltb 0 (un_ack_data_count s) && ltb data_left seg
      then none
      else some (min (min available seg) (x.seq.sub next_high next))

  unfoldable pub send_segment : ℕ → ℕ → Bool → Socket x → Socket x × ℕ
  send_segment next size with_ack s =
      let t = set_tcb (λ b. record b { next_tx_sequence = next }) s in
      let u = if t.tcb.bytes_in_flight == 0 then cong_call (x.cong.cwnd_event tx_start) t else t in
      let (v, sz) = send_data_packet u.tcb.next_tx_sequence size with_ack u in
      (set_tcb (λ b. record b { next_tx_sequence = x.seq.add b.next_tx_sequence sz }) v, sz)

  -- A packet of the size, if one was chosen; its size is returned.
  unfoldable pub send_chosen : ℕ → Bool → Option ℕ → Socket x → Socket x × Option ℕ
  send_chosen next with_ack none s = (s, none)
  send_chosen next with_ack (some size) s =
      let (t, sz) = send_segment next size with_ack s in (t, some sz)

  -- The answer of the scoreboard: the range that may be sent, if there is one.
  unfoldable pub send_from : ℕ → Bool → Option (ℕ × ℕ) → Socket x → Socket x × Option ℕ
  send_from available with_ack none s = (s, none)
  send_from available with_ack (some (next, next_high)) s =
      let t = ask_for_data available next s in
      send_chosen next with_ack (size_to_send available next next_high t) t

  -- One round of the loop: the state, and the size of the packet if one was sent.
  unfoldable pub send_round : Bool → Socket x → Socket x × Option ℕ
  send_round with_ack s =
      let available = available_window s in
      let t = note_bytes_in_flight s in
      if available == 0 then (t, none) else send_from available with_ack (next_seg t) t

  -- After a round with no packet the loop ends. A packet after which pacing finds its timer expired
  -- starts it and is the last.
  unfoldable pub send_on : Option ℕ → ℕ → Socket x → Socket x × ℕ → Socket x × ℕ
  send_on none n s rest = (s, n)
  send_on (some sz) n s rest =
      if is_pacing_enabled s && not (is_some s.pacing_timer)
      then (start_pacing sz s, n + 1)
      else rest

  -- The loop with fuel.
  unfoldable pub send_loop : ℕ → Bool → ℕ → Socket x → Socket x × ℕ
  send_loop zero with_ack n s = (s, n)
  send_loop (suc fuel) with_ack n s =
      let (t, size) = send_round with_ack s in
      let rest = send_loop fuel with_ack (n + 1) t in send_on size n t rest

  -- The fuel is the window at the start: each packet takes at least one byte of it.
  unfoldable pub send_pending_data : Bool → Socket x → Socket x × ℕ
  send_pending_data with_ack s =
      if x.tx_size s.tx_buffer == 0
      then (s, 0)
      else if not (has_end_point s)
      then (s, 0)
      else send_loop (suc (available_window s)) with_ack 0 s

  unfoldable pub do_retransmit : Socket x → Socket x
  do_retransmit s =
      let (seq, max_size) : ℕ × ℕ = elim (x.tx_next_seg s.r_wnd false s.tx_buffer) [
        | none ↦ (x.tx_head_sequence s.tx_buffer, s.tcb.segment_size)
        | some (next, next_high) ↦ (next, x.seq.sub next_high next)
      ] in
      (send_data_packet seq max_size true (set_tcb (λ b. record b { next_tx_sequence = seq }) s)).0
