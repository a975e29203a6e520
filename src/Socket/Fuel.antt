-- ===== src/Socket/Fuel.antt =====
-- The fuel of the loop of SendPendingData (NS3/1705069/TaskB/tcp-socket-base.cc).
use cse_322_computer_network.Base.{
  ℕ, zero, suc, ◌+◌, ◌<◌, ◌≡◌, refl, sym, arith, Bool, true, ◌&&◌, Option, none, some,
}
use cse_322_computer_network.Tcb.{is_recovery}
use cse_322_computer_network.Net.{Net}
use cse_322_computer_network.Socket.State.{Socket}
use cse_322_computer_network.Socket.Send.{has_end_point}
use cse_322_computer_network.Socket.Transmit.{window, available_window, note_bytes_in_flight}
use cse_322_computer_network.Socket.Loop.{
  next_seg, ask_for_data, size_to_send, send_chosen, send_from, send_on, send_round, send_loop,
  send_pending_data,
}
use cse_322_computer_network.Socket.Sending.{
  IsSending, Same, ask_for_data-Same, send_segment_lem, send_round-Kept,
}

module _ {x : Net} where
  size_to_send-positive :
      (a next next_high n : ℕ) (s : Socket x)
      → 0 < a
      → 0 < s.tcb.segment_size
      → 0 < x.seq.sub next_high next
      → size_to_send a next next_high s ≡ some n
      → 0 < n
  unfolding size_to_send
  size_to_send-positive a next next_high n s pa ps pr e = ground arith

  -- A packet that is sent takes at least a byte of the window.
  send_chosen-shrinks :
      (w next next_high sz : ℕ) (r b : Bool) (o : Option ℕ) (s : Socket x)
      → IsSending x
      → x.tx_next_seg w r s.tx_buffer ≡ some (next, next_high)
      → ((n : ℕ) → o ≡ some n → 0 < n)
      → (send_chosen next b o s).1 ≡ some sz
      → 0 < available_window s
      → available_window (send_chosen next b o s).0 < available_window s
  unfolding send_chosen available_window window
  send_chosen-shrinks w next next_high sz r b none s laws ns pn e pos = ground arith
  send_chosen-shrinks w next next_high sz r b (some n) s laws ns pn e pos =
      let g = laws.in_flight w r s.tx_buffer next next_high n ns (pn n refl) in
      ground (arith, g, send_segment_lem next n b s laws)

  available_window-Same : {s t : Socket x} → Same s t → available_window t ≡ available_window s
  unfolding available_window window
  available_window-Same d = rw (d.c_wnd, d.r_wnd, d.tx_buffer) refl

  send_from-shrinks :
      (a w sz : ℕ) (r b : Bool) (o : Option (ℕ × ℕ)) (s : Socket x)
      → IsSending x
      → a ≡ available_window s
      → ((p : ℕ × ℕ) → o ≡ some p → x.tx_next_seg w r s.tx_buffer ≡ some p)
      → (send_from a b o s).1 ≡ some sz
      → 0 < a
      → 0 < s.tcb.segment_size
      → available_window (send_from a b o s).0 < available_window s
  unfolding send_from
  send_from-shrinks a w sz r b none s laws ea ns e pos seg = ground arith
  send_from-shrinks a w sz r b (some (next, next_high)) s laws ea ns e pos seg =
      let t = ask_for_data a next s in
      let d = ask_for_data-Same a next s in
      let p = ns (next, next_high) refl in
      let size : 0 < t.tcb.segment_size = ground (arith, d) in
      let same : available_window t ≡ available_window s = available_window-Same d in
      let q =
        λ (n : ℕ). size_to_send-positive a next next_high n t pos size (laws.range w r _ _ _ p) in
      let g =
        send_chosen-shrinks w next next_high sz r b (size_to_send a next next_high t) t laws
          (rw d.tx_buffer p) q e (omega arith) in
      omega arith

  next_seg-scoreboard :
      (s : Socket x) (p : ℕ × ℕ)
      → next_seg s ≡ some p
      → x.tx_next_seg s.r_wnd (s.sack_enabled && is_recovery s.tcb.cong_state) s.tx_buffer ≡ some p
  unfolding next_seg
  next_seg-scoreboard s p e = ground arith

  send_round-shrinks :
      (b : Bool) (s : Socket x) (sz : ℕ)
      → IsSending x
      → (send_round b s).1 ≡ some sz
      → 0 < s.tcb.segment_size
      → available_window (send_round b s).0 < available_window s
  unfolding send_round
  send_round-shrinks b s sz laws e seg =
      let t = note_bytes_in_flight s in
      let d : Same s t = ground arith in
      let same : available_window t ≡ available_window s = available_window-Same d in
      let g =
        send_from-shrinks (available_window s) s.r_wnd sz
          (s.sack_enabled && is_recovery s.tcb.cong_state) b (next_seg t) t laws (sym same)
          (next_seg-scoreboard t) in
      ground (arith, same, g)

  -- The rest of the loop counts only after a packet.
  send_on-same :
      (o : Option ℕ) (n : ℕ) (s : Socket x) (a b : Socket x × ℕ)
      → ((sz : ℕ) → o ≡ some sz → a ≡ b)
      → send_on o n s a ≡ send_on o n s b
  unfolding send_on
  send_on-same none n s a b e = refl
  send_on-same (some sz) n s a b e = rw (e sz refl) refl

  -- The loop of SendPendingData ends by itself: with more fuel than bytes of available window, more
  -- fuel gives the same result.
  pub send_loop-enough :
      (fuel more n : ℕ) (b : Bool) (s : Socket x)
      → IsSending x
      → 0 < s.tcb.segment_size
      → available_window s < fuel
      → send_loop (fuel + more) b n s ≡ send_loop fuel b n s
  unfolding send_loop
  send_loop-enough zero more n b s laws seg h = absurd (omega arith)
  send_loop-enough (suc fuel) more n b s laws seg h =
      let (t, o) = send_round b s in
      let k = send_round-Kept b s laws in
      let r = send_loop-enough fuel more (n + 1) b t laws in
      let e : suc fuel + more ≡ suc (fuel + more) = omega arith in
      let seg' : 0 < t.tcb.segment_size = ground (arith, k) in
      rw e (
        send_on-same o n t _ _
          (λ sz f. r seg' (let g = send_round-shrinks b s sz laws f seg in omega arith)))

  -- SendPendingData with data and an end point is its loop run to the end: with any more fuel
  -- than the model gives it, the loop comes to the same state and number of packets, if the
  -- segment size is positive, the event that transmission starts keeps the control block, and the
  -- scoreboard answers with ranges that are not empty and whose bytes are in flight once they are
  -- copied.
  pub send_pending_data_complete :
      (more : ℕ) (b : Bool) (s : Socket x)
      → IsSending x
      → 0 < s.tcb.segment_size
      → 0 < x.tx_size s.tx_buffer
      → has_end_point s ≡ true
      → send_pending_data b s ≡ send_loop (suc (available_window s) + more) b 0 s
  unfolding send_pending_data
  send_pending_data_complete more b s laws seg pos e =
      ground (arith, send_loop-enough (suc (available_window s)) more 0 b s laws seg)
