-- ===== src/Socket/Connecting.antt =====
-- Attempts to connect: the exponential backoff of SendEmptyPacket for a SYN, the end of the
-- attempts, and a socket that is allowed none.
use cse_322_computer_network.Base.{
  ℕ, zero, suc, ◌+◌, ◌-◌, ◌*◌, ◌^◌, ◌≤◌, ◌<◌, ◌≡◌, refl, arith, ◌∙◌, List, true, false, none, some,
  sub32,
}
use cse_322_computer_network.Wire.{Flags, TcpOption, flag_syn}
use cse_322_computer_network.Net.{Net}
use cse_322_computer_network.Socket.State.{closed, Socket, EndPoint, send_empty, computed_rto}
use cse_322_computer_network.Socket.Send.{
  cancel_all_timers, deallocate_end_point, give_up_connecting, backoff_count, syn_attempt,
  note_adv_wnd, note_w_scale, update_rtt_history, send_empty_header, send_empty_from,
  send_empty_packet, advertised_window_size, add_syn_options, add_options,
}
use cse_322_computer_network.Socket.Timeouts.{send_empty_timeout}

backoff_count_lem : (f : ℕ → ℕ) (n : ℕ) → n < 31 → backoff_count f n ≡ 2 ^ n
unfolding backoff_count
backoff_count_lem f n lt = ground arith

module _ {x : Net} where
  syn_attempt_lem :
      (seq : ℕ) (s : Socket x)
      → 0 < s.syn_count
      → s.syn_count ≤ s.syn_retries
      → s.syn_retries < 4294967296
      → s.syn_retries < s.syn_count + 31
      → let t = syn_attempt seq s in
        (t.rto ≡ s.cn_timeout * 2 ^ (s.syn_retries - s.syn_count))
        × (t.syn_count + 1 ≡ s.syn_count)
        × (t.syn_retries ≡ s.syn_retries)
        × (t.state ≡ s.state)
        × (t.end_point ≡ s.end_point)
        × (t.now ≡ s.now)
        × (t.retx_event ≡ s.retx_event)
  unfolding syn_attempt update_rtt_history
  syn_attempt_lem seq s pos le small few =
      let e : sub32 s.syn_retries s.syn_count ≡ s.syn_retries - s.syn_count = omega arith in
      ground (arith, e, backoff_count_lem x.overflown_shift (s.syn_retries - s.syn_count))

  send_syn_header :
      (seq w : ℕ) (os : List TcpOption) (s : Socket x)
      → s.retx_event ≡ none
      → let t = send_empty_header flag_syn seq w os s in
        (t.rto ≡ s.rto)
        × (t.syn_count ≡ s.syn_count)
        × (t.syn_retries ≡ s.syn_retries)
        × (t.state ≡ s.state)
        × (t.end_point ≡ s.end_point)
        × (t.retx_event ≡ some (send_empty flag_syn (s.now + s.rto)))
  unfolding send_empty_header
  send_syn_header seq w os s r = ground arith

  send_syn_attempt :
      (seq w : ℕ) (os : List TcpOption) (s : Socket x)
      → s.retx_event ≡ none
      → 0 < s.syn_count
      → s.syn_count ≤ s.syn_retries
      → s.syn_retries < 4294967296
      → s.syn_retries < s.syn_count + 31
      → let t = send_empty_header flag_syn seq w os (note_adv_wnd (syn_attempt seq s)) in
        (t.rto ≡ s.cn_timeout * 2 ^ (s.syn_retries - s.syn_count))
        × (t.syn_count + 1 ≡ s.syn_count)
        × (t.syn_retries ≡ s.syn_retries)
        × (t.state ≡ s.state)
        × (t.end_point ≡ s.end_point)
        × (t.retx_event ≡ some (send_empty flag_syn (s.now + t.rto)))
  unfolding note_adv_wnd
  send_syn_attempt seq w os s r pos le small few =
      let a = syn_attempt_lem seq s pos le small few in
      let b = send_syn_header seq w os (note_adv_wnd (syn_attempt seq s)) (a.6 ∙ r) in
      ground (arith, a, b)

  send_syn_from :
      (seq : ℕ) (s : Socket x)
      → s.retx_event ≡ none
      → 0 < s.syn_count
      → s.syn_count ≤ s.syn_retries
      → s.syn_retries < 4294967296
      → s.syn_retries < s.syn_count + 31
      → let t = send_empty_from flag_syn seq s in
        (t.rto ≡ s.cn_timeout * 2 ^ (s.syn_retries - s.syn_count))
        × (t.syn_count + 1 ≡ s.syn_count)
        × (t.syn_retries ≡ s.syn_retries)
        × (t.state ≡ s.state)
        × (t.end_point ≡ s.end_point)
        × (t.retx_event ≡ some (send_empty flag_syn (s.now + t.rto)))
  unfolding send_empty_from note_adv_wnd
  send_syn_from seq s r pos le small few =
      let t : Socket x = note_adv_wnd (record s { rto = computed_rto s }) in
      let u : Socket x = note_w_scale t in
      let w = advertised_window_size false (syn_attempt seq u) in
      let os = add_syn_options (add_options s) t in
      ground (
        arith,
        send_syn_attempt seq w os u (ground arith) (ground arith) (ground arith) (ground arith)
            (ground arith),
      )

  -- A SYN of a socket with an end point, no pending retransmission and attempts left, out of
  -- fewer than 2 ^ 32, of which fewer than 31 are made: the timeout is the connection timeout
  -- doubled once for each attempt made, one attempt is used up, state and end point stay, and the
  -- event that sends the next SYN is due after the timeout.
  pub syn_backoff :
      (s : Socket x) {e : EndPoint}
      → s.end_point ≡ some e
      → s.retx_event ≡ none
      → 0 < s.syn_count
      → s.syn_count ≤ s.syn_retries
      → s.syn_retries < 4294967296
      → s.syn_retries < s.syn_count + 31
      → let t = send_empty_packet flag_syn s in
        (t.rto ≡ s.cn_timeout * 2 ^ (s.syn_retries - s.syn_count))
        × (t.syn_count + 1 ≡ s.syn_count)
        × (t.syn_retries ≡ s.syn_retries)
        × (t.state ≡ s.state)
        × (t.end_point ≡ some e)
        × (t.retx_event ≡ some (send_empty flag_syn (s.now + t.rto)))
  unfolding send_empty_packet
  syn_backoff s pe pr pos le small few = ground (
    arith,
    send_syn_from (x.seq.add s.tcb.next_tx_sequence 1) s pr pos le small few,
    send_syn_from s.tcb.next_tx_sequence s pr pos le small few,
  )

  -- Giving up closes the socket; its end point and its timers are gone.
  give_up_connecting-closed :
      (s : Socket x) {e : EndPoint}
      → s.end_point ≡ some e
      → let t = give_up_connecting s in
        (t.state ≡ closed) × (t.end_point ≡ none) × (t.retx_event ≡ none)
  unfolding give_up_connecting deallocate_end_point cancel_all_timers
  give_up_connecting-closed s pe = ground arith

  -- A SYN, whatever its other flags, finds no attempt left.
  no_attempt_left :
      (f : Flags) (seq : ℕ) (s : Socket x) {e : EndPoint}
      → f.syn ≡ true
      → s.end_point ≡ some e
      → s.syn_count ≡ 0
      → let t = send_empty_from f seq s in
        (t.state ≡ closed) × (t.end_point ≡ none) × (t.retx_event ≡ none)
  unfolding send_empty_from note_adv_wnd
  no_attempt_left f seq s {e} syn pe z =
      let t : Socket x = note_w_scale (note_adv_wnd (record s { rto = computed_rto s })) in
      ground (arith, give_up_connecting-closed t {e = e} (ground arith))

  -- With no attempt left the socket is closed and its end point and timers are gone.
  syn_give_up :
      (f : Flags) (s : Socket x) {e : EndPoint}
      → f.syn ≡ true
      → f.fin ≡ false
      → s.end_point ≡ some e
      → s.syn_count ≡ 0
      → let t = send_empty_packet f s in
        (t.state ≡ closed) × (t.end_point ≡ none) × (t.retx_event ≡ none)
  unfolding send_empty_packet
  syn_give_up f s {e} syn fin pe z =
      let g = λ (seq : ℕ). no_attempt_left f seq s syn pe z in
      ground (arith, g (x.seq.add s.tcb.next_tx_sequence 1), g s.tcb.next_tx_sequence)

  -- The retransmission event of a SYN, so many times.
  unfoldable pub syn_timeouts : ℕ → Socket x → Socket x
  syn_timeouts zero s = s
  syn_timeouts (suc k) s = syn_timeouts k (send_empty_timeout flag_syn s)

  -- A peer that never answers: a socket with an end point and with k attempts left, out of fewer
  -- than 2 ^ 32, is closed after k + 1 timeouts of its SYN, without end point and without a
  -- pending retransmission.
  pub syn_timeouts-closed :
      (k : ℕ) (s : Socket x) {e : EndPoint}
      → s.end_point ≡ some e
      → s.syn_count ≡ k
      → s.syn_count ≤ s.syn_retries
      → s.syn_retries < 32
      → let t = syn_timeouts (suc k) s in
        (t.state ≡ closed) × (t.end_point ≡ none) × (t.retx_event ≡ none)
  unfolding syn_timeouts send_empty_timeout
  syn_timeouts-closed zero s pe z le small =
      syn_give_up flag_syn (record s { retx_event = none }) refl refl pe z
  syn_timeouts-closed (suc k) s pe z le small =
      let b =
        syn_backoff (record s { retx_event = none }) pe refl (omega arith) le (omega arith)
          (omega arith) in
      syn_timeouts-closed k (send_empty_packet flag_syn (record s { retx_event = none })) b.4
        (omega (arith, b)) (omega (arith, b)) (omega (arith, b))
