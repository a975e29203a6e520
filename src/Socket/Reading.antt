-- ===== src/Socket/Reading.antt =====
-- What the reading of an arriving segment leaves of a connection: its state, its congestion state,
-- its next sequence number, its end point and its receive buffer
-- (NS3/1705069/TaskB/tcp-socket-base.cc).
use cse_322_computer_network.Base.{
  ℕ, mul32, Option, ◌≡◌, refl, arith, Bool, true, false, if◌then◌else◌, none, some, not, ◌||◌,
  is_some,
}
use cse_322_computer_network.Tcb.{EcnCodePoint}
use cse_322_computer_network.Wire.{TcpHeader}
use cse_322_computer_network.Net.{Net}
use cse_322_computer_network.Socket.State.{Socket, set_tcb}
use cse_322_computer_network.Socket.Receive.{
  process_option_w_scale, process_option_timestamp, estimate_rtt, note_sample, update_window_size,
}
use cse_322_computer_network.Socket.Input.{
  syn_w_scale, syn_sack, syn_timestamp, note_cwr, read_syn, read_ack, enter_persist, note_ip_ecn,
  note_ip_ecn6,
}

module _ {x : Net} where
  pub record Untouched (s t : Socket x) : Type 0 where
    pub state : t.state ≡ s.state
    pub cong_state : t.tcb.cong_state ≡ s.tcb.cong_state
    pub next : t.tcb.next_tx_sequence ≡ s.tcb.next_tx_sequence
    pub end_point : t.end_point ≡ s.end_point
    pub rx_buffer : t.rx_buffer ≡ s.rx_buffer

  pub trans-Untouched : {s t u : Socket x} → Untouched s t → Untouched t u → Untouched s u
  trans-Untouched p q = ground (arith, p, q)

  pub note_cwr-Untouched : (h : TcpHeader) (s : Socket x) → Untouched s (note_cwr h.flags s)
  unfolding note_cwr
  note_cwr-Untouched h s = ground arith

  estimate_rtt-Untouched : (h : TcpHeader) (s : Socket x) → Untouched s (estimate_rtt h s)
  unfolding estimate_rtt note_sample
  estimate_rtt-Untouched h s = ground arith

  timestamp-Untouched : (a b n : ℕ) (s : Socket x) → Untouched s (process_option_timestamp a b n s)
  unfolding process_option_timestamp
  timestamp-Untouched a b n s = ground arith

  window-Untouched : (h : TcpHeader) (s : Socket x) → Untouched s (update_window_size h s)
  unfolding update_window_size
  window-Untouched h s = ground arith

  pub enter_persist-Untouched : (s : Socket x) → Untouched s (enter_persist s)
  unfolding enter_persist
  enter_persist-Untouched s = ground arith

  pub note_ip_ecn-state :
      (ecn : EcnCodePoint) (n : ℕ) (s : Socket x) → (note_ip_ecn ecn n s).state ≡ s.state
  unfolding note_ip_ecn
  note_ip_ecn-state ecn n s = ground arith

  pub note_ip_ecn6-state :
      (ecn : EcnCodePoint) (n : ℕ) (s : Socket x) → (note_ip_ecn6 ecn n s).state ≡ s.state
  unfolding note_ip_ecn6
  note_ip_ecn6-state ecn n s = ground arith

  read_if :
      (b : Bool) (h : TcpHeader) (s : Socket x)
      → Untouched s (if b then record (estimate_rtt h s) { high_rx_ack_mark = h.ack_number } else s)
  read_if true h s = ground (arith, estimate_rtt-Untouched h s)
  read_if false h s = ground arith

  w_scale-Untouched : (h : TcpHeader) (s : Socket x) → Untouched s (syn_w_scale h s)
  unfolding process_option_w_scale
  w_scale-Untouched h s = ground arith

  sack-Untouched : (h : TcpHeader) (s : Socket x) → Untouched s (syn_sack h s)
  sack-Untouched h s = ground arith

  syn_timestamp-Untouched : (h : TcpHeader) (s : Socket x) → Untouched s (syn_timestamp h s)
  unfolding process_option_timestamp
  syn_timestamp-Untouched h s = ground arith

  -- The congestion window starts again.
  abbrev restart : Socket x → Socket x
  restart s =
      set_tcb
        (λ b. record b {
          c_wnd = mul32 b.initial_c_wnd b.segment_size;
          c_wnd_infl = mul32 b.initial_c_wnd b.segment_size;
          ss_thresh = b.initial_ss_thresh;
        })
        s

  restart-Untouched : (s : Socket x) → Untouched s (restart s)
  restart-Untouched s = ground arith

  pub read_syn-Untouched : (h : TcpHeader) (s : Socket x) → Untouched s (read_syn h s)
  unfolding read_syn
  read_syn-Untouched h s =
      let t : Socket x = record s { r_wnd = h.window_size } in
      let u : Socket x = syn_w_scale h t in
      let v : Socket x = syn_sack h u in
      let w : Socket x = syn_timestamp h v in
      let k : Untouched s t = ground arith in
      trans-Untouched k (
        trans-Untouched (w_scale-Untouched h t) (
          trans-Untouched (sack-Untouched h u) (
            trans-Untouched (syn_timestamp-Untouched h v)
              (trans-Untouched (restart-Untouched w) (read_if h.flags.ack h (restart w))))))

  accepted : TcpHeader → Socket x → Socket x
  accepted h s = update_window_size h (estimate_rtt h s)

  accepted-Untouched : (h : TcpHeader) (s : Socket x) → Untouched s (accepted h s)
  unfolding accepted
  accepted-Untouched h s =
      trans-Untouched (estimate_rtt-Untouched h s) (window-Untouched h (estimate_rtt h s))

  stamped-Untouched :
      (o : Option (ℕ × ℕ)) (h : TcpHeader) (s t : Socket x)
      → elim o [
        | none ↦ none
        | some (a, b) ↦ some (accepted h (process_option_timestamp a b h.seq s))
      ]
        ≡ some t
      → Untouched s t
  stamped-Untouched none h s t e = ground (arith, e)
  stamped-Untouched (some (a, b)) h s t e =
      let u : Socket x = process_option_timestamp a b h.seq s in
      ground (arith, e, accepted-Untouched h u, timestamp-Untouched a b h.seq s)

  pub read_ack-Untouched : (h : TcpHeader) (s t : Socket x) → read_ack h s ≡ some t → Untouched s t
  unfolding read_ack accepted
  read_ack-Untouched h s t e =
      ground (arith, e, accepted-Untouched h s, stamped-Untouched (x.get_timestamp h.options) h s t)

  -- With timestamps agreed, a segment without SYN needs one.
  abbrev pub has_timestamp : TcpHeader → Socket x → Bool
  has_timestamp h s = not s.timestamp_enabled || is_some (x.get_timestamp h.options)

  one_of_them :
      (b : Bool) (o : Option (ℕ × ℕ)) (g : Socket x) (f : ℕ → ℕ → Socket x)
      → (not b || is_some o) ≡ true
      → (t : Socket x) × ((if not b
            then some g
            else elim o [ none ↦ none | some (a, c) ↦ some (f a c) ])
          ≡ some t)
  one_of_them false o g f e = (g, refl)
  one_of_them true none g f e = absurd (cc)
  one_of_them true (some (a, c)) g f e = (f a c, refl)

  pub read_ack-reads :
      (h : TcpHeader) (s : Socket x)
      → has_timestamp h s ≡ true
      → (t : Socket x) × (read_ack h s ≡ some t)
  unfolding read_ack
  read_ack-reads h s e =
      let f = λ (t : Socket x). update_window_size h (estimate_rtt h t) in
      one_of_them s.timestamp_enabled (x.get_timestamp h.options) (f s)
        (λ a c. f (process_option_timestamp a c h.seq s)) e
