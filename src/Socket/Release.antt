-- ===== src/Socket/Release.antt =====
-- The end of a connection that the peer closed first: Close, the FIN it sends, and the last
-- acknowledgement (NS3/1705069/TaskB/tcp-socket-base.cc).
use cse_322_computer_network.Base.{
  not, ◌||◌, is_some, ℕ, ◌+◌, ◌≡◌, refl, arith, Bool, true, false, ◌&&◌, ltb, if◌then◌else◌, none,
  some, List, ◌∷◌, ap, ◌∙◌, sym,
}
use cse_322_computer_network.Wire.{
  Flags, flag_ack, flag_fin, flag_fin_ack, flags_eq, without_psh_urg, TcpHeader, TcpOption, sent,
}
use cse_322_computer_network.Net.{Net}
use cse_322_computer_network.Socket.State.{
  Peer, TcpState, closed, listen, syn_sent, syn_rcvd, established, close_wait, fin_wait_2, closing,
  time_wait, last_ack, fin_wait_1, Socket, EndPoint, send_empty, computed_rto, set_state,
}
use cse_322_computer_network.Socket.Send.{
  send_empty_packet, send_empty_from, send_empty_header, note_adv_wnd, note_ack_sent, add_options,
  add_option_sack, advertised_window_size, close_and_notify, deallocate_end_point,
  cancel_all_timers,
}
use cse_322_computer_network.Socket.Close.{close, do_close, close_in}
use cse_322_computer_network.Socket.Ending.{process_last_ack}
use cse_322_computer_network.Socket.Input.{dispatch, leave_persist, do_forward_up}
use cse_322_computer_network.Socket.Reading.{has_timestamp}
use cse_322_computer_network.Socket.Arrival.{IsDispatched, ack-IsDispatched}

-- The states from which Close sends a FIN, and where it leads.
abbrev pub releasing : TcpState → Bool
releasing syn_rcvd = true
releasing established = true
releasing close_wait = true
releasing _ = false

abbrev pub released : TcpState → TcpState
released close_wait = last_ack
released _ = fin_wait_1

acks : (f : Flags) → flags_eq (without_psh_urg f) flag_ack ≡ true → (f.syn ≡ false) × (f.ack ≡ true)
acks f e = ground arith

module _ {x : Net} where
  -- All data of the application is sent, and all data of the peer is read.
  pub record IsDone (e : EndPoint) (s : Socket x) : Type 0 where
    pub end_point : s.end_point ≡ some e
    pub retx_event : s.retx_event ≡ none
    pub unread : x.rx_size s.rx_buffer ≡ 0
    pub unsent : x.tx_size_from_sequence s.tcb.next_tx_sequence s.tx_buffer ≡ 0

  -- One segment with a FIN is sent, and the timer for it is set.
  pub record HasSentFin (e : EndPoint) (s t : Socket x) : Type 0 where
    pub header : TcpHeader
    pub outputs : t.outputs ≡ sent header 0 ∷ s.outputs
    pub fin : header.flags.fin ≡ true
    pub ack : header.flags.ack ≡ true
    pub rst : header.flags.rst ≡ false
    pub seq : header.seq ≡ s.tcb.next_tx_sequence
    pub ack_number : header.ack_number ≡ x.rx_next_sequence s.rx_buffer
    pub source_port : header.source_port ≡ e.local_port
    pub destination_port : header.destination_port ≡ e.peer_port
    pub repeated : t.retx_event ≡ some (send_empty header.flags (s.now + computed_rto s))
    pub end_point : t.end_point ≡ some e
    pub rx_buffer : t.rx_buffer ≡ s.rx_buffer
    pub timestamps : t.timestamp_enabled ≡ s.timestamp_enabled

  fin_header :
      (f : Flags) (w : ℕ) (os : List TcpOption) (e : EndPoint) (t : Socket x)
      → f.fin ≡ true
      → f.ack ≡ true
      → f.rst ≡ false
      → t.end_point ≡ some e
      → t.retx_event ≡ none
      → let s : Socket x = note_adv_wnd (record t { rto = computed_rto t }) in
        HasSentFin e t (send_empty_header f t.tcb.next_tx_sequence w os s)
  unfolding send_empty_header note_ack_sent note_adv_wnd
  fin_header f w os e t fin ack rst pe pr =
      let s : Socket x = note_adv_wnd (record t { rto = computed_rto t }) in
      let sacks = s.sack_enabled && ltb 0 (x.rx_sack_list_size s.rx_buffer) in
      let h : TcpHeader = record {
        flags = f;
        seq = t.tcb.next_tx_sequence;
        ack_number = x.rx_next_sequence t.rx_buffer;
        window_size = w;
        source_port = e.local_port;
        destination_port = e.peer_port;
        options = if sacks then add_option_sack s os else os;
      } in
      record {
        header = h;
        outputs = ground arith;
        fin = fin;
        ack = ack;
        rst = rst;
        seq = refl;
        ack_number = refl;
        source_port = refl;
        destination_port = refl;
        repeated = ground arith;
        end_point = ground arith;
        rx_buffer = ground arith;
        timestamps = ground arith;
      }

  fin_packet :
      (f : Flags) (e : EndPoint) (t : Socket x)
      → f.fin ≡ true
      → f.syn ≡ false
      → f.rst ≡ false
      → t.end_point ≡ some e
      → t.retx_event ≡ none
      → HasSentFin e t (send_empty_packet f t)
  unfolding send_empty_packet send_empty_from
  fin_packet f e t fin syn rst pe pr =
      let g = record f { ack = true } in
      let h = fin_header g (advertised_window_size true t) (add_options t) e t fin refl rst pe pr in
      ground (arith, h)

  set_state-HasSentFin :
      (st : TcpState) (e : EndPoint) (s t : Socket x)
      → HasSentFin e s t
      → HasSentFin e s (set_state st t)
  set_state-HasSentFin st e s t h = record {
    header = h.header;
    outputs = h.outputs;
    fin = h.fin;
    ack = h.ack;
    rst = h.rst;
    seq = h.seq;
    ack_number = h.ack_number;
    source_port = h.source_port;
    destination_port = h.destination_port;
    repeated = h.repeated;
    end_point = h.end_point;
    rx_buffer = h.rx_buffer;
    timestamps = h.timestamps;
  }

  close_in-sends :
      (st : TcpState) (e : EndPoint) (s : Socket x)
      → releasing st ≡ true
      → s.end_point ≡ some e
      → s.retx_event ≡ none
      → HasSentFin e s (close_in st s) × ((close_in st s).state ≡ released st)
  unfolding close_in
  close_in-sends syn_rcvd e s r pe pr =
      let h = fin_packet flag_fin e s refl refl refl pe pr in
      (set_state-HasSentFin fin_wait_1 e s (send_empty_packet flag_fin s) h, refl)
  close_in-sends established e s r pe pr =
      let h = fin_packet flag_fin e s refl refl refl pe pr in
      (set_state-HasSentFin fin_wait_1 e s (send_empty_packet flag_fin s) h, refl)
  close_in-sends close_wait e s r pe pr =
      let h = fin_packet flag_fin_ack e s refl refl refl pe pr in
      (set_state-HasSentFin last_ack e s (send_empty_packet flag_fin_ack s) h, refl)
  close_in-sends closed e s r pe pr = ground (arith, r)
  close_in-sends listen e s r pe pr = ground (arith, r)
  close_in-sends syn_sent e s r pe pr = ground (arith, r)
  close_in-sends last_ack e s r pe pr = ground (arith, r)
  close_in-sends fin_wait_1 e s r pe pr = ground (arith, r)
  close_in-sends fin_wait_2 e s r pe pr = ground (arith, r)
  close_in-sends closing e s r pe pr = ground (arith, r)
  close_in-sends time_wait e s r pe pr = ground (arith, r)

  pub close-sends :
      (e : EndPoint) (s : Socket x)
      → IsDone e s
      → releasing s.state ≡ true
      → HasSentFin e s (close s) × ((close s).state ≡ released s.state)
  unfolding close do_close
  close-sends e s d r =
      let k = close_in-sends s.state e s r d.end_point d.retx_event in rw (d.unread, d.unsent) k

  -- The end without an end point and without a timer for the FIN.
  ended :
      (e : EndPoint) (s : Socket x)
      → s.end_point ≡ some e
      → ((close_and_notify s).state ≡ closed)
        × ((close_and_notify s).end_point ≡ none)
        × ((close_and_notify s).retx_event ≡ none)
        × ((close_and_notify s).persist_event ≡ none)
  unfolding close_and_notify deallocate_end_point cancel_all_timers
  ended e s p = ground arith

  last_acknowledged :
      (p : x.Packet) (h : TcpHeader) (e : EndPoint) (s : Socket x)
      → flags_eq (without_psh_urg h.flags) flag_ack ≡ true
      → h.seq ≡ x.rx_next_sequence s.rx_buffer
      → process_last_ack p h s ≡ close_and_notify s
  unfolding process_last_ack
  last_acknowledged p h e s f q = ground arith

  no_probes : (s : Socket x) → s.persist_event ≡ none → leave_persist s ≡ s
  unfolding leave_persist
  no_probes s e = ground arith

  -- An acknowledgement in LAST_ACK, through DoForwardUp.
  last_arrival :
      (p : x.Packet) (h : TcpHeader) (accepts : Bool) (peer : Peer) (e : EndPoint) (t : Socket x)
      → t.state ≡ last_ack
      → t.end_point ≡ some e
      → flags_eq (without_psh_urg h.flags) flag_ack ≡ true
      → has_timestamp h t ≡ true
      → h.seq ≡ x.rx_next_sequence t.rx_buffer
      → let u = do_forward_up p h accepts peer t in
        (u.state ≡ closed) × (u.end_point ≡ none) × (u.retx_event ≡ none)
  unfolding dispatch
  last_arrival p h accepts peer e t st pe f stamp q =
      let a = acks h.flags f in
      let d : IsDispatched p h accepts peer t = ack-IsDispatched p h accepts peer t a.0 a.1 stamp in
      let v : Socket x = d.read in
      let g = last_acknowledged p h e v f (q ∙ ap x.rx_next_sequence (sym d.untouched.rx_buffer)) in
      let r = ap (λ (c : TcpState). dispatch c p h accepts peer v) (d.untouched.state ∙ st) ∙ g in
      let (over, freed, quiet, still) = ended e v (d.untouched.end_point ∙ pe) in
      let z : do_forward_up p h accepts peer t ≡ close_and_notify v =
        d.result ∙ ap leave_persist r ∙ no_probes (close_and_notify v) still in
      (
        ap (λ (w : Socket x). w.state) z ∙ over,
        ap (λ (w : Socket x). w.end_point) z ∙ freed,
        ap (λ (w : Socket x). w.retx_event) z ∙ quiet,
      )

  -- The side that is closed by its peer ends: in CLOSE_WAIT, with everything sent and read, an
  -- end point and no pending retransmission, Close sends one segment, from its end point, with
  -- FIN and ACK and without RST, at the next sequence number, repeats it after the retransmission
  -- timeout, and leads to LAST_ACK; and any segment that then comes to DoForwardUp, whose flags
  -- are ACK, and PSH or URG at most, in sequence, and with a timestamp if timestamps are enabled,
  -- closes the socket, frees its end point and stops the repetition, whatever it acknowledges.
  pub passive_release :
      (p : x.Packet) (h : TcpHeader) (accepts : Bool) (peer : Peer) (e : EndPoint) (s : Socket x)
      → IsDone e s
      → s.state ≡ close_wait
      → flags_eq (without_psh_urg h.flags) flag_ack ≡ true
      → has_timestamp h s ≡ true
      → h.seq ≡ x.rx_next_sequence s.rx_buffer
      → let t = close s in
        let u = do_forward_up p h accepts peer t in
        HasSentFin e s t
        × (t.state ≡ last_ack)
        × (u.state ≡ closed)
        × (u.end_point ≡ none)
        × (u.retx_event ≡ none)
  passive_release p h accepts peer e s d c f stamp q =
      let t = close s in
      let k = close-sends e s d (ap releasing c) in
      let st : t.state ≡ last_ack = k.1 ∙ ap released c in
      let m : has_timestamp h t ≡ true =
        ap (λ b. not b || is_some (x.get_timestamp h.options)) k.0.timestamps ∙ stamp in
      let (over, freed, quiet) =
        last_arrival p h accepts peer e t st k.0.end_point f m
          (q ∙ ap x.rx_next_sequence (sym k.0.rx_buffer)) in
      (k.0, st, over, freed, quiet)
