-- ===== src/Socket/Naming.antt =====
-- The addresses of a socket over Bind and Connect, and the errors of both
-- (NS3/1705069/TaskB/tcp-socket-base.cc).
use cse_322_computer_network.Base.{
  ℕ, ◌<◌, ◌≡◌, arith, ◌⊎◌, inl, inr, true, false, ◌==◌, List, Option, none, some,
}
use cse_322_computer_network.Wire.{Flags, flag_syn, flag_syn_ece_cwr, TcpOption}
use cse_322_computer_network.Net.{Net}
use cse_322_computer_network.Socket.State.{closed, syn_sent, Socket, EndPoint, computed_rto}
use cse_322_computer_network.Socket.Send.{
  syn_attempt, note_adv_wnd, note_w_scale, update_rtt_history, note_ack_sent, send_empty_header,
  send_empty_from, send_empty_packet, advertised_window_size, add_syn_options, add_options,
}
use cse_322_computer_network.Socket.Timeouts.{send_syn}
use cse_322_computer_network.Socket.Api.{failed, connect, do_connect, connect_in}
use cse_322_computer_network.Socket.Address.{
  Address, inet, inet6, other_address, Layer, Internet, with_peer, with_local, setup_callback,
  bound, bound6, bind, bind6, source, connect_routed, connect_bound, connect_routed6,
  connect_bound6, connect4, connect6, connect_mapped, connect_to, get_sock_name, get_peer_name,
}

module _ {x : Net} where
  pub record SameEnds (s t : Socket x) : Type 0 where
    pub end_point : t.end_point ≡ s.end_point
    pub end_point6 : t.end_point6 ≡ s.end_point6
    pub tx_buffer : t.tx_buffer ≡ s.tx_buffer
    pub shutdown_send : t.shutdown_send ≡ s.shutdown_send

  send_empty_header-SameEnds :
      (f : Flags) (seq w : ℕ) (os : List TcpOption) (s : Socket x)
      → SameEnds s (send_empty_header f seq w os s)
  unfolding send_empty_header note_ack_sent
  send_empty_header-SameEnds f seq w os s = ground arith

  syn_attempt-SameEnds : (seq : ℕ) (s : Socket x) → SameEnds s (note_adv_wnd (syn_attempt seq s))
  unfolding note_adv_wnd syn_attempt update_rtt_history
  syn_attempt-SameEnds seq s = ground arith

  send_empty_from-SameEnds :
      (f : Flags) (seq : ℕ) (s : Socket x) → 0 < s.syn_count → SameEnds s (send_empty_from f seq s)
  unfolding send_empty_from note_adv_wnd
  send_empty_from-SameEnds f seq s pos =
      let t : Socket x = note_adv_wnd (record s { rto = computed_rto s }) in
      let u : Socket x = note_w_scale t in
      let v : Socket x = note_adv_wnd (syn_attempt seq u) in
      let z : (u.syn_count == 0) ≡ false = ground arith in
      ground (
        arith,
        z,
        send_empty_header-SameEnds f seq (advertised_window_size false (syn_attempt seq u))
            (add_syn_options (add_options s) t) v,
        syn_attempt-SameEnds seq u,
        send_empty_header-SameEnds f seq (advertised_window_size true s) (add_options s) t,
      )

  send_empty_packet-SameEnds :
      (f : Flags) (s : Socket x) → 0 < s.syn_count → SameEnds s (send_empty_packet f s)
  unfolding send_empty_packet
  send_empty_packet-SameEnds f s pos =
      let g = record f { ack = true } in
      let n = x.seq.add s.tcb.next_tx_sequence 1 in
      ground (
        arith,
        send_empty_from-SameEnds f n s pos,
        send_empty_from-SameEnds f s.tcb.next_tx_sequence s pos,
        send_empty_from-SameEnds g n s pos,
        send_empty_from-SameEnds g s.tcb.next_tx_sequence s pos,
      )

  -- Connect of a closed socket that is allowed an attempt.
  connect-SameEnds :
      (s : Socket x)
      → s.state ≡ closed
      → 0 < s.syn_retries
      → (connect s).state ≡ syn_sent × SameEnds s (connect s)
  unfolding connect do_connect connect_in send_syn
  connect-SameEnds s st pos =
      let t : Socket x = record s {
        rtt = x.rtt_reset s.rtt;
        syn_count = s.syn_retries;
        data_retr_count = s.data_retries;
      } in
      ground (
        arith,
        send_empty_packet-SameEnds flag_syn t pos,
        send_empty_packet-SameEnds flag_syn_ece_cwr t pos,
      )

  connect_bound-names :
      (l : Layer) (ip port src : ℕ) (e : EndPoint) (s : Socket x)
      → s.state ≡ closed
      → 0 < s.syn_retries
      → l.route ip ≡ source src
      → let t = (connect_bound l ip port (some e) s).0 in
        (t.state ≡ syn_sent)
        × (t.end_point ≡ some (with_local src (with_peer ip port e)))
        × (t.end_point6 ≡ none)
        × (t.tx_buffer ≡ s.tx_buffer)
        × (t.shutdown_send ≡ s.shutdown_send)
  unfolding connect_bound connect_routed
  connect_bound-names l ip port src e s st pos r =
      let p = with_local src (with_peer ip port e) in
      let t : Socket x = record s { end_point = some p; end_point6 = none } in
      ground (arith, r, connect-SameEnds t st pos)

  names_lem :
      (ip port src : ℕ) (e : EndPoint) (t : Socket x)
      → t.end_point ≡ some (with_local src (with_peer ip port e))
      → ((get_peer_name t).1 ≡ some (inet ip port)) × (get_sock_name t ≡ inet src e.local_port)
  unfolding get_peer_name get_sock_name
  names_lem ip port src e t pe = ground arith

  -- Connect and GetPeerName: on a closed socket that is allowed an attempt, and that has an end
  -- point or is given one by TcpL4Protocol, a call to an IPv4 address with a route leaves the
  -- socket in SYN_SENT, GetPeerName gives that address and port, GetSockName the source of the
  -- route with the port of the end point, and the data to send and the shutdown flag are as
  -- before.
  pub get_peer_name-connect_to :
      (i : Internet) (ip port src : ℕ) (e : EndPoint) (s : Socket x)
      → s.state ≡ closed
      → 0 < s.syn_retries
      → (s.end_point ≡ some e) ⊎ ((s.end_point ≡ none) × (i.v4.allocate ≡ some e))
      → i.v4.route ip ≡ source src
      → let t = (connect_to i (inet ip port) s).0 in
        (t.state ≡ syn_sent)
        × ((get_peer_name t).1 ≡ some (inet ip port))
        × (get_sock_name t ≡ inet src e.local_port)
        × (t.tx_buffer ≡ s.tx_buffer)
        × (t.shutdown_send ≡ s.shutdown_send)
  unfolding connect_to connect4 bind bound setup_callback
  get_peer_name-connect_to i ip port src e s st pos (inl pe) r =
      let c = connect_bound-names i.v4 ip port src e s st pos r in
      let t = (connect_bound i.v4 ip port (some e) s).0 in
      ground (arith, c, names_lem ip port src e t c.1)
  get_peer_name-connect_to i ip port src e s st pos (inr (pn, pa)) r =
      let u : Socket x = record s { end_point = some e } in
      let c = connect_bound-names i.v4 ip port src e u st pos r in
      let t = (connect_bound i.v4 ip port (some e) u).0 in
      ground (arith, c, names_lem ip port src e t c.1)

  -- What a failed call leaves: no segment has left, and the connection is as before.
  pub record IsUntouched (s t : Socket x) : Type 0 where
    pub outputs : t.outputs ≡ s.outputs
    pub state : t.state ≡ s.state
    pub tcb : t.tcb ≡ s.tcb
    pub tx_buffer : t.tx_buffer ≡ s.tx_buffer
    pub rx_buffer : t.rx_buffer ≡ s.rx_buffer
    pub retx_event : t.retx_event ≡ s.retx_event
    pub syn_count : t.syn_count ≡ s.syn_count
    pub congestion : t.congestion ≡ s.congestion

  connect_bound-failed :
      (l : Layer) (ip port : ℕ) (o : Option EndPoint) (s : Socket x)
      → (connect_bound l ip port o s).1 ≡ failed
      → IsUntouched s (connect_bound l ip port o s).0
  unfolding connect_bound connect_routed
  connect_bound-failed l ip port none s e = ground arith
  connect_bound-failed l ip port (some p) s e = ground arith

  connect_bound6-failed :
      (l : Layer) (ip port : ℕ) (o : Option EndPoint) (s : Socket x)
      → (connect_bound6 l ip port o s).1 ≡ failed
      → IsUntouched s (connect_bound6 l ip port o s).0
  unfolding connect_bound6 connect_routed6
  connect_bound6-failed l ip port none s e = ground arith
  connect_bound6-failed l ip port (some p) s e = ground arith

  bind-IsUntouched : (i : Internet) (s : Socket x) → IsUntouched s (bind i s).0
  unfolding bind bound setup_callback
  bind-IsUntouched i s = ground arith

  bind6-IsUntouched : (i : Internet) (s : Socket x) → IsUntouched s (bind6 i s).0
  unfolding bind6 bound6 setup_callback
  bind6-IsUntouched i s = ground arith

  connect4-failed :
      (i : Internet) (ip port : ℕ) (s : Socket x)
      → (connect4 i ip port s).1 ≡ failed
      → IsUntouched s (connect4 i ip port s).0
  unfolding connect4
  connect4-failed i ip port s e =
      let t : Socket x = (bind i s).0 in
      ground (
        arith,
        bind-IsUntouched i s,
        connect_bound-failed i.v4 ip port s.end_point s,
        connect_bound-failed i.v4 ip port t.end_point t,
      )

  connect6-failed :
      (i : Internet) (ip port : ℕ) (s : Socket x)
      → (connect6 i ip port s).1 ≡ failed
      → IsUntouched s (connect6 i ip port s).0
  unfolding connect6
  connect6-failed i ip port s e =
      let t : Socket x = (bind6 i s).0 in
      ground (
        arith,
        bind6-IsUntouched i s,
        connect_bound6-failed i.v6 ip port s.end_point6 s,
        connect_bound6-failed i.v6 ip port t.end_point6 t,
      )

  connect_mapped-failed :
      (o : Option ℕ) (i : Internet) (ip port : ℕ) (s : Socket x)
      → (connect_mapped o i ip port s).1 ≡ failed
      → IsUntouched s (connect_mapped o i ip port s).0
  unfolding connect_mapped
  connect_mapped-failed none i ip port s e = connect6-failed i ip port s e
  connect_mapped-failed (some v) i ip port s e = connect4-failed i v port s e

  -- A call of Connect that returns -1, for whatever reason and address, has sent nothing:
  -- outputs, state, control block, buffers, retransmission timer, attempts and congestion control
  -- are as before.
  pub connect_to-failed :
      (i : Internet) (a : Address) (s : Socket x)
      → (connect_to i a s).1 ≡ failed
      → IsUntouched s (connect_to i a s).0
  unfolding connect_to
  connect_to-failed i (inet ip port) s e = connect4-failed i ip port s e
  connect_to-failed i (inet6 ip port) s e = connect_mapped-failed (i.mapped ip) i ip port s e
  connect_to-failed i other_address s e = ground arith
