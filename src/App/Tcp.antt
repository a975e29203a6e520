-- ===== src/App/Tcp.antt =====
-- MyApp on a TcpSocketBase: the calls of the application as the methods of the socket
-- (NS3/1705069/TaskB/taskB.cc and tcp-socket-base.cc).
use cse_322_computer_network.Base.{ℕ, ◌<◌, ◌≡◌, arith, ◌∙◌, inl, some, ap, true, false}
use cse_322_computer_network.Net.{Net}
use cse_322_computer_network.Socket.State.{closed, syn_sent, Socket, EndPoint}
use cse_322_computer_network.Socket.Close.{close}
use cse_322_computer_network.Socket.Api.{returned, send}
use cse_322_computer_network.Socket.Address.{
  Address, inet, other_address, Internet, source, bind, bound, setup_callback, connect_to,
  get_peer_name, get_sock_name,
}
use cse_322_computer_network.Socket.Naming.{get_peer_name-connect_to}
use cse_322_computer_network.App.{AppSocket, Clock, MyApp, start_application}
use cse_322_computer_network.App.Schedule.{first_packet}

abbrev pub at : {x : Net} → ℕ → Socket x → Socket x
at t s = record s { now = t }

-- `packet` is `Create<Packet>`.
abbrev pub tcp_socket : (x : Net) → (ℕ → x.Packet) → Internet → AppSocket
tcp_socket x packet i = record {
  State = Socket x;
  Address = Address;
  no_address = other_address;
  bind = λ t s. (bind i (at t s)).0;
  connect = λ t a s. (connect_to i a (at t s)).0;
  send = λ t size s. (send (packet size) (at t s)).0;
  close = λ t s. close (at t s);
}

module _ {x : Net} where
  -- Send before the connection is there keeps the data for later.
  send-syn_sent :
      (p : x.Packet) (s : Socket x)
      → s.state ≡ syn_sent
      → (x.tx_add p s.tx_buffer).1 ≡ true
      → s.shutdown_send ≡ false
      → let t = (send p s).0 in
        (t.state ≡ syn_sent)
        × (t.tx_buffer ≡ (x.tx_add p s.tx_buffer).0)
        × (t.end_point ≡ s.end_point)
        × (t.end_point6 ≡ s.end_point6)
        × ((send p s).1 ≡ returned (x.packet_size p))
  unfolding send
  send-syn_sent p s e added unshut = ground arith

  bind-closed :
      (i : Internet) (e : EndPoint) (s : Socket x)
      → i.v4.allocate ≡ some e
      → let t = (bind i s).0 in
        (t.end_point ≡ some e)
        × (t.state ≡ s.state)
        × (t.syn_retries ≡ s.syn_retries)
        × (t.tx_buffer ≡ s.tx_buffer)
        × (t.shutdown_send ≡ s.shutdown_send)
  unfolding bind bound setup_callback
  bind-closed i e s pa = ground arith

  names-Same :
      (s t : Socket x) (a b : Address)
      → t.end_point ≡ s.end_point
      → t.end_point6 ≡ s.end_point6
      → (get_peer_name s).1 ≡ some a
      → get_sock_name s ≡ b
      → ((get_peer_name t).1 ≡ some a) × (get_sock_name t ≡ b)
  unfolding get_peer_name get_sock_name
  names-Same s t a b e e6 p n = ground arith

  -- Once the application has started.
  pub record IsCalling (ip port src : ℕ) (p : x.Packet) (e : EndPoint) (s t : Socket x)
      : Type 0 where
    pub state : t.state ≡ syn_sent
    pub peer : (get_peer_name t).1 ≡ some (inet ip port)
    pub name : get_sock_name t ≡ inet src e.local_port
    pub tx_buffer : t.tx_buffer ≡ (x.tx_add p s.tx_buffer).0
    pub before : Socket x
    pub sends : send p before ≡ (t, returned (x.packet_size p))

  first_calls :
      (packet : ℕ → x.Packet) (i : Internet) (ip port src size now : ℕ) (e : EndPoint)
      (s : Socket x)
      → s.state ≡ closed
      → 0 < s.syn_retries
      → i.v4.allocate ≡ some e
      → i.v4.route ip ≡ source src
      → (x.tx_add (packet size) s.tx_buffer).1 ≡ true
      → s.shutdown_send ≡ false
      → let h = tcp_socket x packet i in
        IsCalling ip port src
          (packet size)
          e
          s
          (h.send now size (h.connect now (inet ip port) (h.bind now s)))
  first_calls packet i ip port src size now e s st pos pa pr added unshut =
      let b = (bind i (at now s)).0 in
      let f = bind-closed i e (at now s) pa in
      let g =
        get_peer_name-connect_to i ip port src e (at now b) (f.1 ∙ st) (ground (arith, f)) (inl f.0)
          pr in
      let c = (connect_to i (inet ip port) (at now b)).0 in
      let kept = g.3 ∙ f.3 in
      let d =
        send-syn_sent (packet size) (at now c) g.0
          (ap (λ b. (x.tx_add (packet size) b).1) kept ∙ added) (g.4 ∙ f.4 ∙ unshut) in
      let n =
        names-Same c (send (packet size) (at now c)).0 (inet ip port) (inet src e.local_port) d.2
          d.3 g.1 g.2 in
      record {
        state = d.0;
        peer = n.0;
        name = n.1;
        tx_buffer = d.1 ∙ ap (λ b. (x.tx_add (packet size) b).0) kept;
        before = at now c;
        sends = λ j. ((send (packet size) (at now c)).0, d.4 j);
      }

  -- MyApp on a TcpSocketBase: started with a closed socket that is allowed an attempt, is given
  -- an end point and has a route to the IPv4 peer, whose sending is not shut down and whose send
  -- buffer takes the first packet, it leaves the socket in SYN_SENT with the name of the peer and
  -- of the route's source; the call of Send that led there has answered the size of the packet,
  -- and the send buffer is the first one with the packet added.
  pub start_application-IsCalling :
      (c : Clock) (packet : ℕ → x.Packet) (i : Internet) (ip port src : ℕ) (e : EndPoint)
      (s : Socket x) (a : MyApp (tcp_socket x packet i))
      → a.socket ≡ some s
      → a.peer ≡ inet ip port
      → s.state ≡ closed
      → 0 < s.syn_retries
      → i.v4.allocate ≡ some e
      → i.v4.route ip ≡ source src
      → (x.tx_add (packet a.packet_size) s.tx_buffer).1 ≡ true
      → s.shutdown_send ≡ false
      → (t : Socket x) × ((start_application c a).socket ≡ some t)
        × IsCalling ip port src (packet a.packet_size) e s t
  start_application-IsCalling c packet i ip port src e s a ps pp st pos pa pr added unshut =
      let h = tcp_socket x packet i in
      let g = first_calls packet i ip port src a.packet_size a.now e s st pos pa pr added unshut in
      let t : Socket x =
        h.send a.now a.packet_size (h.connect a.now (inet ip port) (h.bind a.now s)) in
      (
        t,
        first_packet c a s ps
            ∙ ap (λ p. some (h.send a.now a.packet_size (h.connect a.now p (h.bind a.now s)))) pp,
        g,
      )
