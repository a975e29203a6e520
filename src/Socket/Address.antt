-- ===== src/Socket/Address.antt =====
-- The end point of a socket: Bind, Connect, SetupEndpoint, SetupCallback, GetSockName, GetPeerName,
-- RecvFrom and Destroy (NS3/1705069/TaskB/tcp-socket-base.cc).
use cse_322_computer_network.Base.{ℕ, ◌&&◌, ◌==◌, if◌then◌else◌, is_some, Option, none, some}
use cse_322_computer_network.Net.{Net}
use cse_322_computer_network.Socket.State.{
  SocketErrno, error_inval, error_notconn, error_addrnotavail, error_addrinuse, EndPoint, Socket,
}
use cse_322_computer_network.Socket.Send.{has_end_point, cancel_all_timers}
use cse_322_computer_network.Socket.Api.{Returned, failed, returned, connect, recv}

-- InetSocketAddress and Inet6SocketAddress with a port, or an address that is neither.
pub data Address : Type 0 where
  inet inet6 : ℕ → ℕ → Address
  other_address : Address

-- What RouteOutput answers: the source address of a route, or an error.
pub data Route : Type 0 where
  source : ℕ → Route
  no_route : SocketErrno → Route

-- What TcpL4Protocol and the routing protocols of the node answer, for one version of IP. `none`
-- is a null pointer.
pub record Layer : Type 0 where
  pub allocate : Option EndPoint
  pub allocate_port : ℕ → Option EndPoint
  pub allocate_address : ℕ → Option EndPoint
  pub allocate_both : ℕ → ℕ → Option EndPoint
  pub route : ℕ → Route

-- `mapped` is the IPv4 address of an IPv4-mapped one.
pub record Internet : Type 0 where
  pub v4 : Layer
  pub v6 : Layer
  pub mapped : ℕ → Option ℕ

-- The four calls of Allocate in Bind.
unfoldable pub allocate_for : Layer → ℕ → ℕ → Option EndPoint
allocate_for l ip port =
    if ip == 0 && port == 0
    then l.allocate
    else if ip == 0
    then l.allocate_port port
    else if port == 0
    then l.allocate_address ip
    else l.allocate_both ip port

-- SetPeer, and SetLocalAddress.
abbrev pub with_peer : ℕ → ℕ → EndPoint → EndPoint
with_peer ip port e = record e { peer_address = ip; peer_port = port }

abbrev pub with_local : ℕ → EndPoint → EndPoint
with_local ip e = record e { local_address = ip }

abbrev pub bind_error : ℕ → SocketErrno
bind_error port = if port == 0 then error_addrnotavail else error_addrinuse

-- Local and peer address by the end point that there is, IPv4 first.
abbrev pub name_of : Option EndPoint → Option EndPoint → Address
name_of (some e) _ = inet e.local_address e.local_port
name_of none (some e) = inet6 e.local_address e.local_port
name_of none none = inet 0 0

abbrev pub peer_of : Option EndPoint → Option EndPoint → Address
peer_of (some e) _ = inet e.peer_address e.peer_port
peer_of none (some e) = inet6 e.peer_address e.peer_port
peer_of none none = inet 0 0

module _ {x : Net} where
  -- The callbacks of the end point are the methods of the socket, so only the result is left.
  unfoldable pub setup_callback : Socket x → Socket x × Returned
  setup_callback s = if has_end_point s then (s, returned 0) else (s, failed)

  -- Bind with what Allocate answered, and the error if it is null.
  unfoldable pub bound : SocketErrno → Option EndPoint → Socket x → Socket x × Returned
  bound err none s = (record s { end_point = none; errno = err }, failed)
  bound err (some e) s = setup_callback (record s { end_point = some e })

  unfoldable pub bound6 : SocketErrno → Option EndPoint → Socket x → Socket x × Returned
  bound6 err none s = (record s { end_point6 = none; errno = err }, failed)
  bound6 err (some e) s = setup_callback (record s { end_point6 = some e })

  unfoldable pub bind : Internet → Socket x → Socket x × Returned
  bind i s = bound error_addrnotavail i.v4.allocate s

  unfoldable pub bind6 : Internet → Socket x → Socket x × Returned
  bind6 i s = bound6 error_addrnotavail i.v6.allocate s

  unfoldable pub bind_to : Internet → Address → Socket x → Socket x × Returned
  bind_to i (inet ip port) s = bound (bind_error port) (allocate_for i.v4 ip port) s
  bind_to i (inet6 ip port) s = bound6 (bind_error port) (allocate_for i.v6 ip port) s
  bind_to i other_address s = (record s { errno = error_inval }, failed)

  -- The end of Connect, with the answer of the routing protocol.
  unfoldable pub connect_routed : EndPoint → Route → Socket x → Socket x × Returned
  connect_routed e (no_route err) s = (record s { errno = err }, failed)
  connect_routed e (source ip) s =
      (connect (record s { end_point = some (with_local ip e) }), returned 0)

  unfoldable pub connect_routed6 : EndPoint → Route → Socket x → Socket x × Returned
  connect_routed6 e (no_route err) s = (record s { errno = err }, failed)
  connect_routed6 e (source ip) s =
      (connect (record s { end_point6 = some (with_local ip e) }), returned 0)

  -- Connect once Bind has answered; the other version of IP loses its end point.
  unfoldable pub connect_bound : Layer → ℕ → ℕ → Option EndPoint → Socket x → Socket x × Returned
  connect_bound l ip port none s = (s, failed)
  connect_bound l ip port (some e) s =
      let p = with_peer ip port e in
      connect_routed p (l.route ip) (record s { end_point = some p; end_point6 = none })

  unfoldable pub connect_bound6 : Layer → ℕ → ℕ → Option EndPoint → Socket x → Socket x × Returned
  connect_bound6 l ip port none s = (s, failed)
  connect_bound6 l ip port (some e) s =
      let p = with_peer ip port e in
      connect_routed6 p (l.route ip) (record s { end_point6 = some p; end_point = none })

  unfoldable pub connect4 : Internet → ℕ → ℕ → Socket x → Socket x × Returned
  connect4 i ip port s =
      let t = if is_some s.end_point then s else (bind i s).0 in
      connect_bound i.v4 ip port t.end_point t

  unfoldable pub connect6 : Internet → ℕ → ℕ → Socket x → Socket x × Returned
  connect6 i ip port s =
      let t = if is_some s.end_point6 then s else (bind6 i s).0 in
      connect_bound6 i.v6 ip port t.end_point6 t

  -- An IPv4-mapped address is connected to as the IPv4 address.
  unfoldable pub connect_mapped : Option ℕ → Internet → ℕ → ℕ → Socket x → Socket x × Returned
  connect_mapped none i ip port s = connect6 i ip port s
  connect_mapped (some v4) i ip port s = connect4 i v4 port s

  unfoldable pub connect_to : Internet → Address → Socket x → Socket x × Returned
  connect_to i (inet ip port) s = connect4 i ip port s
  connect_to i (inet6 ip port) s = connect_mapped (i.mapped ip) i ip port s
  connect_to i other_address s = (record s { errno = error_inval }, failed)

  unfoldable pub get_sock_name : Socket x → Address
  get_sock_name s = name_of s.end_point s.end_point6

  -- `m_errno` is set, and there is no address, without an end point.
  unfoldable pub get_peer_name : Socket x → Socket x × Option Address
  get_peer_name s =
      if has_end_point s
      then (s, some (peer_of s.end_point s.end_point6))
      else (record s { errno = error_notconn }, none)

  -- RecvFrom: the address is told with data only.
  unfoldable pub recv_from : ℕ → Socket x → Socket x × Option x.Packet × Option Address
  recv_from max_size s =
      let (t, p) = recv max_size s in
      (
        t,
        p,
        elim p [
          | none ↦ none
          | some q ↦ if x.packet_size q == 0 then none else some (peer_of t.end_point t.end_point6)
        ],
      )

  -- The callbacks of an end point that goes away.
  unfoldable pub destroy : Socket x → Socket x
  destroy s = cancel_all_timers (record s { end_point = none })

  unfoldable pub destroy6 : Socket x → Socket x
  destroy6 s = cancel_all_timers (record s { end_point6 = none })

  -- The destructor gives back the end points, which calls Destroy for each, and stops the timers.
  unfoldable pub destruct : Socket x → Socket x
  destruct s =
      let t = if is_some s.end_point then destroy s else s in
      let u = if is_some t.end_point6 then destroy6 t else t in cancel_all_timers u
