-- ===== src/Socket/Transitions.antt =====
-- A segment that arrives, in every state, against the states that may follow
-- (NS3/1705069/TaskB/tcp-socket-base.cc).
use cse_322_computer_network.Base.{◌≡◌, refl, arith, Bool, true, ap}
use cse_322_computer_network.Wire.{TcpHeader}
use cse_322_computer_network.Net.{Net}
use cse_322_computer_network.Socket.State.{
  Peer, TcpState, closed, listen, syn_sent, syn_rcvd, established, close_wait, last_ack, fin_wait_1,
  fin_wait_2, closing, time_wait, Socket,
}
use cse_322_computer_network.Socket.Process.{process_listen}
use cse_322_computer_network.Socket.Input.{dispatch}
use cse_322_computer_network.Socket.Progress.{refuse-state}
use cse_322_computer_network.Socket.Follows.{follows, exchanges, is_waiting}
use cse_322_computer_network.Socket.HandlerFollows.{
  Follows, process_established-Follows, process_wait-Follows, process_closing-Follows,
  process_last_ack-Follows,
}
use cse_322_computer_network.Socket.HandshakeFollows.{
  from, process_syn_sent-Follows, process_syn_rcvd-Follows,
}

module _ {x : Net} where
  process_listen-state :
      (b : Bool) (h : TcpHeader) (s : Socket x) → (process_listen b h s).state ≡ s.state
  unfolding process_listen
  process_listen-state b h s = ground arith

  dispatch-Follows :
      (st : TcpState) (p : x.Packet) (h : TcpHeader) (accepts : Bool) (peer : Peer) (s : Socket x)
      → s.state ≡ st
      → Follows st (dispatch st p h accepts peer s)
  unfolding dispatch
  dispatch-Follows closed p h accepts peer s e = ground (arith, refuse-state h s)
  dispatch-Follows listen p h accepts peer s e = ground (arith, process_listen-state accepts h s)
  dispatch-Follows syn_sent p h accepts peer s e = process_syn_sent-Follows p h s e
  dispatch-Follows syn_rcvd p h accepts peer s e = process_syn_rcvd-Follows p h peer s e
  dispatch-Follows established p h accepts peer s e =
      from e (process_established-Follows p h s (ap exchanges e))
  dispatch-Follows close_wait p h accepts peer s e =
      from e (process_wait-Follows p h s (ap is_waiting e))
  dispatch-Follows last_ack p h accepts peer s e = process_last_ack-Follows p h s e
  dispatch-Follows fin_wait_1 p h accepts peer s e =
      from e (process_wait-Follows p h s (ap is_waiting e))
  dispatch-Follows fin_wait_2 p h accepts peer s e =
      from e (process_wait-Follows p h s (ap is_waiting e))
  dispatch-Follows closing p h accepts peer s e = process_closing-Follows h s e
  dispatch-Follows time_wait p h accepts peer s e = ground arith

  -- The handlers of arriving segments keep to the table follows of the states that may follow a
  -- state, for every state, segment and answer of the application: LISTEN, TIME_WAIT and CLOSED
  -- stay; only SYN_SENT and SYN_RCVD lead to ESTABLISHED; FIN_WAIT_2 is entered only from
  -- FIN_WAIT_1, and TIME_WAIT only from FIN_WAIT_1, FIN_WAIT_2 and CLOSING; CLOSE_WAIT and
  -- LAST_ACK lead only to each other and to CLOSED.
  pub dispatch-follows :
      (p : x.Packet) (h : TcpHeader) (accepts : Bool) (peer : Peer) (s : Socket x)
      → follows s.state (dispatch s.state p h accepts peer s).state ≡ true
  dispatch-follows p h accepts peer s =
      let k = dispatch-Follows s.state p h accepts peer s refl in k.allowed
