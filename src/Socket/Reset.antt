-- ===== src/Socket/Reset.antt =====
-- How a socket treats a reset: the branches of the state machine for a segment with the RST flag.
use cse_322_computer_network.Base.{
  ℕ, suc, ◌≡◌, refl, arith, Bool, true, false, List, [], ◌∷◌, if◌then◌else◌,
}
use cse_322_computer_network.Wire.{
  Flags, flag_rst, without_psh_urg, without_extras, TcpHeader, Output, sent,
}
use cse_322_computer_network.Net.{Net}
use cse_322_computer_network.Socket.State.{
  Peer, TcpState, closed, listen, time_wait, syn_sent, syn_rcvd, established, close_wait, last_ack,
  fin_wait_1, fin_wait_2, closing, Socket,
}
use cse_322_computer_network.Socket.Send.{cancel_all_timers, deallocate_end_point, close_and_notify}
use cse_322_computer_network.Socket.Process.{
  reject, process_established, process_listen, process_syn_sent, process_syn_rcvd,
}
use cse_322_computer_network.Socket.Ending.{process_wait, process_closing, process_last_ack}
use cse_322_computer_network.Socket.Input.{dispatch, refuse}

-- The segments that a socket has handed to TcpL4Protocol.
abbrev pub segments : List Output → ℕ
segments [] = 0
segments (sent h n ∷ os) = suc (segments os)
segments (_ ∷ os) = segments os

-- A reset without data: RST and nothing else but PSH and URG.
abbrev pub IsReset : TcpHeader → Type 0
IsReset h = without_psh_urg h.flags ≡ flag_rst

-- What becomes of a state: a listening socket and one in TIME_WAIT stay.
abbrev pub after_reset : TcpState → TcpState
after_reset listen = listen
after_reset time_wait = time_wait
after_reset _ = closed

-- The states in which a reset changes nothing.
abbrev stays : TcpState → Bool
stays closed = true
stays listen = true
stays time_wait = true
stays _ = false

module _ {x : Net} where
  close_and_notify-segments :
      (s : Socket x)
      → ((close_and_notify s).state ≡ closed)
        × (segments (close_and_notify s).outputs ≡ segments s.outputs)
  unfolding close_and_notify deallocate_end_point cancel_all_timers
  close_and_notify-segments s = ground arith

  reject-reset : (f : Flags) (s : Socket x) → f ≡ flag_rst → reject f s ≡ close_and_notify s
  unfolding reject
  reject-reset f s e = ground arith

  process_established-reset :
      (p : x.Packet) (h : TcpHeader) (s : Socket x)
      → IsReset h
      → process_established p h s ≡ close_and_notify s
  unfolding process_established
  process_established-reset p h s r = ground (arith, reject-reset (without_extras h.flags) s)

  process_syn_sent-reset :
      (p : x.Packet) (h : TcpHeader) (s : Socket x)
      → IsReset h
      → process_syn_sent p h s ≡ close_and_notify s
  unfolding process_syn_sent
  process_syn_sent-reset p h s r = ground arith

  process_syn_rcvd-reset :
      (p : x.Packet) (h : TcpHeader) (peer : Peer) (s : Socket x)
      → IsReset h
      → process_syn_rcvd p h peer s ≡ close_and_notify s
  unfolding process_syn_rcvd
  process_syn_rcvd-reset p h peer s r = ground arith

  process_wait-reset :
      (p : x.Packet) (h : TcpHeader) (s : Socket x)
      → IsReset h
      → x.packet_size p ≡ 0
      → process_wait p h s ≡ close_and_notify s
  unfolding process_wait
  process_wait-reset p h s r e = ground (arith, reject-reset (without_extras h.flags) s)

  process_closing-reset :
      (h : TcpHeader) (s : Socket x) → IsReset h → process_closing h s ≡ close_and_notify s
  unfolding process_closing
  process_closing-reset h s r = ground (arith, reject-reset (without_psh_urg h.flags) s)

  process_last_ack-reset :
      (p : x.Packet) (h : TcpHeader) (s : Socket x)
      → IsReset h
      → process_last_ack p h s ≡ close_and_notify s
  unfolding process_last_ack
  process_last_ack-reset p h s r = ground arith

  idle-reset :
      (accepts : Bool) (h : TcpHeader) (s : Socket x)
      → IsReset h
      → (process_listen accepts h s ≡ s) × (refuse h s ≡ s)
  unfolding process_listen refuse
  idle-reset accepts h s r = ground arith

  -- What `dispatch` makes of a reset: nothing in LISTEN, TIME_WAIT and CLOSED, else a close.
  dispatch-reset_eq :
      (st : TcpState) (p : x.Packet) (h : TcpHeader) (accepts : Bool) (peer : Peer) (s : Socket x)
      → IsReset h
      → x.packet_size p ≡ 0
      → dispatch st p h accepts peer s ≡ (if stays st then s else close_and_notify s)
  unfolding dispatch
  dispatch-reset_eq closed p h accepts peer s r e = (idle-reset accepts h s r).1
  dispatch-reset_eq listen p h accepts peer s r e = (idle-reset accepts h s r).0
  dispatch-reset_eq syn_sent p h accepts peer s r e = process_syn_sent-reset p h s r
  dispatch-reset_eq syn_rcvd p h accepts peer s r e = process_syn_rcvd-reset p h peer s r
  dispatch-reset_eq established p h accepts peer s r e = process_established-reset p h s r
  dispatch-reset_eq close_wait p h accepts peer s r e = process_wait-reset p h s r e
  dispatch-reset_eq last_ack p h accepts peer s r e = process_last_ack-reset p h s r
  dispatch-reset_eq fin_wait_1 p h accepts peer s r e = process_wait-reset p h s r e
  dispatch-reset_eq fin_wait_2 p h accepts peer s r e = process_wait-reset p h s r e
  dispatch-reset_eq closing p h accepts peer s r e = process_closing-reset h s r
  dispatch-reset_eq time_wait p h accepts peer s r e = refl

  -- A segment without data whose flags are RST, and PSH or URG at most, closes the connection in
  -- every state but LISTEN and TIME_WAIT, in which the state stays, and no segment is sent in
  -- answer to it.
  pub dispatch-reset :
      (p : x.Packet) (h : TcpHeader) (accepts : Bool) (peer : Peer) (s : Socket x)
      → IsReset h
      → x.packet_size p ≡ 0
      → ((dispatch s.state p h accepts peer s).state ≡ after_reset s.state)
        × (segments (dispatch s.state p h accepts peer s).outputs ≡ segments s.outputs)
  dispatch-reset p h accepts peer s r e =
      ground (arith, dispatch-reset_eq s.state p h accepts peer s r e, close_and_notify-segments s)
