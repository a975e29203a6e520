-- ===== src/Socket/Orders.antt =====
-- Orders of the states that the course of a connection is held against
-- (NS3/1705069/TaskB/tcp-socket-base.cc).
use cse_322_computer_network.Base.{◌≤◌, ◌≡◌, arith, Bool, true, false, not, ◌||◌, leb}
use cse_322_computer_network.Net.{Net}
use cse_322_computer_network.Socket.State.{TcpState, closed, close_wait, last_ack, Socket}
use cse_322_computer_network.Socket.Phase.{phase, rank}
use cse_322_computer_network.Socket.Follows.{follows}
use cse_322_computer_network.Socket.Keeps.{IsOrder}
use cse_322_computer_network.Socket.Steps.{Reaches}
use cse_322_computer_network.Socket.StepKeeps.{Reaches-Keeps}

-- The states of the side that is closed by its peer.
abbrev pub is_passive : TcpState → Bool
is_passive close_wait = true
is_passive last_ack = true
is_passive closed = true
is_passive _ = false

abbrev stays_passive : TcpState → TcpState → Bool
stays_passive a b = not (is_passive a) || is_passive b

abbrev not_before : TcpState → TcpState → Bool
not_before a b = leb (phase a) (phase b)

passive_arrival : (a b : TcpState) → follows a b ≡ true → stays_passive a b ≡ true
passive_arrival a b = ground arith

passive_onward : (a b : TcpState) → rank a ≤ rank b → stays_passive a b ≡ true
unfolding rank
passive_onward a b = ground arith

passive_same : (a : TcpState) → stays_passive a a ≡ true
passive_same a = ground arith

passive_trans :
    (a b c : TcpState)
    → stays_passive a b ≡ true
    → stays_passive b c ≡ true
    → stays_passive a c ≡ true
passive_trans a b c = ground arith

passive_end : (a : TcpState) → stays_passive a closed ≡ true
passive_end a = ground arith

stays_passive-IsOrder : IsOrder stays_passive
stays_passive-IsOrder = record {
  same = passive_same;
  trans = passive_trans;
  arrival = passive_arrival;
  onward = λ a b p k. passive_onward a b k;
  end = passive_end;
}

phase_arrival : (a b : TcpState) → follows a b ≡ true → not_before a b ≡ true
unfolding phase
phase_arrival a b = ground arith

phase_end : (a : TcpState) → not_before a closed ≡ true
unfolding phase
phase_end a = ground arith

not_before-IsOrder : IsOrder not_before
not_before-IsOrder = record {
  same = λ a. ground arith;
  trans = λ a b c p q. ground arith;
  arrival = phase_arrival;
  onward = λ a b p k. ground arith;
  end = phase_end;
}

module _ {x : Net} where
  -- A connection that is in CLOSE_WAIT is from then on in CLOSE_WAIT, LAST_ACK or CLOSED,
  -- whatever segments arrive, over IPv4 or IPv6, whatever time passes, in any order with the
  -- calls Send, Recv, Close, ShutdownSend and ShutdownRecv, the scheduled report of the
  -- connection, and the timers when they are due; calls of Connect and Listen are not among the
  -- steps.
  pub passive_close :
      {s t : Socket x} → s.state ≡ close_wait → Reaches s t → is_passive t.state ≡ true
  passive_close {s} {t} e c =
      let k = Reaches-Keeps stays_passive stays_passive-IsOrder c in ground (arith, k, e)

  -- A connection never goes back to an earlier phase, whatever segments arrive, over IPv4 or
  -- IPv6, whatever time passes, in any order with the calls Send, Recv, Close, ShutdownSend and
  -- ShutdownRecv, the scheduled report of the connection, and the timers when they are due; calls
  -- of Connect and Listen are not among the steps. The phases are in order: LISTEN and SYN_SENT;
  -- SYN_RCVD; ESTABLISHED; CLOSE_WAIT, LAST_ACK, FIN_WAIT_1, FIN_WAIT_2 and CLOSING; TIME_WAIT;
  -- CLOSED.
  pub never_back : {s t : Socket x} → Reaches s t → phase s.state ≤ phase t.state
  never_back c = let k = Reaches-Keeps not_before not_before-IsOrder c in ground (arith, k)
