-- ===== src/Socket/Follows.antt =====
-- The states that may follow a state when a segment arrives
-- (NS3/1705069/TaskB/tcp-socket-base.cc).
use cse_322_computer_network.Base.{◌≤◌, ◌≡◌, arith, Bool, true, false}
use cse_322_computer_network.Socket.State.{
  TcpState, closed, listen, syn_sent, syn_rcvd, established, close_wait, last_ack, fin_wait_1,
  fin_wait_2, closing, time_wait,
}
use cse_322_computer_network.Socket.Phase.{phase, rank, corank}

-- A connection that is open may begin to close from its side, and take the peer's FIN.
abbrev pub is_open_next : TcpState → Bool
is_open_next established = true
is_open_next fin_wait_1 = true
is_open_next closing = true
is_open_next close_wait = true
is_open_next last_ack = true
is_open_next closed = true
is_open_next _ = false

-- May the second state follow the first when a segment arrives?
abbrev pub follows : TcpState → TcpState → Bool
follows closed closed = true
follows closed _ = false
follows listen listen = true
follows listen _ = false
follows syn_sent syn_sent = true
follows syn_sent syn_rcvd = true
follows syn_sent b = is_open_next b
follows syn_rcvd syn_rcvd = true
follows syn_rcvd b = is_open_next b
follows established b = is_open_next b
follows fin_wait_1 established = false
follows fin_wait_1 fin_wait_2 = true
follows fin_wait_1 time_wait = true
follows fin_wait_1 b = is_open_next b
follows fin_wait_2 fin_wait_2 = true
follows fin_wait_2 time_wait = true
follows fin_wait_2 close_wait = true
follows fin_wait_2 last_ack = true
follows fin_wait_2 closed = true
follows fin_wait_2 _ = false
follows close_wait close_wait = true
follows close_wait last_ack = true
follows close_wait closed = true
follows close_wait _ = false
follows last_ack close_wait = true
follows last_ack last_ack = true
follows last_ack closed = true
follows last_ack _ = false
follows closing closing = true
follows closing time_wait = true
follows closing closed = true
follows closing _ = false
follows time_wait time_wait = true
follows time_wait _ = false

-- The states with data to exchange or to await.
abbrev pub exchanges : TcpState → Bool
exchanges syn_rcvd = true
exchanges established = true
exchanges fin_wait_1 = true
exchanges fin_wait_2 = true
exchanges close_wait = true
exchanges last_ack = true
exchanges _ = false

pub ranks_follow :
    (a b : TcpState)
    → exchanges a ≡ true
    → rank a ≤ rank b
    → corank a ≤ corank b
    → follows a b ≡ true
unfolding rank corank
ranks_follow a b = ground arith

pub exchanges_low : (a : TcpState) → exchanges a ≡ true → phase a ≤ 3
unfolding phase
exchanges_low a = ground arith

-- What the end of ProcessWait does to a state.
abbrev pub finishes : TcpState → TcpState → Bool
finishes fin_wait_1 fin_wait_1 = true
finishes fin_wait_1 closing = true
finishes fin_wait_1 time_wait = true
finishes fin_wait_2 fin_wait_2 = true
finishes fin_wait_2 time_wait = true
finishes a b = follows a b

abbrev pub is_waiting : TcpState → Bool
is_waiting fin_wait_1 = true
is_waiting fin_wait_2 = true
is_waiting close_wait = true
is_waiting _ = false

pub exchanges_waiting : (a : TcpState) → is_waiting a ≡ true → exchanges a ≡ true
exchanges_waiting a = ground arith

pub exchanges_last : (a : TcpState) → a ≡ last_ack → exchanges a ≡ true
exchanges_last a = ground arith

pub ack_follows :
    (a : TcpState) → is_waiting a ≡ true → follows a fin_wait_1 ≡ true → follows a fin_wait_2 ≡ true
ack_follows a = ground arith

pub finishes_follow :
    (a m b : TcpState)
    → is_waiting a ≡ true
    → follows a m ≡ true
    → finishes m b ≡ true
    → follows a b ≡ true
finishes_follow a m b = ground arith

pub stays : (a : TcpState) → follows a a ≡ true
stays a = ground arith

pub closed_follows : (a : TcpState) → exchanges a ≡ true → follows a closed ≡ true
closed_follows a = ground arith
