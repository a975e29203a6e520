-- ===== src/Socket/Steps.antt =====
-- The course of a connection: segments, calls of the application and timers, in any order
-- (NS3/1705069/TaskB/tcp-socket-base.cc).
use cse_322_computer_network.Base.{ℕ, ◌+◌, ◌≡◌, Bool, some}
use cse_322_computer_network.Tcb.{EcnCodePoint}
use cse_322_computer_network.Wire.{Flags, TcpHeader}
use cse_322_computer_network.Net.{Net}
use cse_322_computer_network.Socket.State.{Peer, Socket, retx_timeout, send_empty}
use cse_322_computer_network.Socket.Send.{close_and_notify}
use cse_322_computer_network.Socket.Close.{close, shutdown_send, shutdown_recv}
use cse_322_computer_network.Socket.Timeouts.{
  re_tx_timeout, send_empty_timeout, del_ack_timeout, last_ack_timeout, persist_timeout,
}
use cse_322_computer_network.Socket.Api.{
  send, recv, send_pending_timeout, notify_pacing_performed, connection_succeeded,
}
use cse_322_computer_network.Socket.Input.{forward_up, forward_up6}

module _ {x : Net} where
  -- What may happen next to a socket that is neither told to connect nor to listen. A timer's
  -- handler runs when the timer is pending and due.
  pub data Step (s : Socket x) : Socket x → Type 0 where
    time_passes : (n : ℕ) → Step s (record s { now = s.now + n })
    segment :
        (p : x.Packet) (h : TcpHeader) (size : ℕ) (ecn : EcnCodePoint) (accepts : Bool)
        (peer : Peer)
        → Step s (forward_up p h size ecn accepts peer s)
    segment6 :
        (p : x.Packet) (h : TcpHeader) (size : ℕ) (ecn : EcnCodePoint) (accepts : Bool)
        (peer : Peer)
        → Step s (forward_up6 p h size ecn accepts peer s)
    sends : (p : x.Packet) → Step s (send p s).0
    receives : (n : ℕ) → Step s (recv n s).0
    closes : Step s (close s)
    shuts_send : Step s (shutdown_send s)
    shuts_recv : Step s (shutdown_recv s)
    succeeds : Step s (connection_succeeded s)
    retransmission : s.retx_event ≡ some (retx_timeout s.now) → Step s (re_tx_timeout s)
    repetition :
        (f : Flags) → s.retx_event ≡ some (send_empty f s.now) → Step s (send_empty_timeout f s)
    pending_data : s.send_pending_data_event ≡ some s.now → Step s (send_pending_timeout s)
    paced : s.pacing_timer ≡ some s.now → Step s (notify_pacing_performed s)
    delayed : s.del_ack_event ≡ some s.now → Step s (del_ack_timeout s)
    last_call : s.last_ack_event ≡ some s.now → Step s (last_ack_timeout s)
    probe : s.persist_event ≡ some s.now → Step s (persist_timeout s)
    waited : s.timewait_event ≡ some s.now → Step s (close_and_notify s)

  pub data Reaches (s : Socket x) : Socket x → Type 0 where
    start : Reaches s s
    later : {t u : Socket x} → Reaches s t → Step t u → Reaches s u
