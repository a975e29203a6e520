-- ===== src/Examples/Transitions.antt =====
-- States that follow each other on concrete connections.
use cse_322_computer_network.Base.{◌≡◌, ◌≤◌, none, some, refl, true, false, []}
use cse_322_computer_network.Tcb.{not_ect}
use cse_322_computer_network.Wire.{flag_ack, flag_fin_ack, TcpHeader}
use cse_322_computer_network.Socket.State.{
  retx_timeout, Socket, EndPoint, established, close_wait, last_ack, closed,
}
use cse_322_computer_network.Socket.Close.{close}
use cse_322_computer_network.Socket.Timeouts.{re_tx_timeout}
use cse_322_computer_network.Socket.Input.{dispatch, do_forward_up, forward_up}
use cse_322_computer_network.Socket.Follows.{follows}
use cse_322_computer_network.Socket.Transitions.{dispatch-follows}
use cse_322_computer_network.Socket.Phase.{phase}
use cse_322_computer_network.Socket.Steps.{segment, closes, retransmission, Reaches, start, later}
use cse_322_computer_network.Socket.Orders.{is_passive, passive_close, never_back}
use cse_322_computer_network.Socket.Release.{HasSentFin, passive_release}
use cse_322_computer_network.Scenario.{world, socket}

-- A FIN of the peer.
abbrev fin : TcpHeader
fin = record {
  flags = flag_fin_ack;
  seq = 0;
  ack_number = 0;
  window_size = 1000;
  source_port = 80;
  destination_port = 8080;
  options = [];
}

dispatch-follows_example :
    follows established (dispatch established 0 fin true (167772162, 8080) socket).state ≡ true
dispatch-follows_example = dispatch-follows 0 fin true (167772162, 8080) socket

-- The peer has closed; the FIN comes once more, the application closes, and a timer runs out.
abbrev left : Socket world
left = record socket { state = close_wait }

abbrev repeated : Socket world
repeated = forward_up 0 fin 20 not_ect true (167772162, 8080) left

abbrev course : Reaches left (close repeated)
course = later (later start (segment 0 fin 20 not_ect true (167772162, 8080))) closes

passive_close_example : is_passive (close repeated).state ≡ true
passive_close_example = passive_close {s = left} refl course

-- The retransmission timer of the established connection runs out, and the peer's FIN arrives.
abbrev waiting : Socket world
waiting = record socket { retx_event = some (retx_timeout socket.now) }

never_back_example :
    phase established
    ≤ phase (forward_up 0 fin 20 not_ect true (167772162, 8080) (re_tx_timeout waiting)).state
never_back_example =
    never_back {s = waiting}
      (later (later start (retransmission refl)) (segment 0 fin 20 not_ect true (167772162, 8080)))

-- Everything is sent and read. The acknowledgement is one for data before the FIN.
abbrev finished : Socket world
finished = record left {
  tx_buffer = record { head = 1000; flying = 0; left = 0 };
  timestamp_enabled = false;
}

abbrev client_end : EndPoint
client_end = record {
  local_address = 167772161;
  local_port = 49153;
  peer_address = 167772162;
  peer_port = 8080;
}

abbrev old_ack : TcpHeader
old_ack = record fin { flags = flag_ack; seq = 500; ack_number = 1000 }

passive_release_example :
    let t = close finished in
    let u = do_forward_up 0 old_ack true (167772162, 8080) t in
    HasSentFin client_end finished t
    × (t.state ≡ last_ack)
    × (u.state ≡ closed)
    × (u.end_point ≡ none)
    × (u.retx_event ≡ none)
passive_release_example =
    passive_release 0 old_ack true (167772162, 8080) client_end finished
      (record { end_point = refl; retx_event = refl; unread = refl; unsent = refl }) refl refl refl
      refl
