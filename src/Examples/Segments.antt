-- ===== src/Examples/Segments.antt =====
-- Segments that leave and arrive on concrete connections.
use cse_322_computer_network.Base.{
  suc, ◌+◌, ◌-◌, ◌*◌, ◌≤◌, ◌<◌, min, ◌≡◌, refl, arith, true, false, [], ◌∷◌,
}
use cse_322_computer_network.Tcb.{new_tcb}
use cse_322_computer_network.Wire.{flag_rst, flag_ack, TcpHeader}
use cse_322_computer_network.Vegas.{congestion_state_set}
use cse_322_computer_network.Socket.State.{Socket, RttHistory, closed, established}
use cse_322_computer_network.Socket.Transmit.{
  bytes_in_flight, available_window, window, un_ack_data_count,
}
use cse_322_computer_network.Socket.Loop.{size_to_send, send_loop, send_pending_data}
use cse_322_computer_network.Socket.Ack.{enter_recovery}
use cse_322_computer_network.Socket.Input.{dispatch}
use cse_322_computer_network.Socket.ProcessAck.{count_acked}
use cse_322_computer_network.Socket.Reset.{dispatch-reset, segments}
use cse_322_computer_network.Socket.DupAcks.{dup_acks, disordered, fast_retransmit}
use cse_322_computer_network.Socket.Fuel.{send_pending_data_complete}
use cse_322_computer_network.Socket.Window.{size_to_send-fits}
use cse_322_computer_network.Socket.Counting.{count_acked-conserves}
use cse_322_computer_network.Scenario.{world, socket, world-IsSending}

send_pending_data_complete_example :
    send_pending_data true socket ≡ send_loop (suc (available_window socket) + 7) true 0 socket
send_pending_data_complete_example =
    send_pending_data_complete 7 true socket world-IsSending (omega arith) (omega arith) refl

fast_retransmit_example : dup_acks 3 0 socket ≡ enter_recovery 0 (disordered 3 socket)
unfolding congestion_state_set new_tcb
fast_retransmit_example =
    fast_retransmit 1 0 socket refl refl refl refl refl refl refl (omega arith)

abbrev reset : TcpHeader
reset = record {
  flags = flag_rst;
  seq = 500;
  ack_number = 1000;
  window_size = 0;
  source_port = 8080;
  destination_port = 49153;
  options = [];
}

dispatch-reset_example :
    ((dispatch established 0 reset true (167772162, 8080) socket).state ≡ closed)
    × (segments (dispatch established 0 reset true (167772162, 8080) socket).outputs ≡ 0)
dispatch-reset_example = dispatch-reset 0 reset true (167772162, 8080) socket refl refl

size_to_send-fits_example :
    (bytes_in_flight socket + 1460 ≤ 65535)
    × (bytes_in_flight socket + 1460 ≤ 14600)
    × (1460 ≤ 1460)
    × (1460 ≤ 6000 - 1000)
    × (min 1460 (6000 - 1000) ≤ available_window socket)
unfolding size_to_send available_window window un_ack_data_count
size_to_send-fits_example = size_to_send-fits socket 1000 6000 1460 refl (omega arith)

-- One segment is in flight.
abbrev busy : Socket world
busy = record socket {
  tx_buffer = record { head = 1000; flying = 1460; left = 5000 };
  tcb = record socket.tcb { high_tx_mark = 2460; next_tx_sequence = 2460 };
}

-- A new acknowledgement with a small window.
abbrev small_window : TcpHeader
small_window = record reset { flags = flag_ack; ack_number = 2460; window_size = 100 }

abbrev first : RttHistory
first = record { seq = 1000; count = 1460; time = 4900000000; retx = false }

abbrev second : RttHistory
second = record { seq = 2460; count = 1460; time = 4950000000; retx = false }

abbrev waiting : Socket world
waiting = record busy { history = first ∷ second ∷ [] }

count_acked-conserves_example :
    let a = count_acked 3500 700 1460 in
    (a.segs * 1460 + a.left ≡ 3500 + 700) × (a.bytes ≡ a.segs * 1460) × (a.left < 1460)
count_acked-conserves_example =
    count_acked-conserves 3500 700 1460 (omega arith) (omega arith) (omega arith)
