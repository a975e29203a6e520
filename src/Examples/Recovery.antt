-- ===== src/Examples/Recovery.antt =====
-- Congestion states on a concrete connection.
use cse_322_computer_network.Base.{◌≡◌, ◌<◌, refl, true, some, [], ◌∷◌}
use cse_322_computer_network.Tcb.{ca_cwr, is_loss, new_tcb}
use cse_322_computer_network.Wire.{flag_ack_ece, TcpHeader}
use cse_322_computer_network.Socket.Transmit.{bytes_in_flight, note_bytes_in_flight}
use cse_322_computer_network.Socket.Ack.{enter_cwr}
use cse_322_computer_network.Socket.ReceivedAck.{received_ack}
use cse_322_computer_network.Socket.CongStates.{cong_follows, received_ack-follows}
use cse_322_computer_network.Socket.CwrOnce.{received_acks, cwr_once}
use cse_322_computer_network.Socket.Steps.{Reaches, start, later, retransmission}
use cse_322_computer_network.Socket.Losses.{loss_needs_timeout, retransmissions}
use cse_322_computer_network.Vegas.{congestion_state_set}
use cse_322_computer_network.Vegas.Ops.{lift_reno}
use cse_322_computer_network.Socket.Send.{
  update_rtt_history, note_adv_wnd, add_options, advertised_window_size, raw_window,
}
use cse_322_computer_network.Socket.Transmit.{
  send_data_packet, send_item, note_cwr_sent, note_fin_sent, send_data_header, note_data_sent,
  start_pacing, is_pacing_enabled, available_window, window, un_ack_data_count,
}
use cse_322_computer_network.Socket.Loop.{
  send_pending_data, send_loop, send_on, send_round, send_from, send_chosen, send_segment, next_seg,
  ask_for_data, size_to_send,
}
use cse_322_computer_network.Socket.Timeouts.{
  re_tx_timeout, retransmit_data, enter_loss, reset_vegas,
}
use cse_322_computer_network.Socket.State.{Socket, retx_timeout}
use cse_322_computer_network.Scenario.{world, socket, world-IsSending, world-IsCalm}

-- An acknowledgement with the echo of a mark, before any data is sent.
abbrev echo : TcpHeader
echo = record {
  flags = flag_ack_ece;
  seq = 500;
  ack_number = 1000;
  window_size = 1000;
  source_port = 8080;
  destination_port = 49153;
  options = [];
}

received_ack-follows_example :
    cong_follows socket.tcb.cong_state (received_ack 0 echo socket).tcb.cong_state ≡ true
received_ack-follows_example = received_ack-follows world-IsCalm world-IsSending 0 echo socket

cwr_once_example :
    let t = received_acks ((0, echo) ∷ (0, echo) ∷ []) (enter_cwr 0 socket) in
    (t.tcb.cong_state ≡ ca_cwr)
    × (t.recover ≡ socket.tcb.high_tx_mark)
    × (t.tcb.ss_thresh
        ≡ world.cong.get_ss_thresh socket.congestion
            (note_bytes_in_flight socket).tcb
            (bytes_in_flight socket))
cwr_once_example =
    cwr_once world-IsCalm world-IsSending 0 socket ((0, echo) ∷ (0, echo) ∷ []) (refl, (refl, tt))

-- The retransmission timer is due.
abbrev due : Socket world
due = record socket { retx_event = some (retx_timeout 5000000000) }

abbrev late : Reaches due (re_tx_timeout due)
late = later start (retransmission refl)

lost : is_loss (re_tx_timeout due).tcb.cong_state ≡ true
unfolding re_tx_timeout retransmit_data enter_loss reset_vegas send_pending_data send_loop send_on
    send_round send_from send_chosen send_segment send_data_packet send_item note_cwr_sent
    note_fin_sent send_data_header note_data_sent update_rtt_history note_adv_wnd start_pacing
    is_pacing_enabled next_seg ask_for_data size_to_send available_window window un_ack_data_count
    add_options advertised_window_size raw_window congestion_state_set lift_reno new_tcb
lost = refl

loss_needs_timeout_example : 0 < retransmissions late
unfolding new_tcb
loss_needs_timeout_example = loss_needs_timeout world-IsCalm world-IsSending late refl lost
