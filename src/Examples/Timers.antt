-- ===== src/Examples/Timers.antt =====
-- Timeouts of concrete connections.
use cse_322_computer_network.Base.{◌+◌, ◌-◌, ◌*◌, ◌^◌, min, ◌≡◌, refl, arith, none, some}
use cse_322_computer_network.Tcb.{moderate, new_tcb}
use cse_322_computer_network.Wire.{flag_syn}
use cse_322_computer_network.Socket.State.{Socket, EndPoint, closed, syn_sent, send_empty}
use cse_322_computer_network.Socket.Send.{
  send_empty_packet, update_rtt_history, note_adv_wnd, add_options, advertised_window_size,
  raw_window,
}
use cse_322_computer_network.Socket.Transmit.{
  send_data_packet, send_item, note_cwr_sent, note_fin_sent, send_data_header, note_data_sent,
  start_pacing, is_pacing_enabled, available_window, window, un_ack_data_count,
}
use cse_322_computer_network.Socket.Loop.{
  send_pending_data, send_loop, send_on, send_round, send_from, send_chosen, send_segment, next_seg,
  ask_for_data, size_to_send,
}
use cse_322_computer_network.Socket.Timeouts.{
  minute, re_tx_timeout, retransmit_data, enter_loss, reset_vegas,
}
use cse_322_computer_network.Vegas.{
  congestion_state_set, get_ss_thresh, enable_vegas, disable_vegas,
}
use cse_322_computer_network.Vegas.Ops.{lift_reno}
use cse_322_computer_network.Socket.Connecting.{syn_backoff}
use cse_322_computer_network.Socket.Persist.{persist_timeouts, persist_backoff}
use cse_322_computer_network.Socket.Backoff.{timeouts, FindData, timeouts-backoff}
use cse_322_computer_network.Scenario.{world, socket, world-IsSending}

-- Each of three timeouts finds data.
pub socket-FindData : FindData 3 socket
unfolding re_tx_timeout retransmit_data enter_loss reset_vegas send_pending_data send_loop send_on
    send_round send_from send_chosen send_segment send_data_packet send_item note_cwr_sent
    note_fin_sent send_data_header note_data_sent update_rtt_history note_adv_wnd start_pacing
    is_pacing_enabled next_seg ask_for_data size_to_send available_window window un_ack_data_count
    add_options advertised_window_size raw_window congestion_state_set lift_reno new_tcb
    get_ss_thresh enable_vegas disable_vegas
socket-FindData = (
  record { waiting = refl; not_closed = refl; not_time_wait = refl; not_syn_sent = refl },
  (
    record { waiting = refl; not_closed = refl; not_time_wait = refl; not_syn_sent = refl },
    (record { waiting = refl; not_closed = refl; not_time_wait = refl; not_syn_sent = refl }, tt),
  ),
)

timeouts-backoff_example :
    let t = timeouts 3 socket in
    (t.rto ≡ min minute (1000000000 * 2 ^ 3))
    × (t.data_retr_count + 3 ≡ 6)
    × (t.tcb.mode ≡ moderate)
    × (t.tcb.v_count ≡ 0)
    × (t.tcb.c_wnd ≡ t.tcb.segment_size)
timeouts-backoff_example =
    timeouts-backoff 2 socket world-IsSending socket-FindData (omega arith) (omega arith)

persist_backoff_example :
    let t = persist_timeouts 4 socket in
    (t.persist_timeout ≡ min minute (6000000000 * 2 ^ 4))
    × (t.persist_event ≡ some (t.now + t.persist_timeout))
    × (t.retx_event ≡ none)
persist_backoff_example = persist_backoff 3 socket (omega arith)

-- A socket that has sent no SYN yet, with two attempts left of six.
abbrev calling : Socket world
calling = record socket { state = syn_sent; syn_count = 2 }

abbrev client : EndPoint
client = record {
  local_address = 167772161;
  local_port = 49153;
  peer_address = 167772162;
  peer_port = 8080;
}

syn_backoff_example :
    let t = send_empty_packet flag_syn calling in
    (t.rto ≡ 3000000000 * 2 ^ (6 - 2))
    × (t.syn_count + 1 ≡ 2)
    × (t.syn_retries ≡ 6)
    × (t.state ≡ syn_sent)
    × (t.end_point ≡ some client)
    × (t.retx_event ≡ some (send_empty flag_syn (5000000000 + t.rto)))
syn_backoff_example =
    syn_backoff calling {e = client} refl refl (omega arith) (omega arith) (omega arith)
      (omega arith)

abbrev hopeless : Socket world
hopeless = record socket { state = closed; syn_retries = 0 }
