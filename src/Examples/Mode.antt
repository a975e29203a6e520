-- ===== src/Examples/Mode.antt =====
-- The modification of TcpVegas: six rising samples at one window.
use cse_322_computer_network.Base.{ℕ, ◌*◌, ◌<◌, ◌≡◌, refl, arith, List, [], ◌∷◌}
use cse_322_computer_network.Tcb.{Tcb, aggresive, new_tcb}
use cse_322_computer_network.Vegas.{
  pkts_acked, congestion_state_set, get_ss_thresh, enable_vegas, disable_vegas,
}
use cse_322_computer_network.Vegas.Ops.{lift_reno}
use cse_322_computer_network.Socket.Send.{
  update_rtt_history, note_adv_wnd, add_options, advertised_window_size, raw_window,
}
use cse_322_computer_network.Socket.Transmit.{
  send_data_packet, send_item, note_cwr_sent, note_fin_sent, send_data_header, note_data_sent,
  start_pacing, is_pacing_enabled, available_window, window, un_ack_data_count,
}
use cse_322_computer_network.Socket.Loop.{
  send_pending_data, send_loop, send_on, send_round, send_from, send_chosen, send_segment, next_seg,
  ask_for_data, size_to_send,
}
use cse_322_computer_network.Socket.Timeouts.{
  re_tx_timeout, retransmit_data, enter_loss, reset_vegas,
}
use cse_322_computer_network.Vegas.Mode.{
  Sample, samples, rises, aggresive_needs, rising_turns_aggresive,
}
use cse_322_computer_network.Socket.Modes.{aggresive_after_timeouts}
use cse_322_computer_network.Socket.Backoff.{timeouts}
use cse_322_computer_network.Examples.Timers.{socket-FindData}
use cse_322_computer_network.Scenario.{block, vegas, socket, world-IsSending}

abbrev at : ℕ → Sample
at ms = record { rtt = ms * 1000000; c_wnd = 14600 }

-- The first sample has a window that is not the last one's and does not count.
abbrev rising : List Sample
rising = at 100 ∷ at 101 ∷ at 102 ∷ at 103 ∷ at 104 ∷ at 105 ∷ at 106 ∷ []

turns : (samples rising vegas block).mode ≡ aggresive
unfolding pkts_acked new_tcb
turns = refl

aggresive_needs_example :
    block.v_count_max < rises block.vegas_last_rtt block.vegas_last_cwnd rising
unfolding new_tcb
aggresive_needs_example = aggresive_needs rising vegas block refl refl turns

-- A block that saw a sample at this window.
abbrev seen : Tcb
seen = record block { vegas_last_rtt = 100000000; vegas_last_cwnd = 14600 }

rising_turns_aggresive_example :
    (samples (at 101 ∷ at 102 ∷ at 103 ∷ at 104 ∷ at 105 ∷ at 106 ∷ []) vegas seen).mode ≡ aggresive
unfolding new_tcb
rising_turns_aggresive_example =
    rising_turns_aggresive (at 101 ∷ at 102 ∷ at 103 ∷ at 104 ∷ at 105 ∷ at 106 ∷ []) vegas seen
      (omega arith) (omega arith) (ground arith)

-- After two timeouts the same samples turn the mode again, one later.
turns_again : (samples rising vegas (timeouts 2 socket).tcb).mode ≡ aggresive
unfolding pkts_acked new_tcb timeouts re_tx_timeout retransmit_data enter_loss reset_vegas
    send_pending_data send_loop send_on send_round send_from send_chosen send_segment
    send_data_packet send_item note_cwr_sent note_fin_sent send_data_header note_data_sent
    update_rtt_history note_adv_wnd start_pacing is_pacing_enabled next_seg ask_for_data
    size_to_send available_window window un_ack_data_count add_options advertised_window_size
    raw_window congestion_state_set lift_reno get_ss_thresh enable_vegas disable_vegas
turns_again = refl

aggresive_after_timeouts_example :
    let t = (timeouts 2 socket).tcb in
    t.v_count_max < rises t.vegas_last_rtt t.vegas_last_cwnd rising
aggresive_after_timeouts_example =
    aggresive_after_timeouts 1 socket vegas rising world-IsSending
      (socket-FindData.0, (socket-FindData.1.0, tt)) (omega arith) (omega arith) turns_again
