-- ===== src/Socket/Close.antt =====
-- Closing a socket from either side: Close, DoClose, ShutdownSend, ShutdownRecv, DoPeerClose and
-- TimeWait (NS3/1705069/TaskB/tcp-socket-base.cc).
use cse_322_computer_network.Base.{
  ℕ, ◌+◌, ◌*◌, max, true, not, ◌||◌, ltb, ◌==◌, if◌then◌else◌, some,
}
use cse_322_computer_network.Wire.{flag_fin, flag_fin_ack, flag_ack}
use cse_322_computer_network.Net.{Net}
use cse_322_computer_network.Socket.State.{
  TcpState, listen, syn_sent, syn_rcvd, established, close_wait, last_ack, fin_wait_1, closing,
  time_wait, Socket, is_established, is_close_wait, is_last_ack, ◌▷◌, set_state,
}
use cse_322_computer_network.Socket.Send.{
  cancel_all_timers, notify_close_once, close_and_notify, send_empty_packet, send_rst,
}

module _ {x : Net} where
  -- The cases of the `switch` of DoClose.
  unfoldable pub close_in : TcpState → Socket x → Socket x
  close_in syn_rcvd s = s ▷ send_empty_packet flag_fin ▷ set_state fin_wait_1
  close_in established s = s ▷ send_empty_packet flag_fin ▷ set_state fin_wait_1
  close_in close_wait s = s ▷ send_empty_packet flag_fin_ack ▷ set_state last_ack
  close_in syn_sent s = s ▷ send_rst ▷ close_and_notify
  close_in closing s = s ▷ send_rst ▷ close_and_notify
  close_in listen s = close_and_notify s
  close_in _ s = s

  unfoldable pub do_close : Socket x → Socket x
  do_close s = close_in s.state s

  unfoldable pub close : Socket x → Socket x
  close s =
      if not (x.rx_size s.rx_buffer == 0)
      then send_rst s
      else if ltb 0 (x.tx_size_from_sequence s.tcb.next_tx_sequence s.tx_buffer)
      then record s { close_on_empty = true }
      else do_close s

  unfoldable pub shutdown_send : Socket x → Socket x
  shutdown_send s =
      let t = record s { shutdown_send = true; close_on_empty = true } in
      if not (x.tx_size t.tx_buffer == 0)
      then t
      else if is_established t.state || is_close_wait t.state
      then (let u = send_empty_packet flag_fin t in
          set_state (if is_established u.state then fin_wait_1 else last_ack) u)
      else t

  unfoldable pub shutdown_recv : Socket x → Socket x
  shutdown_recv s = record s { shutdown_recv = true }

  -- The delay of the LAST_ACK timer: the computed timeout without its lower limit.
  abbrev pub last_rto : Socket x → ℕ
  last_rto s = x.rtt_estimate s.rtt + max s.clock_granularity (x.rtt_variation s.rtt * 4)

  abbrev pub arm_last_ack : Socket x → Socket x
  arm_last_ack s = record s { last_ack_event = some (s.now + last_rto s) }

  unfoldable pub do_peer_close : Socket x → Socket x
  do_peer_close s =
      let t = notify_close_once (set_state close_wait s) in
      let u = if t.shutdown_send then close t else send_empty_packet flag_ack t in
      if is_last_ack u.state
      then arm_last_ack (record u { data_retr_count = u.data_retries })
      else u

  unfoldable pub enter_time_wait : Socket x → Socket x
  enter_time_wait s =
      let t = notify_close_once (cancel_all_timers (set_state time_wait s)) in
      record t { timewait_event = some (t.now + 2 * t.msl) }
