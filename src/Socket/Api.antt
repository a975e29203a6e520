-- ===== src/Socket/Api.antt =====
-- The calls of an application: Connect, Listen, Send, Recv, and the settings that act on the state
-- (NS3/1705069/TaskB/tcp-socket-base.cc).
use cse_322_computer_network.Base.{
  ℕ, ◌+◌, not, ◌&&◌, ◌||◌, ltb, ◌==◌, if◌then◌else◌, is_some, Option, none, some,
}
use cse_322_computer_network.Tcb.{ecn_disabled}
use cse_322_computer_network.Wire.{notify_connection_succeeded}
use cse_322_computer_network.Net.{Net}
use cse_322_computer_network.Socket.State.{
  TcpState, closed, listen, syn_sent, close_wait, last_ack, time_wait, is_closed, is_established,
  is_syn_sent, is_close_wait, error_inval, error_msgsize, error_shutdown, error_notconn, Socket,
  ◌▷◌, emit, set_state, set_tcb,
}
use cse_322_computer_network.Socket.Send.{close_and_notify, send_rst}
use cse_322_computer_network.Socket.Transmit.{available_window}
use cse_322_computer_network.Socket.Loop.{send_pending_data}
use cse_322_computer_network.Socket.Receive.{send_ack_or_echo}
use cse_322_computer_network.Socket.Process.{notify_space}
use cse_322_computer_network.Socket.Timeouts.{send_syn}

-- What a call returns: -1, or a number that is not negative.
pub data Returned : Type 0 where
  failed : Returned
  returned : ℕ → Returned

module _ {x : Net} where
  abbrev pub start_connecting : Socket x → Socket x
  start_connecting s =
      send_syn s ▷ set_state syn_sent ▷ set_tcb (λ t. record t { ecn_state = ecn_disabled })

  -- DoConnect, by state: a new connection, nothing, or a reset of the one that exists.
  unfoldable pub connect_in : TcpState → Socket x → Socket x
  connect_in closed s = start_connecting s
  connect_in listen s = start_connecting s
  connect_in syn_sent s = start_connecting s
  connect_in last_ack s = start_connecting s
  connect_in close_wait s = start_connecting s
  connect_in time_wait s = s
  connect_in _ s = s ▷ send_rst ▷ close_and_notify

  unfoldable pub do_connect : Socket x → Socket x
  do_connect s = connect_in s.state s

  -- Connect once the end point is bound and routed.
  unfoldable pub connect : Socket x → Socket x
  connect s = do_connect (record s {
    rtt = x.rtt_reset s.rtt;
    syn_count = s.syn_retries;
    data_retr_count = s.data_retries;
  })

  unfoldable pub start_listening : Socket x → Socket x × Returned
  start_listening s =
      if is_closed s.state
      then (set_state listen s, returned 0)
      else (record s { errno = error_inval }, failed)

  -- The event of Send that runs SendPendingData is due one nanosecond later.
  abbrev pub schedule_send : Socket x → Socket x
  schedule_send s =
      if (is_established s.state || is_close_wait s.state)
        && ltb 0 (available_window s)
        && not (is_some s.send_pending_data_event)
      then record s { send_pending_data_event = some (s.now + 1) }
      else s

  abbrev pub note_app_limited : Socket x → Socket x
  note_app_limited s = record s {
    rate =
        x.rate_calculate_app_limited s.tcb.c_wnd s.tcb.bytes_in_flight s.tcb.segment_size
          (x.tx_tail_sequence s.tx_buffer) s.tcb.next_tx_sequence (x.tx_lost s.tx_buffer)
          (x.tx_retransmits_count s.tx_buffer) s.rate;
  }

  -- Send: the data goes to the buffer before the socket looks whether sending is shut down.
  unfoldable pub send : x.Packet → Socket x → Socket x × Returned
  send p s =
      let (tx, added) = x.tx_add p s.tx_buffer in
      let t = record s { tx_buffer = tx } in
      if not (is_established s.state || is_syn_sent s.state || is_close_wait s.state)
      then (record s { errno = error_notconn }, failed)
      else if not added
      then (record t { errno = error_msgsize }, failed)
      else if t.shutdown_send
      then (record t { errno = error_shutdown }, failed)
      else (schedule_send (note_app_limited t), returned (x.packet_size p))

  unfoldable pub send_pending_timeout : Socket x → Socket x
  send_pending_timeout s =
      (send_pending_data s.connected (record s { send_pending_data_event = none })).0

  -- The pacing timer runs SendPendingData.
  unfoldable pub notify_pacing_performed : Socket x → Socket x
  notify_pacing_performed s = (send_pending_data s.connected (record s { pacing_timer = none })).0

  -- Recv: the end of the stream is an empty packet.
  unfoldable pub recv : ℕ → Socket x → Socket x × Option x.Packet
  recv max_size s =
      let (rx, p) = x.rx_extract max_size s.rx_buffer in
      if x.rx_size s.rx_buffer == 0 && is_close_wait s.state
      then (s, some x.empty_packet)
      else (record s { rx_buffer = rx }, p)

  unfoldable pub connection_succeeded : Socket x → Socket x
  connection_succeeded s = notify_space (emit notify_connection_succeeded s)

  -- A larger buffer of a connected socket is told to the peer.
  unfoldable pub set_rcv_buf_size : ℕ → Socket x → Socket x
  set_rcv_buf_size size s =
      let t = record s { rx_buffer = x.rx_set_max_buffer_size size s.rx_buffer } in
      if ltb (x.rx_max_buffer_size s.rx_buffer) size && t.connected then send_ack_or_echo t else t

  unfoldable pub set_retx_thresh : ℕ → Socket x → Socket x
  set_retx_thresh n s = record s {
    retx_thresh = n;
    tx_buffer = x.tx_set_dup_ack_thresh n s.tx_buffer;
  }
