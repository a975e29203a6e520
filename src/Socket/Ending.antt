-- ===== src/Socket/Ending.antt =====
-- The state machine for a segment that arrives while a connection ends: ProcessWait, ProcessClosing
-- and ProcessLastAck (NS3/1705069/TaskB/tcp-socket-base.cc).
use cse_322_computer_network.Base.{Bool, not, ◌&&◌, ◌||◌, ltb, ◌==◌, if◌then◌else◌}
use cse_322_computer_network.Wire.{
  no_flags, flag_fin, flag_rst, flag_ack, flag_fin_ack, flags_eq, without_psh_urg, without_extras,
  TcpHeader, notify_data_recv,
}
use cse_322_computer_network.Net.{Net}
use cse_322_computer_network.Socket.State.{
  fin_wait_2, closing, is_fin_wait_1, is_fin_wait_2, Socket, emit, set_state,
}
use cse_322_computer_network.Socket.Send.{close_and_notify, send_empty_packet, send_rst}
use cse_322_computer_network.Socket.Close.{enter_time_wait}
use cse_322_computer_network.Socket.Receive.{received_data}
use cse_322_computer_network.Socket.ReceivedAck.{received_ack}
use cse_322_computer_network.Socket.Process.{is_fin, is_syn, reject}

module _ {x : Net} where
  -- The acknowledgement of the FIN that was sent.
  abbrev pub acks_fin : TcpHeader → Socket x → Bool
  acks_fin header s =
      x.tx_size s.tx_buffer == 0 && header.ack_number == x.seq.add s.tcb.high_tx_mark 1

  -- The end of ProcessWait: the peer's FIN is in sequence.
  unfoldable pub wait_finished : TcpHeader → Socket x → Socket x
  wait_finished header s =
      let waited =
        if is_fin_wait_1 s.state
        then (if acks_fin header s
            then enter_time_wait (set_state closing s)
            else set_state closing s)
        else enter_time_wait s in
      let t = send_empty_packet flag_ack waited in
      let waiting = is_fin_wait_1 s.state || is_fin_wait_2 s.state in
      if not (waiting && x.rx_finished s.rx_buffer)
      then s
      else if t.shutdown_recv
      then t
      else emit notify_data_recv t

  unfoldable pub wait_ack : x.Packet → TcpHeader → Socket x → Socket x
  wait_ack p header s =
      let t = received_ack p header s in
      if is_fin_wait_1 t.state && acks_fin header t then set_state fin_wait_2 t else t

  unfoldable pub wait_fin : x.Packet → TcpHeader → Bool → Socket x → Socket x
  wait_fin p header with_ack s =
      let t = if with_ack then received_ack p header s else s in
      record t { rx_buffer = x.rx_set_fin_sequence header.seq t.rx_buffer }

  unfoldable pub process_wait : x.Packet → TcpHeader → Socket x → Socket x
  process_wait p header s =
      let f = without_extras header.flags in
      if ltb 0 (x.packet_size p) && not f.ack
      then wait_finished header (received_data p header s)
      else if flags_eq f flag_ack
      then wait_finished header (wait_ack p header s)
      else if is_fin f
      then wait_finished header (wait_fin p header f.ack s)
      else if is_syn f
      then s
      else reject f s

  unfoldable pub process_closing : TcpHeader → Socket x → Socket x
  process_closing header s =
      let f = without_psh_urg header.flags in
      if flags_eq f flag_ack
      then (if header.seq == x.rx_next_sequence s.rx_buffer then enter_time_wait s else s)
      else if is_fin f
      then close_and_notify (send_empty_packet flag_ack s)
      else reject f s

  unfoldable pub process_last_ack : x.Packet → TcpHeader → Socket x → Socket x
  process_last_ack p header s =
      let f = without_psh_urg header.flags in
      if flags_eq f no_flags
      then received_data p header s
      else if flags_eq f flag_ack
      then (if header.seq == x.rx_next_sequence s.rx_buffer then close_and_notify s else s)
      else if flags_eq f flag_fin
      then send_empty_packet flag_fin_ack s
      else if flags_eq f flag_fin_ack || flags_eq f flag_rst
      then close_and_notify s
      else close_and_notify (send_rst s)
