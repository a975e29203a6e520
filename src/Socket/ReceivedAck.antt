-- ===== src/Socket/ReceivedAck.antt =====
-- ReceivedAck: the options, the marks, and the calls around ProcessAck
-- (NS3/1705069/TaskB/tcp-socket-base.cc).
use cse_322_computer_network.Base.{
  ℕ, zero, suc, ◌+◌, ◌-◌, ◌/◌, Bool, true, false, not, ◌&&◌, ◌||◌, ltb, if◌then◌else◌, mul32, u32,
  List, [], ◌∷◌,
}
use cse_322_computer_network.Sequence.{gt}
use cse_322_computer_network.Tcb.{
  ca_open, is_cwr, is_recovery, ecn_ece_rcvd, ecn_idle, is_ecn_disabled, is_ece_rcvd, complete_cwr,
}
use cse_322_computer_network.Wire.{
  TcpHeader, TcpOption, win_scale, sack_permitted, sack, timestamp, other_option,
}
use cse_322_computer_network.Net.{Net}
use cse_322_computer_network.Socket.State.{
  Socket, ◌▷◌, set_tcb, cong_call, recovery_call, has_cong_control,
}
use cse_322_computer_network.Socket.Transmit.{note_bytes_in_flight}
use cse_322_computer_network.Socket.Loop.{send_pending_data}
use cse_322_computer_network.Socket.Receive.{received_data}
use cse_322_computer_network.Socket.Ack.{set_cong, enter_cwr}
use cse_322_computer_network.Socket.ProcessAck.{process_ack}

module _ {x : Net} where
  -- ReadOptions: each SACK option updates the scoreboard, and the last one gives the bytes.
  unfoldable pub read_options : List TcpOption → ℕ → Socket x → Socket x × ℕ
  read_options [] bytes s = (s, bytes)
  read_options (sack blocks ∷ os) bytes s =
      let (tx, rate, n) = x.tx_update blocks s.tx_buffer s.rate in
      read_options os n (record s { tx_buffer = tx; rate = rate })
  read_options (win_scale _ ∷ os) bytes s = read_options os bytes s
  read_options (sack_permitted ∷ os) bytes s = read_options os bytes s
  read_options (timestamp _ _ ∷ os) bytes s = read_options os bytes s
  read_options (other_option ∷ os) bytes s = read_options os bytes s

  -- Whether one of the last `n` whole segments below the acknowledgement was sent again.
  unfoldable pub any_retrans_acked : ℕ → ℕ → Socket x → Bool
  any_retrans_acked zero ack s = false
  any_retrans_acked (suc i) ack s =
      x.tx_is_retransmitted_data_acked (x.seq.back ack (mul32 i s.tcb.segment_size)) s.tx_buffer
      || any_retrans_acked i ack s

  unfoldable pub note_retrans_acked : ℕ → ℕ → Socket x → Socket x
  note_retrans_acked ack old s =
      if gt x.seq ack old
        && x.seq.lt ack s.recover
        && is_recovery s.tcb.cong_state
        && any_retrans_acked (x.seq.sub ack old / s.tcb.segment_size) ack s
      then set_tcb (λ t. record t { is_retrans_data_acked = true }) s
      else s

  -- CA_CWR ends when the acknowledgement passes the recovery point.
  unfoldable pub leave_cwr : ℕ → Socket x → Socket x
  leave_cwr ack s =
      let t = set_cong ca_open s in
      if not (is_cwr s.tcb.cong_state && gt x.seq ack s.recover)
      then s
      else if has_cong_control t
      then t
      else set_tcb (λ b. record b { c_wnd = b.ss_thresh }) t
        ▷ recovery_call x.recovery_exit
        ▷ cong_call (x.cong.cwnd_event complete_cwr)

  -- The echo of a congestion mark is answered once for each window of data.
  unfoldable pub note_echo : ℕ → ℕ → Bool → ℕ → Socket x → Socket x
  note_echo ack old ece delivered s =
      let t : Socket x =
        set_tcb (λ b. record b { ecn_state = ecn_ece_rcvd }) (record s { ecn_echo_seq = ack }) in
      if gt x.seq ack old && not (is_ecn_disabled s.tcb.ecn_state) && ece
      then (if not (x.seq.lt s.ecn_echo_seq ack)
          then s
          else if is_cwr t.tcb.cong_state
          then t
          else enter_cwr delivered t)
      else if is_ece_rcvd s.tcb.ecn_state && not ece
      then set_tcb (λ b. record b { ecn_state = ecn_idle }) s
      else s

  -- `CongControl` gets a sample of the rate, with the change of the lost bytes as a distance.
  unfoldable pub run_cong_control : ℕ → ℕ → ℕ → Socket x → Socket x
  run_cong_control delivered previous_lost prior_in_flight s =
      let now_lost = x.tx_lost s.tx_buffer in
      let lost =
        if ltb previous_lost now_lost then now_lost - previous_lost else previous_lost - now_lost in
      let (rate, sample) =
        x.rate_generate_sample delivered lost false prior_in_flight s.tcb.min_rtt s.rate in
      if has_cong_control s
      then cong_call (x.cong.cong_control sample) (record s { rate = rate })
      else s

  abbrev pub take_data : x.Packet → TcpHeader → Socket x → Socket x
  take_data p header s = if ltb 0 (x.packet_size p) then received_data p header s else s

  -- ReceivedAck for an acknowledgement that is not stale. The count of delivered bytes is a
  -- uint64_t.
  unfoldable pub fresh_ack : x.Packet → TcpHeader → Bool → ℕ → ℕ → ℕ → Socket x → Socket x
  fresh_ack p header sacked previous_delivered previous_lost prior_in_flight s =
      let ack = header.ack_number in
      let old = x.tx_head_sequence s.tx_buffer in
      let t = note_retrans_acked ack old s in
      let (tx, rate) = x.tx_discard_up_to ack t.tx_buffer t.rate in
      let delivered = u32 (x.rate_delivered rate + 18446744073709551616 - previous_delivered) in
      record t { tx_buffer = tx; rate = rate }
      ▷ set_tcb (λ b. record b { last_acked_sacked_bytes = delivered })
      ▷ leave_cwr ack
      ▷ note_echo ack old header.flags.ece delivered
      ▷ note_bytes_in_flight
      ▷ process_ack ack sacked delivered old
      ▷ set_tcb (λ b. record b { is_retrans_data_acked = false })
      ▷ run_cong_control delivered previous_lost prior_in_flight
      ▷ take_data p header
      ▷ λ s. (send_pending_data s.connected s).0

  unfoldable pub received_ack : x.Packet → TcpHeader → Socket x → Socket x
  received_ack p header s =
      let (t, bytes_sacked) = read_options header.options 0 s in
      if x.seq.lt header.ack_number (x.tx_head_sequence t.tx_buffer)
      then take_data p header t
      else fresh_ack p header (ltb 0 bytes_sacked) (x.rate_delivered s.rate) (x.tx_lost s.tx_buffer)
          s.tcb.bytes_in_flight t
