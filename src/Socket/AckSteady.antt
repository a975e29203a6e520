-- ===== src/Socket/AckSteady.antt =====
-- What the calls around ProcessAck leave of the recovery (ReceivedAck of
-- NS3/1705069/TaskB/tcp-socket-base.cc).
use cse_322_computer_network.Base.{ℕ, ◌-◌, arith, Bool, false, ltb, if◌then◌else◌, List, [], ◌∷◌}
use cse_322_computer_network.Wire.{
  TcpHeader, TcpOption, win_scale, sack_permitted, sack, timestamp, other_option,
}
use cse_322_computer_network.Net.{Net}
use cse_322_computer_network.Socket.State.{Socket, has_cong_control}
use cse_322_computer_network.Socket.Loop.{send_pending_data}
use cse_322_computer_network.Socket.ReceivedAck.{
  read_options, note_retrans_acked, run_cong_control, take_data,
}
use cse_322_computer_network.Socket.Sending.{IsSending, send_pending_data-Kept}
use cse_322_computer_network.Socket.Steady.{
  IsCalm, Steady, same-Steady, trans-Steady, branch-Steady, cong_call-Steady, received_data-Steady,
}

module _ {x : Net} where
  pub read_options-Steady :
      (os : List TcpOption) (n : ℕ) (s : Socket x) → Steady s (read_options os n s).0
  unfolding read_options
  read_options-Steady [] n s = same-Steady s
  read_options-Steady (sack bs ∷ os) n s =
      let (tx, rate, m) = x.tx_update bs s.tx_buffer s.rate in
      let t : Socket x = record s { tx_buffer = tx; rate = rate } in
      let k = read_options-Steady os m t in
      record { cong_state = k.cong_state; ss_thresh = k.ss_thresh; recover = k.recover }
  read_options-Steady (win_scale _ ∷ os) n s = read_options-Steady os n s
  read_options-Steady (sack_permitted ∷ os) n s = read_options-Steady os n s
  read_options-Steady (timestamp _ _ ∷ os) n s = read_options-Steady os n s
  read_options-Steady (other_option ∷ os) n s = read_options-Steady os n s

  pub note_retrans_acked-Steady :
      (ack old : ℕ) (s : Socket x) → Steady s (note_retrans_acked ack old s)
  unfolding note_retrans_acked
  note_retrans_acked-Steady ack old s = ground arith

  pub send_pending_data-Steady :
      IsSending x → (b : Bool) (s : Socket x) → Steady s (send_pending_data b s).0
  send_pending_data-Steady laws b s =
      let k = send_pending_data-Kept b s laws in
      record { cong_state = k.cong_state; ss_thresh = k.ss_thresh; recover = k.recover }

module _ {x : Net} (calm : IsCalm x) where
  pub run_cong_control-Steady : (a b c : ℕ) (s : Socket x) → Steady s (run_cong_control a b c s)
  unfolding run_cong_control
  run_cong_control-Steady a b c s =
      let now_lost = x.tx_lost s.tx_buffer in
      let lost = if ltb b now_lost then now_lost - b else b - now_lost in
      let (rate, sample) = x.rate_generate_sample a lost false c s.tcb.min_rtt s.rate in
      let t : Socket x = record s { rate = rate } in
      let k = cong_call-Steady (x.cong.cong_control sample) t (calm.control sample) in
      branch-Steady (has_cong_control s)
        (record { cong_state = k.cong_state; ss_thresh = k.ss_thresh; recover = k.recover })
        (same-Steady s)

  pub take_data-Steady : (p : x.Packet) (h : TcpHeader) (s : Socket x) → Steady s (take_data p h s)
  take_data-Steady p h s =
      branch-Steady (ltb 0 (x.packet_size p)) (received_data-Steady calm p h s) (same-Steady s)

  -- The end of the processing: the rate sample, the data, and the data that may be sent.
  pub finished-Steady :
      IsSending x
      → (p : x.Packet) (h : TcpHeader) (a b c : ℕ) (s : Socket x)
      → let t : Socket x = record s { tcb = record s.tcb { is_retrans_data_acked = false } } in
        let u = take_data p h (run_cong_control a b c t) in
        Steady s (send_pending_data u.connected u).0
  finished-Steady laws p h a b c s =
      let t : Socket x = record s { tcb = record s.tcb { is_retrans_data_acked = false } } in
      let r = run_cong_control a b c t in
      let u = take_data p h r in
      let k : Steady s t = ground arith in
      trans-Steady k (
        trans-Steady (run_cong_control-Steady a b c t)
          (trans-Steady (take_data-Steady p h r) (send_pending_data-Steady laws u.connected u)))
