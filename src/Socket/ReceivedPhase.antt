-- ===== src/Socket/ReceivedPhase.antt =====
-- What ReceivedAck does to the phase of a connection (NS3/1705069/TaskB/tcp-socket-base.cc).
use cse_322_computer_network.Base.{ℕ, ◌+◌, ◌≤◌, ◌≡◌, arith, Bool, false, ltb, u32, ◌-◌, ap, ◌∙◌}
use cse_322_computer_network.Wire.{TcpHeader}
use cse_322_computer_network.Net.{Net}
use cse_322_computer_network.Socket.State.{Socket, ◌▷◌, set_tcb}
use cse_322_computer_network.Socket.Transmit.{note_bytes_in_flight}
use cse_322_computer_network.Socket.Loop.{send_pending_data}
use cse_322_computer_network.Socket.ProcessAck.{process_ack}
use cse_322_computer_network.Socket.ReceivedAck.{
  read_options, note_retrans_acked, leave_cwr, note_echo, run_cong_control, take_data, fresh_ack,
  received_ack,
}
use cse_322_computer_network.Socket.Phase.{
  phase, Onward, same-Onward, trans-Onward, send_pending_data-Onward,
}
use cse_322_computer_network.Socket.AckPhase.{
  process_ack-Onward, read_options-state, note_retrans_acked-state, leave_cwr-state,
  note_echo-state, run_cong_control-state,
}
use cse_322_computer_network.Socket.DataPhase.{received_data-Onward}

module _ {x : Net} where
  take_data-Onward :
      (p : x.Packet) (h : TcpHeader) (s : Socket x) → phase s.state ≤ 3 → Onward s (take_data p h s)
  take_data-Onward p h s le = ground (arith, received_data-Onward p h s le)

  -- ProcessAck and what follows it in ReceivedAck.
  rest-Onward :
      (p : x.Packet) (h : TcpHeader) (b : Bool) (delivered old l i : ℕ) (s : Socket x)
      → phase s.state ≤ 3
      → Onward s (
          process_ack h.ack_number b delivered old s
          ▷ set_tcb (λ t. record t { is_retrans_data_acked = false })
          ▷ run_cong_control delivered l i
          ▷ take_data p h
          ▷ λ u. (send_pending_data u.connected u).0)
  rest-Onward p h b delivered old l i s le =
      let a4 = process_ack h.ack_number b delivered old s in
      let k4 = process_ack-Onward h.ack_number b delivered old s in
      let a5 : Socket x = record a4 { tcb = record a4.tcb { is_retrans_data_acked = false } } in
      let a6 = run_cong_control delivered l i a5 in
      let k6 : Onward a4 a6 = same-Onward (run_cong_control-state delivered l i a5) in
      let k : Onward s a6 = trans-Onward k4 k6 in
      let a7 = take_data p h a6 in
      let k7 = take_data-Onward p h a6 (omega (arith, k.limit)) in
      trans-Onward k (trans-Onward k7 (send_pending_data-Onward a7.connected a7))

  -- ReceivedAck around ProcessAck.
  fresh_ack-Onward :
      (p : x.Packet) (h : TcpHeader) (b : Bool) (d l i : ℕ) (s : Socket x)
      → phase s.state ≤ 3
      → Onward s (fresh_ack p h b d l i s)
  unfolding fresh_ack
  fresh_ack-Onward p h b d l i s le =
      let ack = h.ack_number in
      let old = x.tx_head_sequence s.tx_buffer in
      let t = note_retrans_acked ack old s in
      let (tx, rate) = x.tx_discard_up_to ack t.tx_buffer t.rate in
      let delivered = u32 (x.rate_delivered rate + 18446744073709551616 - d) in
      let a : Socket x = record t {
        tx_buffer = tx;
        rate = rate;
        tcb = record t.tcb { last_acked_sacked_bytes = delivered };
      } in
      let a1 = leave_cwr ack a in
      let a2 = note_echo ack old h.flags.ece delivered a1 in
      let a3 : Socket x = note_bytes_in_flight a2 in
      let e : a3.state ≡ s.state =
        note_echo-state ack old h.flags.ece delivered a1
        ∙ leave_cwr-state ack a
        ∙ note_retrans_acked-state ack old s in
      let k3 : Onward s a3 = same-Onward e in
      trans-Onward k3 (rest-Onward p h b delivered old l i a3 (omega (arith, ap phase e)))

  pub received_ack-Onward :
      (p : x.Packet) (h : TcpHeader) (s : Socket x)
      → phase s.state ≤ 3
      → Onward s (received_ack p h s)
  unfolding received_ack
  received_ack-Onward p h s le =
      let (t, n) = read_options h.options 0 s in
      let e = read_options-state h.options 0 s in
      let b : phase t.state ≤ 3 = rw e le in
      ground (
        arith,
        e,
        take_data-Onward p h t b,
        fresh_ack-Onward p h (ltb 0 n) (x.rate_delivered s.rate) (x.tx_lost s.tx_buffer)
            s.tcb.bytes_in_flight t b,
      )
