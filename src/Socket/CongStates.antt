-- ===== src/Socket/CongStates.antt =====
-- The congestion states over a whole acknowledgement, and one reduction for each window of data
-- (ReceivedAck of NS3/1705069/TaskB/tcp-socket-base.cc).
use cse_322_computer_network.Base.{
  ℕ, ◌+◌, ◌-◌, ◌≡◌, arith, Bool, true, false, not, ◌&&◌, ltb, u32, sym,
}
use cse_322_computer_network.Tcb.{
  CongState, ca_open, ca_disorder, ca_cwr, ca_recovery, ca_loss, is_cwr, complete_cwr, ecn_ece_rcvd,
}
use cse_322_computer_network.Wire.{TcpHeader}
use cse_322_computer_network.Net.{Net}
use cse_322_computer_network.Socket.State.{Socket, set_tcb, recovery_call}
use cse_322_computer_network.Socket.Transmit.{bytes_in_flight, note_bytes_in_flight}
use cse_322_computer_network.Socket.Ack.{set_ss_thresh, set_cong, enter_cwr}
use cse_322_computer_network.Socket.ProcessAck.{process_ack}
use cse_322_computer_network.Socket.ReceivedAck.{
  read_options, note_retrans_acked, leave_cwr, note_echo, fresh_ack, received_ack,
}
use cse_322_computer_network.Socket.Sending.{IsSending}
use cse_322_computer_network.Socket.Steady.{IsCalm}
use cse_322_computer_network.Socket.CongSteps.{start_recovery-Steady}
use cse_322_computer_network.Socket.CongTable.{ack_follows, process_ack-cong}
use cse_322_computer_network.Socket.AckSteady.{
  read_options-Steady, note_retrans_acked-Steady, finished-Steady, take_data-Steady,
}

-- The congestion states that may follow a state when a segment with ACK arrives.
abbrev pub cong_follows : CongState → CongState → Bool
cong_follows ca_open ca_loss = false
cong_follows ca_disorder ca_loss = false
cong_follows ca_cwr ca_loss = false
cong_follows ca_recovery ca_loss = false
cong_follows ca_recovery ca_disorder = false
cong_follows ca_loss ca_disorder = false
cong_follows ca_loss ca_recovery = false
cong_follows _ _ = true

-- What leaving CA_CWR and the echo of a mark do before ProcessAck.
abbrev mark_follows : CongState → CongState → Bool
mark_follows ca_open ca_open = true
mark_follows ca_disorder ca_disorder = true
mark_follows ca_recovery ca_recovery = true
mark_follows ca_loss ca_loss = true
mark_follows ca_cwr ca_open = true
mark_follows _ ca_cwr = true
mark_follows _ _ = false

marked_follow :
    (a b c : CongState) → mark_follows a b ≡ true → ack_follows b c ≡ true → cong_follows a c ≡ true
marked_follow a b c = ground arith

kept_follows : (a : CongState) → cong_follows a a ≡ true
kept_follows a = ground arith

abbrev leave_follows : CongState → CongState → Bool
leave_follows ca_cwr ca_open = true
leave_follows ca_cwr ca_cwr = true
leave_follows ca_cwr _ = false
leave_follows a b = mark_follows a b && not (is_cwr b)

abbrev echo_follows : CongState → CongState → Bool
echo_follows ca_cwr ca_open = false
echo_follows a b = mark_follows a b

marks_follow :
    (a b c : CongState)
    → leave_follows a b ≡ true
    → echo_follows b c ≡ true
    → mark_follows a c ≡ true
marks_follow a b c = ground arith

from_follows : (a b c : CongState) → a ≡ b → mark_follows a c ≡ true → mark_follows b c ≡ true
from_follows a b c e k = rw (sym e) k

to_follows : (a b c : CongState) → c ≡ b → cong_follows a b ≡ true → cong_follows a c ≡ true
to_follows a b c e k = rw e k

mark_table :
    (a : CongState)
    → (leave_follows a a ≡ true) × (echo_follows a a ≡ true) × (echo_follows a ca_cwr ≡ true)
mark_table a = ground arith

module _ {x : Net} (calm : IsCalm x) where
  -- The reduction: CA_CWR, with the threshold that the congestion control answers, until all data
  -- that is sent now is acknowledged.
  pub enter_cwr_lem :
      (n : ℕ) (s : Socket x)
      → let t = enter_cwr n s in
        (t.tcb.cong_state ≡ ca_cwr)
        × (t.recover ≡ s.tcb.high_tx_mark)
        × (t.tcb.ss_thresh
            ≡ x.cong.get_ss_thresh s.congestion (note_bytes_in_flight s).tcb (bytes_in_flight s))
  unfolding enter_cwr
  enter_cwr_lem n s =
      let t : Socket x = set_ss_thresh (bytes_in_flight s) (note_bytes_in_flight s) in
      let u : Socket x =
        set_tcb (λ b. record b { c_wnd_infl = b.ss_thresh; cong_state = ca_cwr }) t in
      let k = start_recovery-Steady calm n (record u { recover = u.tcb.high_tx_mark }) in
      (k.cong_state, k.recover, k.ss_thresh)

  leave_cwr-cong :
      (ack : ℕ) (s : Socket x)
      → leave_follows s.tcb.cong_state (leave_cwr ack s).tcb.cong_state ≡ true
  unfolding leave_cwr
  leave_cwr-cong ack s =
      let t : Socket x = set_cong ca_open s in
      let u : Socket x = set_tcb (λ b. record b { c_wnd = b.ss_thresh }) t in
      let v : Socket x = recovery_call x.recovery_exit u in
      ground (
        arith,
        mark_table s.tcb.cong_state,
        calm.leave u.recovery u.tcb,
        calm.event complete_cwr v.congestion v.tcb,
      )

  note_echo-cong :
      (ack old : ℕ) (b : Bool) (n : ℕ) (s : Socket x)
      → let t = note_echo ack old b n s in echo_follows s.tcb.cong_state t.tcb.cong_state ≡ true
  unfolding note_echo
  note_echo-cong ack old b n s =
      let t : Socket x = record s {
        ecn_echo_seq = ack;
        tcb = record s.tcb { ecn_state = ecn_ece_rcvd };
      } in
      ground (arith, mark_table s.tcb.cong_state, enter_cwr_lem n t)

  fresh_ack-cong :
      IsSending x
      → (p : x.Packet) (h : TcpHeader) (b : Bool) (k l m : ℕ) (s : Socket x)
      → cong_follows s.tcb.cong_state (fresh_ack p h b k l m s).tcb.cong_state ≡ true
  unfolding fresh_ack
  fresh_ack-cong laws p h b k l m s =
      let ack = h.ack_number in
      let old = x.tx_head_sequence s.tx_buffer in
      let t = note_retrans_acked ack old s in
      let (tx, rate) = x.tx_discard_up_to ack t.tx_buffer t.rate in
      let n = u32 (x.rate_delivered rate + 18446744073709551616 - k) in
      let u : Socket x = record t {
        tx_buffer = tx;
        rate = rate;
        tcb = record t.tcb { last_acked_sacked_bytes = n };
      } in
      let v : Socket x = leave_cwr ack u in
      let w : Socket x = note_bytes_in_flight (note_echo ack old h.flags.ece n v) in
      let z : Socket x = process_ack ack b n old w in
      let e = note_retrans_acked-Steady ack old s in
      let f = finished-Steady calm laws p h n l m z in
      let m : mark_follows s.tcb.cong_state w.tcb.cong_state ≡ true =
        from_follows t.tcb.cong_state s.tcb.cong_state w.tcb.cong_state e.cong_state (
          marks_follow u.tcb.cong_state v.tcb.cong_state w.tcb.cong_state (leave_cwr-cong ack u)
            (note_echo-cong ack old h.flags.ece n v)) in
      to_follows s.tcb.cong_state z.tcb.cong_state _ f.cong_state (
        marked_follow s.tcb.cong_state w.tcb.cong_state z.tcb.cong_state m
          (process_ack-cong calm ack b n old w))

  -- ReceivedAck keeps to the table cong_follows of the congestion states that may follow a state,
  -- for every state, segment and option: CA_LOSS is never entered, CA_RECOVERY and CA_LOSS do not
  -- lead to CA_DISORDER, and CA_LOSS does not lead to CA_RECOVERY; if the code of ns-3 leaves the
  -- congestion state to the socket (IsCalm) and the sending laws of IsSending hold.
  pub received_ack-follows :
      IsSending x
      → (p : x.Packet) (h : TcpHeader) (s : Socket x)
      → cong_follows s.tcb.cong_state (received_ack p h s).tcb.cong_state ≡ true
  unfolding received_ack
  received_ack-follows laws p h s =
      let (t, n) = read_options h.options 0 s in
      let e = read_options-Steady h.options 0 s in
      let d = take_data-Steady calm p h t in
      let k =
        fresh_ack-cong laws p h (ltb 0 n) (x.rate_delivered s.rate) (x.tx_lost s.tx_buffer)
          s.tcb.bytes_in_flight t in
      ground (arith, e.cong_state, d.cong_state, k, kept_follows s.tcb.cong_state)
