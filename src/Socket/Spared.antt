-- ===== src/Socket/Spared.antt =====
-- The handlers of arriving segments against CA_LOSS (NS3/1705069/TaskB/tcp-socket-base.cc).
use cse_322_computer_network.Base.{
  ◌≡◌, refl, arith, Bool, true, false, not, ◌&&◌, ◌||◌, ltb, ◌==◌, if◌then◌else◌,
}
use cse_322_computer_network.Sequence.{gt}
use cse_322_computer_network.Tcb.{CongState, ca_open, is_loss, ecn_disabled}
use cse_322_computer_network.Wire.{
  Flags, no_flags, flag_fin, flag_rst, flag_ack, flag_fin_ack, flag_syn_ack, flag_syn_ack_ece,
  flags_eq, without_psh_urg, without_extras, TcpHeader,
}
use cse_322_computer_network.Net.{Net}
use cse_322_computer_network.Socket.State.{fin_wait_2, closing, Socket, set_state, is_fin_wait_1}
use cse_322_computer_network.Socket.Send.{
  note_adv_wnd, send_rst, close_and_notify, send_empty_packet, cancel_all_timers,
}
use cse_322_computer_network.Socket.Close.{enter_time_wait, do_peer_close}
use cse_322_computer_network.Socket.Receive.{received_data, peer_close}
use cse_322_computer_network.Socket.Loop.{send_pending_data}
use cse_322_computer_network.Socket.ReceivedAck.{received_ack}
use cse_322_computer_network.Socket.Process.{
  reject, established_ack, established_data, process_established, process_listen, answer_syn,
  establish, take_syn_sequence, is_fin, is_syn,
}
use cse_322_computer_network.Socket.Ending.{
  process_wait, process_closing, process_last_ack, wait_finished, wait_ack, wait_fin, acks_fin,
}
use cse_322_computer_network.Socket.Input.{refuse}
use cse_322_computer_network.Socket.Sending.{IsSending}
use cse_322_computer_network.Socket.Steady.{
  IsCalm, Steady, send_rst-Steady, close_and_notify-Steady, send_empty_packet-Steady,
  send_ack_or_echo-Steady, do_peer_close-Steady, received_data-Steady,
}
use cse_322_computer_network.Socket.AckSteady.{send_pending_data-Steady}
use cse_322_computer_network.Socket.CongStates.{cong_follows, received_ack-follows}

abbrev pub spares : CongState → CongState → Bool
spares a b = not (is_loss b) || is_loss a

follows_spares : (a b : CongState) → cong_follows a b ≡ true → spares a b ≡ true
follows_spares a b = ground arith

same_spares : (a b : CongState) → b ≡ a → spares a b ≡ true
same_spares a b = ground arith

open_spares : (a b : CongState) → b ≡ ca_open → spares a b ≡ true
open_spares a b = ground arith

spares_trans : (a b c : CongState) → spares a b ≡ true → spares b c ≡ true → spares a c ≡ true
spares_trans a b c = ground arith

module _ {x : Net} where
  -- CA_LOSS is not entered.
  pub record Spared (s t : Socket x) : Type 0 where
    pub kept : spares s.tcb.cong_state t.tcb.cong_state ≡ true

  pub same-Spared : (s t : Socket x) → t.tcb.cong_state ≡ s.tcb.cong_state → Spared s t
  same-Spared s t e = record { kept = same_spares s.tcb.cong_state t.tcb.cong_state e }

  pub Steady-Spared : {s t : Socket x} → Steady s t → Spared s t
  Steady-Spared {s} {t} k = same-Spared s t k.cong_state

  pub trans-Spared : {s t u : Socket x} → Spared s t → Spared t u → Spared s u
  trans-Spared {s} {t} {u} k l = record {
    kept = spares_trans s.tcb.cong_state t.tcb.cong_state u.tcb.cong_state k.kept l.kept;
  }

  pub branch-Spared :
      (b : Bool) {s t u : Socket x} → Spared s t → Spared s u → Spared s (if b then t else u)
  branch-Spared true k l = k
  branch-Spared false k l = l

  pub still : (s : Socket x) → Spared s s
  still s = same-Spared s s refl

  pub send_empty_packet-Spared : (f : Flags) (s : Socket x) → Spared s (send_empty_packet f s)
  send_empty_packet-Spared f s = Steady-Spared (send_empty_packet-Steady f s)

  -- A reset for what is no reset itself, and the end.
  pub refused-Spared :
      (b : Bool) (s t : Socket x)
      → t.tcb.cong_state ≡ s.tcb.cong_state
      → Spared s (close_and_notify (if b then s else send_rst t))
  refused-Spared b s t e =
      let u : Socket x = if b then s else send_rst t in
      trans-Spared
        (branch-Spared b (still s)
          (trans-Spared (same-Spared s t e) (Steady-Spared (send_rst-Steady t))))
        (Steady-Spared (close_and_notify-Steady u))

  pub reject-Spared : (f : Flags) (s : Socket x) → Spared s (reject f s)
  unfolding reject
  reject-Spared f s = refused-Spared (flags_eq f flag_rst) s s refl

  time_wait-Spared : (s : Socket x) → Spared s (enter_time_wait s)
  unfolding enter_time_wait cancel_all_timers
  time_wait-Spared s = same-Spared s _ (ground arith)

  wait_finished-cong :
      (h : TcpHeader) (s : Socket x) → (wait_finished h s).tcb.cong_state ≡ s.tcb.cong_state
  unfolding wait_finished enter_time_wait cancel_all_timers
  wait_finished-cong h s =
      let c : Socket x = set_state closing s in
      let k = send_empty_packet-Steady flag_ack c in
      let l = send_empty_packet-Steady flag_ack (enter_time_wait c) in
      let m = send_empty_packet-Steady flag_ack (enter_time_wait s) in
      ground (arith, k.cong_state, l.cong_state, m.cong_state)

  pub wait_finished-Spared : (h : TcpHeader) (s : Socket x) → Spared s (wait_finished h s)
  wait_finished-Spared h s = same-Spared s (wait_finished h s) (wait_finished-cong h s)

  pub process_closing-Spared : (h : TcpHeader) (s : Socket x) → Spared s (process_closing h s)
  unfolding process_closing
  process_closing-Spared h s =
      let f = without_psh_urg h.flags in
      let t : Socket x = send_empty_packet flag_ack s in
      branch-Spared (flags_eq f flag_ack)
        (branch-Spared (h.seq == x.rx_next_sequence s.rx_buffer) (time_wait-Spared s) (still s))
        (branch-Spared (is_fin f)
          (trans-Spared (send_empty_packet-Spared flag_ack s)
            (Steady-Spared (close_and_notify-Steady t)))
          (reject-Spared f s))

  pub process_listen-Spared :
      (b : Bool) (h : TcpHeader) (s : Socket x) → Spared s (process_listen b h s)
  unfolding process_listen
  process_listen-Spared b h s = same-Spared s _ (ground arith)

  refuse-cong : (h : TcpHeader) (s : Socket x) → (refuse h s).tcb.cong_state ≡ s.tcb.cong_state
  unfolding refuse note_adv_wnd
  refuse-cong h s = ground arith

  pub refuse-Spared : (h : TcpHeader) (s : Socket x) → Spared s (refuse h s)
  refuse-Spared h s = same-Spared s (refuse h s) (refuse-cong h s)

  pub take_syn-cong : (s : Socket x) → (take_syn_sequence s).tcb.cong_state ≡ s.tcb.cong_state
  unfolding take_syn_sequence
  take_syn-cong s = refl

  -- The connection starts in CA_OPEN.
  pub establish-Spared : (s : Socket x) → Spared s (establish s)
  unfolding establish
  establish-Spared s = record { kept = open_spares s.tcb.cong_state _ refl }

  pub answer_syn-Spared : (f : Flags) (s : Socket x) → Spared s (answer_syn f s)
  unfolding answer_syn
  answer_syn-Spared f s =
      let t : Socket x = record s { tcb = record s.tcb { ecn_state = ecn_disabled } } in
      let k = send_empty_packet-Steady flag_syn_ack t in
      let l = send_empty_packet-Steady flag_syn_ack_ece s in
      same-Spared s _ (ground (arith, k.cong_state, l.cong_state))

module _ {x : Net} (calm : IsCalm x) (laws : IsSending x) where
  pub data-Spared : (p : x.Packet) (h : TcpHeader) (s : Socket x) → Spared s (received_data p h s)
  data-Spared p h s = Steady-Spared (received_data-Steady calm p h s)

  pub ack-Spared : (p : x.Packet) (h : TcpHeader) (s : Socket x) → Spared s (received_ack p h s)
  ack-Spared p h s = record {
    kept = follows_spares s.tcb.cong_state _ (received_ack-follows calm laws p h s);
  }

  pub sent-Spared : (b : Bool) (s : Socket x) → Spared s (send_pending_data b s).0
  sent-Spared b s = Steady-Spared (send_pending_data-Steady laws b s)

  do_close-Spared : (s : Socket x) → Spared s (do_peer_close s)
  do_close-Spared s = Steady-Spared (do_peer_close-Steady s)

  pub peer_close-Spared :
      (p : x.Packet) (h : TcpHeader) (s : Socket x) → Spared s (peer_close p h s)
  unfolding peer_close
  peer_close-Spared p h s =
      let size = x.packet_size p in
      let t : Socket x = record s {
        rx_buffer = x.rx_set_fin_sequence (x.seq.add h.seq size) s.rx_buffer;
      } in
      let u : Socket x = if size == 0 then t else received_data p h t in
      let k : Spared s t = same-Spared s t refl in
      let l : Spared t u = branch-Spared (size == 0) (still t) (data-Spared p h t) in
      let m : Spared s u = trans-Spared k l in
      let c : Spared s (set_state closing u) =
        trans-Spared m (same-Spared u (set_state closing u) refl) in
      branch-Spared
        (x.seq.lt h.seq (x.rx_next_sequence s.rx_buffer)
          || gt x.seq h.seq (x.rx_max_sequence s.rx_buffer))
        (still s)
        (branch-Spared (not (x.rx_finished u.rx_buffer)) m
          (branch-Spared (is_fin_wait_1 u.state) c (trans-Spared m (do_close-Spared u))))

  pub process_established-Spared :
      (p : x.Packet) (h : TcpHeader) (s : Socket x) → Spared s (process_established p h s)
  unfolding process_established established_ack established_data
  process_established-Spared p h s =
      let f = without_extras h.flags in
      let t : Socket x = received_data p h s in
      let d = data-Spared p h s in
      branch-Spared (flags_eq f flag_ack)
        (branch-Spared (x.seq.lt h.ack_number (x.tx_head_sequence s.tx_buffer)) (still s) (
          branch-Spared (gt x.seq h.ack_number s.tcb.high_tx_mark)
            (Steady-Spared (send_ack_or_echo-Steady s)) (ack-Spared p h s)))
        (branch-Spared (is_syn f) (still s) (
          branch-Spared (is_fin f) (peer_close-Spared p h s) (
            branch-Spared (flags_eq f no_flags)
              (branch-Spared (x.rx_finished t.rx_buffer) (trans-Spared d (peer_close-Spared p h t))
                d)
              (reject-Spared f s))))

  wait_ack-Spared : (p : x.Packet) (h : TcpHeader) (s : Socket x) → Spared s (wait_ack p h s)
  unfolding wait_ack
  wait_ack-Spared p h s =
      let t : Socket x = received_ack p h s in
      let k = ack-Spared p h s in
      branch-Spared (is_fin_wait_1 t.state && acks_fin h t)
        (trans-Spared k (same-Spared t (set_state fin_wait_2 t) refl)) k

  wait_fin-Spared :
      (p : x.Packet) (h : TcpHeader) (b : Bool) (s : Socket x) → Spared s (wait_fin p h b s)
  unfolding wait_fin
  wait_fin-Spared p h b s =
      let t : Socket x = if b then received_ack p h s else s in
      let k : Spared s t = branch-Spared b (ack-Spared p h s) (still s) in
      trans-Spared k (same-Spared t _ refl)

  pub process_wait-Spared :
      (p : x.Packet) (h : TcpHeader) (s : Socket x) → Spared s (process_wait p h s)
  unfolding process_wait
  process_wait-Spared p h s =
      let f = without_extras h.flags in
      branch-Spared (ltb 0 (x.packet_size p) && not f.ack)
        (trans-Spared (data-Spared p h s) (wait_finished-Spared h (received_data p h s)))
        (branch-Spared (flags_eq f flag_ack)
          (trans-Spared (wait_ack-Spared p h s) (wait_finished-Spared h (wait_ack p h s)))
          (branch-Spared (is_fin f)
            (trans-Spared (wait_fin-Spared p h f.ack s)
              (wait_finished-Spared h (wait_fin p h f.ack s)))
            (branch-Spared (is_syn f) (still s) (reject-Spared f s))))

  pub process_last_ack-Spared :
      (p : x.Packet) (h : TcpHeader) (s : Socket x) → Spared s (process_last_ack p h s)
  unfolding process_last_ack
  process_last_ack-Spared p h s =
      let f = without_psh_urg h.flags in
      let c = Steady-Spared (close_and_notify-Steady s) in
      branch-Spared (flags_eq f no_flags) (data-Spared p h s) (
        branch-Spared (flags_eq f flag_ack)
          (branch-Spared (h.seq == x.rx_next_sequence s.rx_buffer) c (still s))
          (branch-Spared (flags_eq f flag_fin) (send_empty_packet-Spared flag_fin_ack s) (
            branch-Spared (flags_eq f flag_fin_ack || flags_eq f flag_rst) c
              (refused-Spared false s s refl))))
