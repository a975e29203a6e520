-- ===== src/Socket/Losses.antt =====
-- CA_LOSS over the course of a connection (NS3/1705069/TaskB/tcp-socket-base.cc).
use cse_322_computer_network.Base.{
  ℕ, ◌+◌, ◌-◌, ◌<◌, ◌≡◌, refl, arith, Bool, true, false, not, ◌==◌, if◌then◌else◌, none,
}
use cse_322_computer_network.Tcb.{is_loss, delayed_ack}
use cse_322_computer_network.Wire.{Flags, flag_fin, flag_fin_ack, notify_error_close}
use cse_322_computer_network.Net.{Net}
use cse_322_computer_network.Socket.State.{Socket, emit, cong_call, is_last_ack}
use cse_322_computer_network.Socket.Send.{send_empty_packet, note_adv_wnd}
use cse_322_computer_network.Socket.Close.{shutdown_send, shutdown_recv, arm_last_ack}
use cse_322_computer_network.Socket.Loop.{send_pending_data}
use cse_322_computer_network.Socket.Timeouts.{
  drop_connection, send_empty_timeout, del_ack_timeout, last_ack_timeout, persist_timeout,
}
use cse_322_computer_network.Socket.Api.{
  send, recv, send_pending_timeout, notify_pacing_performed, connection_succeeded,
}
use cse_322_computer_network.Socket.Sending.{IsSending}
use cse_322_computer_network.Socket.Steady.{
  IsCalm, close-Steady, close_and_notify-Steady, deallocate-Steady, send_empty_packet-Steady,
  send_ack_or_echo-Steady,
}
use cse_322_computer_network.Socket.Spared.{
  Spared, spares, same-Spared, Steady-Spared, trans-Spared, branch-Spared, still,
  send_empty_packet-Spared, sent-Spared,
}
use cse_322_computer_network.Socket.SparedInput.{
  event-Spared, forward_up-Spared, forward_up6-Spared,
}
use cse_322_computer_network.Socket.Steps.{
  Step, time_passes, segment, segment6, sends, receives, closes, shuts_send, shuts_recv, succeeds,
  retransmission, repetition, pending_data, paced, delayed, last_call, probe, waited, Reaches,
  start, later,
}

uncounted : (b : Bool) (n : ℕ) → (if b then n + 1 else n) ≡ 0 → (b ≡ false) × (n ≡ 0)
uncounted b n = ground arith

module _ {x : Net} where
  abbrev pub is_retransmission : {s t : Socket x} → Step s t → Bool
  is_retransmission (retransmission due) = true
  is_retransmission _ = false

  -- How often the retransmission timer of ReTxTimeout ran.
  unfoldable pub retransmissions : {s t : Socket x} → Reaches s t → ℕ
  retransmissions start = 0
  retransmissions (later c st) =
      if is_retransmission st then retransmissions c + 1 else retransmissions c

  send-Spared : (p : x.Packet) (s : Socket x) → Spared s (send p s).0
  unfolding send
  send-Spared p s = same-Spared s _ (ground arith)

  recv-Spared : (n : ℕ) (s : Socket x) → Spared s (recv n s).0
  unfolding recv
  recv-Spared n s = same-Spared s _ (ground arith)

  succeeded-Spared : (s : Socket x) → Spared s (connection_succeeded s)
  unfolding connection_succeeded
  succeeded-Spared s = same-Spared s _ (ground arith)

  persist_timeout-Spared : (s : Socket x) → Spared s (persist_timeout s)
  unfolding persist_timeout note_adv_wnd
  persist_timeout-Spared s = same-Spared s _ (ground arith)

  drop-Spared : (s : Socket x) → Spared s (drop_connection s)
  unfolding drop_connection
  drop-Spared s =
      let t : Socket x = emit notify_error_close s in
      trans-Spared (same-Spared s t refl) (Steady-Spared (deallocate-Steady t))

  shutdown_send-Spared : (s : Socket x) → Spared s (shutdown_send s)
  unfolding shutdown_send
  shutdown_send-Spared s =
      let t : Socket x = record s { shutdown_send = true; close_on_empty = true } in
      let k = send_empty_packet-Steady flag_fin t in same-Spared s _ (ground (arith, k.cong_state))

  last_ack_timeout-Spared : (s : Socket x) → Spared s (last_ack_timeout s)
  unfolding last_ack_timeout
  last_ack_timeout-Spared s =
      let u : Socket x = record s { last_ack_event = none } in
      let t : Socket x = record u { data_retr_count = s.data_retr_count - 1 } in
      let v : Socket x = send_empty_packet flag_fin_ack t in
      let k : Spared s u = same-Spared s u refl in
      let l : Spared u t = same-Spared u t refl in
      branch-Spared (not (is_last_ack s.state)) k (
        branch-Spared (s.data_retr_count == 0) (trans-Spared k (drop-Spared u)) (
          trans-Spared k (
            trans-Spared l (
              trans-Spared (send_empty_packet-Spared flag_fin_ack t)
                (same-Spared v (arm_last_ack v) refl)))))

  send_empty_timeout-Spared : (f : Flags) (s : Socket x) → Spared s (send_empty_timeout f s)
  unfolding send_empty_timeout
  send_empty_timeout-Spared f s =
      let t : Socket x = record s { retx_event = none } in
      trans-Spared (same-Spared s t refl) (send_empty_packet-Spared f t)

module _ {x : Net} (calm : IsCalm x) (laws : IsSending x) where
  del_ack_timeout-Spared : (s : Socket x) → Spared s (del_ack_timeout s)
  unfolding del_ack_timeout
  del_ack_timeout-Spared s =
      let t : Socket x = record s { del_ack_event = none; del_ack_count = 0 } in
      let u : Socket x = cong_call (x.cong.cwnd_event delayed_ack) t in
      trans-Spared (same-Spared s t refl) (
        trans-Spared (event-Spared calm laws delayed_ack t)
          (Steady-Spared (send_ack_or_echo-Steady u)))

  flush-Spared :
      (s t : Socket x)
      → t.tcb.cong_state ≡ s.tcb.cong_state
      → Spared s (send_pending_data t.connected t).0
  flush-Spared s t e = trans-Spared (same-Spared s t e) (sent-Spared calm laws t.connected t)

  Step-Spared : {s t : Socket x} (st : Step s t) → is_retransmission st ≡ false → Spared s t
  unfolding shutdown_recv send_pending_timeout notify_pacing_performed
  Step-Spared {s} (time_passes n) e = same-Spared s _ refl
  Step-Spared {s} (segment p h size ecn accepts peer) e =
      forward_up-Spared calm laws p h size ecn accepts peer s
  Step-Spared {s} (segment6 p h size ecn accepts peer) e =
      forward_up6-Spared calm laws p h size ecn accepts peer s
  Step-Spared {s} (sends p) e = send-Spared p s
  Step-Spared {s} (receives n) e = recv-Spared n s
  Step-Spared {s} closes e = Steady-Spared (close-Steady s)
  Step-Spared {s} shuts_send e = shutdown_send-Spared s
  Step-Spared {s} shuts_recv e = same-Spared s _ refl
  Step-Spared {s} succeeds e = succeeded-Spared s
  Step-Spared {s} (retransmission due) e = ground (arith, e)
  Step-Spared {s} (repetition f due) e = send_empty_timeout-Spared f s
  Step-Spared {s} (pending_data due) e = flush-Spared s _ refl
  Step-Spared {s} (paced due) e = flush-Spared s _ refl
  Step-Spared {s} (delayed due) e = del_ack_timeout-Spared s
  Step-Spared {s} (last_call due) e = last_ack_timeout-Spared s
  Step-Spared {s} (probe due) e = persist_timeout-Spared s
  Step-Spared {s} (waited due) e = Steady-Spared (close_and_notify-Steady s)

  Reaches-Spared : {s t : Socket x} (c : Reaches s t) → retransmissions c ≡ 0 → Spared s t
  unfolding retransmissions
  Reaches-Spared {s} start e = still s
  Reaches-Spared (later c st) e =
      let (b, z) = uncounted (is_retransmission st) (retransmissions c) e in
      trans-Spared (Reaches-Spared c z) (Step-Spared st b)

  -- A connection that is not in CA_LOSS and comes to CA_LOSS has had its retransmission timer run
  -- out: no segment, over IPv4 or IPv6, no passing of time, no call of Send, Recv, Close,
  -- ShutdownSend and ShutdownRecv, no report of the connection and no other timer leads there; if
  -- the code of ns-3 leaves the congestion state to the socket (IsCalm) and the sending laws of
  -- IsSending hold.
  pub loss_needs_timeout :
      {s t : Socket x} (c : Reaches s t)
      → is_loss s.tcb.cong_state ≡ false
      → is_loss t.tcb.cong_state ≡ true
      → 0 < retransmissions c
  loss_needs_timeout {s} {t} c e f =
      let k : retransmissions c ≡ 0 → spares s.tcb.cong_state t.tcb.cong_state ≡ true =
        λ z. (Reaches-Spared c z).kept in
      ground (arith, k)
