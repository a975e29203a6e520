-- ===== src/Socket/StepKeeps.antt =====
-- Every step of a connection against an order of the states
-- (NS3/1705069/TaskB/tcp-socket-base.cc).
use cse_322_computer_network.Base.{ℕ, ◌≡◌, ◌-◌, refl, arith, Bool, true, none, ◌==◌}
use cse_322_computer_network.Tcb.{delayed_ack}
use cse_322_computer_network.Wire.{
  Flags, flag_fin, flag_syn, flag_syn_ece_cwr, flag_fin_ack, notify_error_close,
}
use cse_322_computer_network.Net.{Net}
use cse_322_computer_network.Socket.State.{
  TcpState, close_wait, last_ack, established, syn_rcvd, fin_wait_1, Socket, emit, cong_call,
}
use cse_322_computer_network.Socket.Send.{send_rst, note_adv_wnd}
use cse_322_computer_network.Socket.Close.{close_in, do_close, close, shutdown_send, shutdown_recv}
use cse_322_computer_network.Socket.Timeouts.{
  send_syn, drop_connection, enter_loss, retransmit_data, re_tx_timeout, send_empty_timeout,
  del_ack_timeout, last_ack_timeout, persist_timeout,
}
use cse_322_computer_network.Socket.Api.{
  send, recv, send_pending_timeout, notify_pacing_performed, connection_succeeded,
}
use cse_322_computer_network.Socket.Loop.{send_pending_data}
use cse_322_computer_network.Socket.Phase.{send_pending_data-Onward}
use cse_322_computer_network.Socket.DataPhase.{
  send_empty_packet-state, deallocate_end_point-state, send_ack_or_echo-state, send_rst-state,
  close_and_notify-state,
}
use cse_322_computer_network.Socket.Keeps.{
  IsOrder, Keeps, same-Keeps, trans-Keeps, Onward-Keeps, closed-Keeps, branch-Keeps,
  send_empty_packet-Keeps, forward_up-Keeps, forward_up6-Keeps,
}
use cse_322_computer_network.Socket.Steps.{
  Step, time_passes, segment, segment6, sends, receives, closes, shuts_send, shuts_recv, succeeds,
  retransmission, repetition, pending_data, paced, delayed, last_call, probe, waited, Reaches,
  start, later,
}

close_states :
    (r : TcpState → TcpState → Bool)
    → IsOrder r
    → (r established fin_wait_1 ≡ true)
      × (r syn_rcvd fin_wait_1 ≡ true)
      × (r close_wait last_ack ≡ true)
close_states r o = (
  o.arrival established fin_wait_1 refl,
  o.arrival syn_rcvd fin_wait_1 refl,
  o.arrival close_wait last_ack refl,
)

module _ {x : Net} where
  drop_connection-state : (s : Socket x) → (drop_connection s).state ≡ s.state
  unfolding drop_connection
  drop_connection-state s = deallocate_end_point-state (emit notify_error_close s)

  enter_loss-state : (s : Socket x) → (enter_loss s).state ≡ s.state
  unfolding enter_loss
  enter_loss-state s = ground arith

  send-state : (p : x.Packet) (s : Socket x) → (send p s).0.state ≡ s.state
  unfolding send
  send-state p s = ground arith

  recv-state : (n : ℕ) (s : Socket x) → (recv n s).0.state ≡ s.state
  unfolding recv
  recv-state n s = ground arith

  succeeded-state : (s : Socket x) → (connection_succeeded s).state ≡ s.state
  unfolding connection_succeeded
  succeeded-state s = ground arith

  persist_timeout-state : (s : Socket x) → (persist_timeout s).state ≡ s.state
  unfolding persist_timeout note_adv_wnd
  persist_timeout-state s = ground arith

module _ {x : Net} (r : TcpState → TcpState → Bool) (o : IsOrder r) where
  close_in-Keeps : (st : TcpState) (s : Socket x) → s.state ≡ st → Keeps r s (close_in st s)
  unfolding close_in
  close_in-Keeps st s e = ground (
    arith,
    o.same st,
    o.end st,
    close_states r o,
    close_and_notify-state s,
    close_and_notify-state (send_rst s),
  )

  close-Keeps : (s : Socket x) → Keeps r s (close s)
  unfolding close do_close
  close-Keeps s = ground (arith, o.same s.state, send_rst-state s, close_in-Keeps s.state s refl)

  shutdown_send-Keeps : (s : Socket x) → Keeps r s (shutdown_send s)
  unfolding shutdown_send
  shutdown_send-Keeps s =
      let t : Socket x = record s { shutdown_send = true; close_on_empty = true } in
      ground (arith, o.same s.state, close_states r o, send_empty_packet-state flag_fin t refl)

  flush-Keeps : (s t : Socket x) → t.state ≡ s.state → Keeps r s (send_pending_data t.connected t).0
  flush-Keeps s t e =
      trans-Keeps r o (same-Keeps r o s t e)
        (Onward-Keeps r o (send_pending_data-Onward t.connected t))

  retransmit_data-Keeps : (s : Socket x) → Keeps r s (retransmit_data s)
  unfolding retransmit_data
  retransmit_data-Keeps s =
      let u : Socket x = record s { data_retr_count = s.data_retr_count - 1 } in
      let t : Socket x = enter_loss u in
      branch-Keeps r o (s.data_retr_count == 0) (same-Keeps r o s _ (drop_connection-state s))
        (flush-Keeps s t (enter_loss-state u))

  re_tx_timeout-Keeps : (s : Socket x) → Keeps r s (re_tx_timeout s)
  unfolding re_tx_timeout send_syn
  re_tx_timeout-Keeps s =
      let t : Socket x = record s { retx_event = none } in
      ground (
        arith,
        o.same s.state,
        retransmit_data-Keeps t,
        send_empty_packet-Keeps r o flag_fin t,
        send_empty_packet-Keeps r o flag_syn t,
        send_empty_packet-Keeps r o flag_syn_ece_cwr t,
      )

  send_empty_timeout-Keeps : (f : Flags) (s : Socket x) → Keeps r s (send_empty_timeout f s)
  unfolding send_empty_timeout
  send_empty_timeout-Keeps f s =
      let t : Socket x = record s { retx_event = none } in
      trans-Keeps r o (same-Keeps r o s t refl) (send_empty_packet-Keeps r o f t)

  del_ack_timeout-Keeps : (s : Socket x) → Keeps r s (del_ack_timeout s)
  unfolding del_ack_timeout
  del_ack_timeout-Keeps s =
      let t : Socket x =
        cong_call (x.cong.cwnd_event delayed_ack)
          (record s { del_ack_event = none; del_ack_count = 0 }) in
      same-Keeps r o s _ (send_ack_or_echo-state t)

  last_ack_timeout-Keeps : (s : Socket x) → Keeps r s (last_ack_timeout s)
  unfolding last_ack_timeout
  last_ack_timeout-Keeps s =
      let u : Socket x = record s { last_ack_event = none } in
      let t : Socket x = record u { data_retr_count = s.data_retr_count - 1 } in
      ground (
        arith,
        o.same s.state,
        drop_connection-state u,
        send_empty_packet-state flag_fin_ack t refl,
      )

  Step-Keeps : {s t : Socket x} → Step s t → Keeps r s t
  unfolding shutdown_recv send_pending_timeout notify_pacing_performed
  Step-Keeps {s} (time_passes n) = same-Keeps r o s _ refl
  Step-Keeps {s} (segment p h size ecn accepts peer) =
      forward_up-Keeps r o p h size ecn accepts peer s
  Step-Keeps {s} (segment6 p h size ecn accepts peer) =
      forward_up6-Keeps r o p h size ecn accepts peer s
  Step-Keeps {s} (sends p) = same-Keeps r o s _ (send-state p s)
  Step-Keeps {s} (receives n) = same-Keeps r o s _ (recv-state n s)
  Step-Keeps {s} closes = close-Keeps s
  Step-Keeps {s} shuts_send = shutdown_send-Keeps s
  Step-Keeps {s} shuts_recv = same-Keeps r o s _ refl
  Step-Keeps {s} succeeds = same-Keeps r o s _ (succeeded-state s)
  Step-Keeps {s} (retransmission due) = re_tx_timeout-Keeps s
  Step-Keeps {s} (repetition f due) = send_empty_timeout-Keeps f s
  Step-Keeps {s} (pending_data due) = flush-Keeps s _ refl
  Step-Keeps {s} (paced due) = flush-Keeps s _ refl
  Step-Keeps {s} (delayed due) = del_ack_timeout-Keeps s
  Step-Keeps {s} (last_call due) = last_ack_timeout-Keeps s
  Step-Keeps {s} (probe due) = same-Keeps r o s _ (persist_timeout-state s)
  Step-Keeps {s} (waited due) = closed-Keeps r o s _ (close_and_notify-state s)

  pub Reaches-Keeps : {s t : Socket x} → Reaches s t → Keeps r s t
  Reaches-Keeps {s} start = same-Keeps r o s s refl
  Reaches-Keeps (later k st) = trans-Keeps r o (Reaches-Keeps k) (Step-Keeps st)
