-- ===== src/Socket/Progress.antt =====
-- The handlers of the state machine (NS3/1705069/TaskB/tcp-socket-base.cc) against the phases of a
-- connection.
use cse_322_computer_network.Base.{◌≤◌, ◌≡◌, refl, arith, Bool, if◌then◌else◌, ap}
use cse_322_computer_network.Wire.{
  Flags, flag_rst, flag_ack, flag_fin_ack, flags_eq, TcpHeader, without_extras, without_psh_urg,
}
use cse_322_computer_network.Net.{Net}
use cse_322_computer_network.Socket.State.{
  Peer, TcpState, closed, listen, syn_sent, syn_rcvd, established, close_wait, last_ack, fin_wait_1,
  fin_wait_2, closing, time_wait, Socket, set_state,
}
use cse_322_computer_network.Socket.Send.{
  cancel_all_timers, close_and_notify, send_rst, send_empty_packet, note_adv_wnd,
}
use cse_322_computer_network.Socket.Close.{enter_time_wait}
use cse_322_computer_network.Socket.Receive.{received_data}
use cse_322_computer_network.Socket.Process.{
  reject, established_ack, established_data, process_established,
}
use cse_322_computer_network.Socket.Ending.{
  wait_finished, wait_ack, wait_fin, process_wait, process_closing, process_last_ack,
}
use cse_322_computer_network.Socket.Input.{dispatch, refuse}
use cse_322_computer_network.Socket.Phase.{phase, Onward}
use cse_322_computer_network.Socket.DataPhase.{
  five_is_last, close_and_notify-state, send_empty_packet-state, send_ack_or_echo-state,
  received_data-Onward, peer_close-Onward,
}
use cse_322_computer_network.Socket.ReceivedPhase.{received_ack-Onward}
use cse_322_computer_network.Socket.SynPhase.{process_syn_rcvd-up}

closed_phase :
    (phase closed ≡ 5) × (phase time_wait ≡ 4) × (phase closing ≡ 3) × (phase fin_wait_2 ≡ 3)
unfolding phase
closed_phase = (refl, refl, refl, refl)

other_phases :
    (phase listen ≡ 0)
    × (phase syn_sent ≡ 0)
    × (phase syn_rcvd ≡ 1)
    × (phase established ≡ 2)
    × (phase close_wait ≡ 3)
    × (phase last_ack ≡ 3)
    × (phase fin_wait_1 ≡ 3)
unfolding phase
other_phases = (refl, refl, refl, refl, refl, refl, refl)

module _ {x : Net} where
  reject-up : (f : Flags) (s : Socket x) → phase s.state ≤ phase (reject f s).state
  unfolding reject
  reject-up f s =
      five_is_last s (reject f s)
        (close_and_notify-state (if flags_eq f flag_rst then s else send_rst s))

  pub established_ack-Onward :
      (p : x.Packet) (h : TcpHeader) (s : Socket x)
      → phase s.state ≤ 3
      → Onward s (established_ack p h s)
  unfolding established_ack
  established_ack-Onward p h s le =
      ground (arith, send_ack_or_echo-state s, received_ack-Onward p h s le)

  pub established_data-Onward :
      (p : x.Packet) (h : TcpHeader) (s : Socket x)
      → phase s.state ≤ 3
      → Onward s (established_data p h s)
  unfolding established_data
  established_data-Onward p h s le =
      let k = received_data-Onward p h s le in
      ground (arith, k, peer_close-Onward p h (received_data p h s))

  process_established-up :
      (p : x.Packet) (h : TcpHeader) (s : Socket x)
      → phase s.state ≤ 3
      → phase s.state ≤ phase (process_established p h s).state
  unfolding process_established
  process_established-up p h s le = ground (
    arith,
    established_ack-Onward p h s le,
    established_data-Onward p h s le,
    peer_close-Onward p h s le,
    reject-up (without_extras h.flags) s,
  )

  pub enter_time_wait-state : (s : Socket x) → (enter_time_wait s).state ≡ time_wait
  unfolding enter_time_wait cancel_all_timers
  enter_time_wait-state s = ground arith

  process_closing-up :
      (h : TcpHeader) (s : Socket x)
      → phase s.state ≤ 3
      → phase s.state ≤ phase (process_closing h s).state
  unfolding process_closing
  process_closing-up h s le =
      let t = send_empty_packet flag_ack s in
      ground (
        arith,
        enter_time_wait-state s,
        closed_phase,
        five_is_last s (close_and_notify t) (close_and_notify-state t),
        reject-up (without_psh_urg h.flags) s,
      )

  process_last_ack-up :
      (p : x.Packet) (h : TcpHeader) (s : Socket x)
      → phase s.state ≤ 3
      → phase s.state ≤ phase (process_last_ack p h s).state
  unfolding process_last_ack
  process_last_ack-up p h s le = ground (
    arith,
    received_data-Onward p h s le,
    send_empty_packet-state flag_fin_ack s refl,
    five_is_last s (close_and_notify s) (close_and_notify-state s),
    five_is_last s (close_and_notify (send_rst s)) (close_and_notify-state (send_rst s)),
  )

  -- The end of ProcessWait, in a state of the closing phase.
  wait_finished-up :
      (h : TcpHeader) (s : Socket x)
      → phase s.state ≤ 3
      → phase s.state ≤ phase (wait_finished h s).state
  unfolding wait_finished
  wait_finished-up h s le =
      let c : Socket x = set_state closing s in
      let a = enter_time_wait c in
      let b = enter_time_wait s in
      ground (
        arith,
        closed_phase,
        enter_time_wait-state c,
        enter_time_wait-state s,
        send_empty_packet-state flag_ack a refl,
        send_empty_packet-state flag_ack b refl,
        send_empty_packet-state flag_ack c refl,
      )

  wait_ack-up :
      (p : x.Packet) (h : TcpHeader) (s : Socket x)
      → phase s.state ≤ 3
      → (phase s.state ≤ phase (wait_ack p h s).state) × (phase (wait_ack p h s).state ≤ 3)
  unfolding wait_ack
  wait_ack-up p h s le = ground (arith, received_ack-Onward p h s le, closed_phase)

  pub wait_fin-Onward :
      (p : x.Packet) (h : TcpHeader) (b : Bool) (s : Socket x)
      → phase s.state ≤ 3
      → Onward s (wait_fin p h b s)
  unfolding wait_fin
  wait_fin-Onward p h b s le = ground (arith, received_ack-Onward p h s le)

  process_wait-up :
      (p : x.Packet) (h : TcpHeader) (s : Socket x)
      → phase s.state ≤ 3
      → phase s.state ≤ phase (process_wait p h s).state
  unfolding process_wait
  process_wait-up p h s le =
      let f = without_extras h.flags in
      let a = received_data-Onward p h s le in
      let b = wait_ack-up p h s le in
      let c = wait_fin-Onward p h f.ack s le in
      ground (
        arith,
        a,
        b,
        c,
        wait_finished-up h (received_data p h s),
        wait_finished-up h (wait_ack p h s),
        wait_finished-up h (wait_fin p h f.ack s),
        reject-up f s,
      )

  pub refuse-state : (h : TcpHeader) (s : Socket x) → (refuse h s).state ≡ s.state
  unfolding refuse note_adv_wnd
  refuse-state h s = ground arith

  dispatch-up :
      (st : TcpState) (p : x.Packet) (h : TcpHeader) (accepts : Bool) (peer : Peer) (s : Socket x)
      → s.state ≡ st
      → phase s.state ≤ phase (dispatch st p h accepts peer s).state
  unfolding dispatch
  dispatch-up closed p h accepts peer s e = omega (arith, ap phase (refuse-state h s))
  dispatch-up listen p h accepts peer s e = omega (arith, ap phase e, other_phases)
  dispatch-up syn_sent p h accepts peer s e = omega (arith, ap phase e, other_phases)
  dispatch-up syn_rcvd p h accepts peer s e =
      process_syn_rcvd-up p h peer s (omega (arith, ap phase e, other_phases))
  dispatch-up established p h accepts peer s e =
      process_established-up p h s (omega (arith, ap phase e, other_phases))
  dispatch-up close_wait p h accepts peer s e =
      process_wait-up p h s (omega (arith, ap phase e, other_phases))
  dispatch-up last_ack p h accepts peer s e =
      process_last_ack-up p h s (omega (arith, ap phase e, other_phases))
  dispatch-up fin_wait_1 p h accepts peer s e =
      process_wait-up p h s (omega (arith, ap phase e, other_phases))
  dispatch-up fin_wait_2 p h accepts peer s e =
      process_wait-up p h s (omega (arith, ap phase e, closed_phase))
  dispatch-up closing p h accepts peer s e =
      process_closing-up h s (omega (arith, ap phase e, closed_phase))
  dispatch-up time_wait p h accepts peer s e = omega arith

  -- An arriving segment never takes a connection back: in every state the phase after the state's
  -- handler (listening or calling, answering, established, closing, waiting, closed, in this
  -- order) is not before the phase it had.
  pub dispatch-phase :
      (p : x.Packet) (h : TcpHeader) (accepts : Bool) (peer : Peer) (s : Socket x)
      → phase s.state ≤ phase (dispatch s.state p h accepts peer s).state
  dispatch-phase p h accepts peer s = dispatch-up s.state p h accepts peer s refl
