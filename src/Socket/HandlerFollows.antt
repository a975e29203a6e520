-- ===== src/Socket/HandlerFollows.antt =====
-- The handlers of an established and of an ending connection against the states that may follow
-- (NS3/1705069/TaskB/tcp-socket-base.cc).
use cse_322_computer_network.Base.{
  ◌≡◌, refl, arith, Bool, true, false, ltb, not, ◌&&◌, if◌then◌else◌,
}
use cse_322_computer_network.Wire.{
  Flags, flag_rst, flag_ack, flag_fin_ack, flags_eq, TcpHeader, without_extras, without_psh_urg,
}
use cse_322_computer_network.Net.{Net}
use cse_322_computer_network.Socket.State.{TcpState, closed, last_ack, closing, Socket, set_state}
use cse_322_computer_network.Socket.Send.{send_rst, send_empty_packet}
use cse_322_computer_network.Socket.Close.{enter_time_wait}
use cse_322_computer_network.Socket.Receive.{received_data, peer_close}
use cse_322_computer_network.Socket.ReceivedAck.{received_ack}
use cse_322_computer_network.Socket.Process.{
  is_fin, is_syn, reject, established_ack, established_data, process_established,
}
use cse_322_computer_network.Socket.Ending.{
  wait_finished, wait_ack, wait_fin, process_wait, process_closing, process_last_ack,
}
use cse_322_computer_network.Socket.Phase.{Onward}
use cse_322_computer_network.Socket.DataPhase.{
  close_and_notify-state, send_empty_packet-state, received_data-Onward, peer_close-Onward,
}
use cse_322_computer_network.Socket.ReceivedPhase.{received_ack-Onward}
use cse_322_computer_network.Socket.Progress.{
  wait_fin-Onward, established_ack-Onward, established_data-Onward, enter_time_wait-state,
}
use cse_322_computer_network.Socket.Follows.{
  follows, exchanges, is_waiting, finishes, ranks_follow, exchanges_low, exchanges_waiting,
  exchanges_last, ack_follows, finishes_follow, stays, closed_follows,
}

module _ {x : Net} where
  -- The state of the socket is one that may follow.
  pub record Follows (a : TcpState) (t : Socket x) : Type 0 where
    pub allowed : follows a t.state ≡ true

  pub Onward-Follows : (s t : Socket x) → exchanges s.state ≡ true → Onward s t → Follows s.state t
  Onward-Follows s t e k = record { allowed = ranks_follow s.state t.state e k.ranked k.coranked }

  pub reject-state : (f : Flags) (s : Socket x) → (reject f s).state ≡ closed
  unfolding reject
  reject-state f s = close_and_notify-state (if flags_eq f flag_rst then s else send_rst s)

  pub rejected :
      (f : Flags) (s : Socket x) → exchanges s.state ≡ true → Follows s.state (reject f s)
  rejected f s e = record { allowed = rw (reject-state f s) (closed_follows s.state e) }

  pub kept : (s : Socket x) → Follows s.state s
  kept s = record { allowed = stays s.state }

  pub branch :
      {a : TcpState} (b : Bool) {s t : Socket x}
      → Follows a s
      → Follows a t
      → Follows a (if b then s else t)
  branch true k l = k
  branch false k l = l

  pub process_established-Follows :
      (p : x.Packet) (h : TcpHeader) (s : Socket x)
      → exchanges s.state ≡ true
      → Follows s.state (process_established p h s)
  unfolding process_established
  process_established-Follows p h s e =
      let le = exchanges_low s.state e in
      ground (
        arith,
        Onward-Follows s (established_ack p h s) e (established_ack-Onward p h s le),
        Onward-Follows s (established_data p h s) e (established_data-Onward p h s le),
        Onward-Follows s (peer_close p h s) e (peer_close-Onward p h s le),
        reject-state (without_extras h.flags) s,
        closed_follows s.state e,
        stays s.state,
      )

  wait_finished-finishes :
      (h : TcpHeader) (s : Socket x) → finishes s.state (wait_finished h s).state ≡ true
  unfolding wait_finished
  wait_finished-finishes h s =
      let c : Socket x = set_state closing s in
      let a = enter_time_wait c in
      let b = enter_time_wait s in
      ground (
        arith,
        enter_time_wait-state c,
        enter_time_wait-state s,
        send_empty_packet-state flag_ack a refl,
        send_empty_packet-state flag_ack b refl,
        send_empty_packet-state flag_ack c refl,
      )

  wait_ack-Follows :
      (p : x.Packet) (h : TcpHeader) (s : Socket x)
      → is_waiting s.state ≡ true
      → Follows s.state (wait_ack p h s)
  unfolding wait_ack
  wait_ack-Follows p h s e =
      let w = exchanges_waiting s.state e in
      let t : Socket x = received_ack p h s in
      let k = Onward-Follows s t w (received_ack-Onward p h s (exchanges_low s.state w)) in
      ground (arith, k, ack_follows s.state e)

  wait_fin-Follows :
      (p : x.Packet) (h : TcpHeader) (b : Bool) (s : Socket x)
      → is_waiting s.state ≡ true
      → Follows s.state (wait_fin p h b s)
  wait_fin-Follows p h b s e =
      let w = exchanges_waiting s.state e in
      Onward-Follows s (wait_fin p h b s) w (wait_fin-Onward p h b s (exchanges_low s.state w))

  ended :
      (h : TcpHeader) (s t : Socket x)
      → is_waiting s.state ≡ true
      → Follows s.state t
      → Follows s.state (wait_finished h t)
  ended h s t e k = record {
    allowed =
        finishes_follow s.state t.state (wait_finished h t).state e k.allowed
          (wait_finished-finishes h t);
  }

  pub process_wait-Follows :
      (p : x.Packet) (h : TcpHeader) (s : Socket x)
      → is_waiting s.state ≡ true
      → Follows s.state (process_wait p h s)
  unfolding process_wait
  process_wait-Follows p h s e =
      let w = exchanges_waiting s.state e in
      let f = without_extras h.flags in
      let d : Socket x = received_data p h s in
      let k = Onward-Follows s d w (received_data-Onward p h s (exchanges_low s.state w)) in
      branch (ltb 0 (x.packet_size p) && not f.ack) (ended h s d e k) (
        branch (flags_eq f flag_ack) (ended h s (wait_ack p h s) e (wait_ack-Follows p h s e)) (
          branch (is_fin f) (ended h s (wait_fin p h f.ack s) e (wait_fin-Follows p h f.ack s e))
            (branch (is_syn f) (kept s) (rejected f s w))))

  pub process_closing-Follows :
      (h : TcpHeader) (s : Socket x) → s.state ≡ closing → Follows closing (process_closing h s)
  unfolding process_closing
  process_closing-Follows h s e = ground (
    arith,
    enter_time_wait-state s,
    close_and_notify-state (send_empty_packet flag_ack s),
    reject-state (without_psh_urg h.flags) s,
  )

  pub process_last_ack-Follows :
      (p : x.Packet) (h : TcpHeader) (s : Socket x)
      → s.state ≡ last_ack
      → Follows last_ack (process_last_ack p h s)
  unfolding process_last_ack
  process_last_ack-Follows p h s e =
      let k = exchanges_last s.state e in
      let d = received_data p h s in
      ground (
        arith,
        Onward-Follows s d k (received_data-Onward p h s (exchanges_low s.state k)),
        send_empty_packet-state flag_fin_ack s refl,
        close_and_notify-state s,
        close_and_notify-state (send_rst s),
      )
