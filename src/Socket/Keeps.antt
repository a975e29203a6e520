-- ===== src/Socket/Keeps.antt =====
-- Orders of the states that every step of a connection respects, and the sending and the arrival
-- of segments against them (NS3/1705069/TaskB/tcp-socket-base.cc).
use cse_322_computer_network.Base.{
  ℕ, Option, ◌≤◌, ◌≡◌, refl, arith, Bool, true, false, if◌then◌else◌, none, some,
}
use cse_322_computer_network.Tcb.{EcnCodePoint}
use cse_322_computer_network.Wire.{Flags, TcpHeader, flag_ack}
use cse_322_computer_network.Net.{Net}
use cse_322_computer_network.Socket.State.{Peer, TcpState, closed, Socket, computed_rto}
use cse_322_computer_network.Socket.Send.{
  send_empty_packet, send_empty_from, note_adv_wnd, note_w_scale, syn_attempt, add_syn_options,
  add_options, advertised_window_size,
}
use cse_322_computer_network.Socket.Receive.{is_valid_tcp_segment}
use cse_322_computer_network.Socket.Input.{
  note_cwr, read_syn, read_ack, enter_persist, leave_persist, dispatch, do_forward_up, note_ip_ecn,
  note_ip_ecn6, forward_up6, forward_up,
}
use cse_322_computer_network.Socket.Phase.{phase, rank, Onward, send_pending_data-Onward}
use cse_322_computer_network.Socket.DataPhase.{
  send_empty_packet-state, give_up_connecting-state, syn_attempt-state, send_empty_header-state,
}
use cse_322_computer_network.Socket.Follows.{follows}
use cse_322_computer_network.Socket.Transitions.{dispatch-follows}
use cse_322_computer_network.Socket.Reading.{
  note_cwr-Untouched, enter_persist-Untouched, note_ip_ecn-state, note_ip_ecn6-state,
  read_syn-Untouched, read_ack-Untouched,
}

-- A test on two states that is reflexive and transitive, and holds for what segments, the sending
-- of data and the end of a connection do.
pub record IsOrder (r : TcpState → TcpState → Bool) : Type 0 where
  pub same : (a : TcpState) → r a a ≡ true
  pub trans : (a b c : TcpState) → r a b ≡ true → r b c ≡ true → r a c ≡ true
  pub arrival : (a b : TcpState) → follows a b ≡ true → r a b ≡ true
  pub onward : (a b : TcpState) → phase a ≤ phase b → rank a ≤ rank b → r a b ≡ true
  pub end : (a : TcpState) → r a closed ≡ true

pub record Keeps {x : Net} (r : TcpState → TcpState → Bool) (s t : Socket x) : Type 0 where
  pub kept : r s.state t.state ≡ true

module _ {x : Net} (r : TcpState → TcpState → Bool) (o : IsOrder r) where
  pub same-Keeps : (s t : Socket x) → t.state ≡ s.state → Keeps r s t
  same-Keeps s t e = record { kept = rw e (o.same s.state) }

  pub trans-Keeps : {s t u : Socket x} → Keeps r s t → Keeps r t u → Keeps r s u
  trans-Keeps {s} {t} {u} k l = record { kept = o.trans s.state t.state u.state k.kept l.kept }

  pub follows-Keeps : (s t : Socket x) → follows s.state t.state ≡ true → Keeps r s t
  follows-Keeps s t k = record { kept = o.arrival s.state t.state k }

  pub Onward-Keeps : {s t : Socket x} → Onward s t → Keeps r s t
  Onward-Keeps {s} {t} k = record { kept = o.onward s.state t.state k.up k.ranked }

  pub closed-Keeps : (s t : Socket x) → t.state ≡ closed → Keeps r s t
  closed-Keeps s t e = record { kept = rw e (o.end s.state) }

  pub branch-Keeps :
      (b : Bool) {s t u : Socket x} → Keeps r s t → Keeps r s u → Keeps r s (if b then t else u)
  branch-Keeps true k l = k
  branch-Keeps false k l = l

  -- A segment without data keeps the state, or closes the socket with its last attempt.
  send_empty_from-Keeps : (f : Flags) (seq : ℕ) (s : Socket x) → Keeps r s (send_empty_from f seq s)
  unfolding send_empty_from note_adv_wnd
  send_empty_from-Keeps f seq s =
      let t : Socket x = note_adv_wnd (record s { rto = computed_rto s }) in
      let u : Socket x = note_w_scale t in
      let a : Socket x = note_adv_wnd (syn_attempt seq u) in
      let os = add_syn_options (add_options s) t in
      let w = advertised_window_size false (syn_attempt seq u) in
      ground (
        arith,
        o.same s.state,
        o.end s.state,
        give_up_connecting-state u,
        syn_attempt-state seq u,
        send_empty_header-state f seq w os a,
        send_empty_header-state f seq (advertised_window_size true s) (add_options s) t,
      )

  pub send_empty_packet-Keeps : (f : Flags) (s : Socket x) → Keeps r s (send_empty_packet f s)
  unfolding send_empty_packet
  send_empty_packet-Keeps f s =
      let g = record f { ack = true } in
      let n = x.seq.add s.tcb.next_tx_sequence 1 in
      ground (
        arith,
        o.same s.state,
        send_empty_from-Keeps f n s,
        send_empty_from-Keeps f s.tcb.next_tx_sequence s,
        send_empty_from-Keeps g s.tcb.next_tx_sequence s,
        send_empty_from-Keeps g n s,
      )

  leave_persist-Keeps : (s : Socket x) → Keeps r s (leave_persist s)
  unfolding leave_persist
  leave_persist-Keeps s =
      let t : Socket x = record s { persist_event = none } in
      ground (arith, o.same s.state, Onward-Keeps (send_pending_data-Onward t.connected t))

  rest-Keeps :
      (p : x.Packet) (h : TcpHeader) (accepts : Bool) (peer : Peer) (s u : Socket x)
      → u.state ≡ s.state
      → Keeps r s (let v = enter_persist u in leave_persist (dispatch v.state p h accepts peer v))
  rest-Keeps p h accepts peer s u e =
      let v : Socket x = enter_persist u in
      let w : Socket x = dispatch v.state p h accepts peer v in
      trans-Keeps (same-Keeps s u e) (
        trans-Keeps (same-Keeps u v (enter_persist-Untouched u).state) (
          trans-Keeps (follows-Keeps v w (dispatch-follows p h accepts peer v))
            (leave_persist-Keeps w)))

  after_read :
      (read : Option (Socket x)) (s t : Socket x) (f : Socket x → Socket x)
      → Keeps r s t
      → ((u : Socket x) → read ≡ some u → Keeps r s (f u))
      → Keeps r s (elim read [ none ↦ t | some u ↦ f u ])
  after_read none s t f k l = k
  after_read (some u) s t f k l = l u refl

  do_forward_up-Keeps :
      (p : x.Packet) (h : TcpHeader) (accepts : Bool) (peer : Peer) (s : Socket x)
      → Keeps r s (do_forward_up p h accepts peer s)
  unfolding do_forward_up
  do_forward_up-Keeps p h accepts peer s =
      let t : Socket x = note_cwr h.flags s in
      let k : Keeps r s t = same-Keeps s t (note_cwr-Untouched h s).state in
      let rest = λ (u : Socket x).
        let v = enter_persist u in leave_persist (dispatch v.state p h accepts peer v) in
      trans-Keeps k (
        branch-Keeps h.flags.syn
          (rest-Keeps p h accepts peer t (read_syn h t) (read_syn-Untouched h t).state)
          (branch-Keeps h.flags.ack
            (after_read (read_ack h t) t t rest (same-Keeps t t refl)
              (λ u e. rest-Keeps p h accepts peer t u (read_ack-Untouched h t u e).state))
            (rest-Keeps p h accepts peer t t refl)))

  pub forward_up-Keeps :
      (p : x.Packet) (h : TcpHeader) (size : ℕ) (ecn : EcnCodePoint) (accepts : Bool) (peer : Peer)
      (s : Socket x)
      → Keeps r s (forward_up p h size ecn accepts peer s)
  unfolding forward_up is_valid_tcp_segment
  forward_up-Keeps p h size ecn accepts peer s =
      let t : Socket x = note_ip_ecn ecn h.seq s in
      let k : Keeps r s (do_forward_up p h accepts peer t) =
        trans-Keeps (same-Keeps s t (note_ip_ecn-state ecn h.seq s))
          (do_forward_up-Keeps p h accepts peer t) in
      ground (arith, k, o.same s.state, send_empty_packet-state flag_ack s refl)

  pub forward_up6-Keeps :
      (p : x.Packet) (h : TcpHeader) (size : ℕ) (ecn : EcnCodePoint) (accepts : Bool) (peer : Peer)
      (s : Socket x)
      → Keeps r s (forward_up6 p h size ecn accepts peer s)
  unfolding forward_up6 is_valid_tcp_segment
  forward_up6-Keeps p h size ecn accepts peer s =
      let t : Socket x = note_ip_ecn6 ecn h.seq s in
      let k : Keeps r s (do_forward_up p h accepts peer t) =
        trans-Keeps (same-Keeps s t (note_ip_ecn6-state ecn h.seq s))
          (do_forward_up-Keeps p h accepts peer t) in
      ground (arith, k, o.same s.state, send_empty_packet-state flag_ack s refl)
