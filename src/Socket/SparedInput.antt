-- ===== src/Socket/SparedInput.antt =====
-- A segment that arrives, from the network layer on, against CA_LOSS
-- (NS3/1705069/TaskB/tcp-socket-base.cc).
use cse_322_computer_network.Base.{
  ℕ, ◌≡◌, refl, arith, Bool, not, ◌&&◌, ◌==◌, Option, none, some, is_some,
}
use cse_322_computer_network.Tcb.{
  EcnCodePoint, CaEvent, ecn_ce_rcvd, ecn_is_ce, ecn_no_ce, is_ecn_disabled,
}
use cse_322_computer_network.Wire.{flag_ack, TcpHeader}
use cse_322_computer_network.Net.{Net}
use cse_322_computer_network.Socket.State.{Peer, Socket, cong_call}
use cse_322_computer_network.Socket.Receive.{is_valid_tcp_segment}
use cse_322_computer_network.Socket.Input.{
  is_cong_exp, is_not_ect, dispatch, note_cwr, read_syn, read_ack, enter_persist, leave_persist,
  do_forward_up, note_ip_ecn, note_ip_ecn6, forward_up, forward_up6,
}
use cse_322_computer_network.Socket.Sending.{IsSending}
use cse_322_computer_network.Socket.Steady.{IsCalm, cong_call-Steady}
use cse_322_computer_network.Socket.Reading.{
  note_cwr-Untouched, read_syn-Untouched, read_ack-Untouched, enter_persist-Untouched,
}
use cse_322_computer_network.Socket.Spared.{
  Spared, same-Spared, Steady-Spared, trans-Spared, branch-Spared, still, send_empty_packet-Spared,
  sent-Spared,
}
use cse_322_computer_network.Socket.SparedHandlers.{Untouched-Spared, dispatch-Spared}

module _ {x : Net} (calm : IsCalm x) (laws : IsSending x) where
  leave_persist-Spared : (s : Socket x) → Spared s (leave_persist s)
  unfolding leave_persist
  leave_persist-Spared s =
      let t : Socket x = record s { persist_event = none } in
      branch-Spared (not (s.r_wnd == 0) && is_some s.persist_event)
        (trans-Spared (same-Spared s t refl) (sent-Spared calm laws t.connected t)) (still s)

  rest-Spared :
      (p : x.Packet) (h : TcpHeader) (accepts : Bool) (peer : Peer) (s : Socket x)
      → Spared s (let v = enter_persist s in leave_persist (dispatch v.state p h accepts peer v))
  rest-Spared p h accepts peer s =
      let v : Socket x = enter_persist s in
      let w : Socket x = dispatch v.state p h accepts peer v in
      trans-Spared (Untouched-Spared (enter_persist-Untouched s)) (
        trans-Spared (dispatch-Spared calm laws v.state p h accepts peer v)
          (leave_persist-Spared w))

  after_read :
      (read : Option (Socket x)) (s : Socket x) (f : Socket x → Socket x)
      → ((u : Socket x) → read ≡ some u → Spared s (f u))
      → Spared s (elim read [ none ↦ s | some u ↦ f u ])
  after_read none s f l = still s
  after_read (some u) s f l = l u refl

  do_forward_up-Spared :
      (p : x.Packet) (h : TcpHeader) (accepts : Bool) (peer : Peer) (s : Socket x)
      → Spared s (do_forward_up p h accepts peer s)
  unfolding do_forward_up
  do_forward_up-Spared p h accepts peer s =
      let t : Socket x = note_cwr h.flags s in
      let rest = λ (u : Socket x).
        let v = enter_persist u in leave_persist (dispatch v.state p h accepts peer v) in
      trans-Spared (Untouched-Spared (note_cwr-Untouched h s)) (
        branch-Spared h.flags.syn
          (trans-Spared (Untouched-Spared (read_syn-Untouched h t))
            (rest-Spared p h accepts peer (read_syn h t)))
          (branch-Spared h.flags.ack
            (after_read (read_ack h t) t rest (λ u e.
              trans-Spared (Untouched-Spared (read_ack-Untouched h t u e))
                (rest-Spared p h accepts peer u)))
            (rest-Spared p h accepts peer t)))

  pub event-Spared : (e : CaEvent) (s : Socket x) → Spared s (cong_call (x.cong.cwnd_event e) s)
  event-Spared e s = Steady-Spared (cong_call-Steady (x.cong.cwnd_event e) s (calm.event e))

  note_ip_ecn-Spared : (ecn : EcnCodePoint) (n : ℕ) (s : Socket x) → Spared s (note_ip_ecn ecn n s)
  unfolding note_ip_ecn
  note_ip_ecn-Spared ecn n s =
      let t : Socket x = record s {
        ecn_ce_seq = n;
        tcb = record s.tcb { ecn_state = ecn_ce_rcvd };
      } in
      branch-Spared (is_cong_exp ecn && x.seq.lt s.ecn_ce_seq n)
        (trans-Spared (same-Spared s t refl) (event-Spared ecn_is_ce t))
        (branch-Spared (not (is_not_ect ecn) && not (is_ecn_disabled s.tcb.ecn_state))
          (event-Spared ecn_no_ce s) (still s))

  note_ip_ecn6-Spared :
      (ecn : EcnCodePoint) (n : ℕ) (s : Socket x) → Spared s (note_ip_ecn6 ecn n s)
  unfolding note_ip_ecn6
  note_ip_ecn6-Spared ecn n s =
      let t : Socket x = record s {
        ecn_ce_seq = n;
        tcb = record s.tcb { ecn_state = ecn_ce_rcvd };
      } in
      branch-Spared (is_cong_exp ecn && x.seq.lt s.ecn_ce_seq n)
        (trans-Spared (same-Spared s t refl) (event-Spared ecn_is_ce t))
        (branch-Spared (not (is_not_ect ecn)) (event-Spared ecn_no_ce s) (still s))

  pub forward_up-Spared :
      (p : x.Packet) (h : TcpHeader) (size : ℕ) (ecn : EcnCodePoint) (accepts : Bool) (peer : Peer)
      (s : Socket x)
      → Spared s (forward_up p h size ecn accepts peer s)
  unfolding forward_up is_valid_tcp_segment
  forward_up-Spared p h size ecn accepts peer s =
      let t : Socket x = note_ip_ecn ecn h.seq s in
      let k : Spared s (do_forward_up p h accepts peer t) =
        trans-Spared (note_ip_ecn-Spared ecn h.seq s) (do_forward_up-Spared p h accepts peer t) in
      ground (arith, k, still s, send_empty_packet-Spared flag_ack s)

  pub forward_up6-Spared :
      (p : x.Packet) (h : TcpHeader) (size : ℕ) (ecn : EcnCodePoint) (accepts : Bool) (peer : Peer)
      (s : Socket x)
      → Spared s (forward_up6 p h size ecn accepts peer s)
  unfolding forward_up6 is_valid_tcp_segment
  forward_up6-Spared p h size ecn accepts peer s =
      let t : Socket x = note_ip_ecn6 ecn h.seq s in
      let k : Spared s (do_forward_up p h accepts peer t) =
        trans-Spared (note_ip_ecn6-Spared ecn h.seq s) (do_forward_up-Spared p h accepts peer t) in
      ground (arith, k, still s, send_empty_packet-Spared flag_ack s)
