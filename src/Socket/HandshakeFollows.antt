-- ===== src/Socket/HandshakeFollows.antt =====
-- The handlers of a connection that opens against the states that may follow
-- (NS3/1705069/TaskB/tcp-socket-base.cc).
use cse_322_computer_network.Base.{
  ◌≤◌, ◌≡◌, refl, arith, Bool, true, false, none, not, ◌&&◌, ◌||◌, ◌==◌, if◌then◌else◌, ap, ◌∙◌,
}
use cse_322_computer_network.Tcb.{ecn_disabled, ecn_idle, is_use_ecn_off}
use cse_322_computer_network.Wire.{
  Flags, flag_rst, no_flags, flag_syn, flag_ack, flag_fin_ack, flags_eq, TcpHeader, without_extras,
  without_psh_urg, notify_new_connection_created,
}
use cse_322_computer_network.Net.{Net}
use cse_322_computer_network.Socket.State.{
  Peer, TcpState, closed, syn_sent, syn_rcvd, established, Socket, set_state, set_tcb, emit,
}
use cse_322_computer_network.Socket.Send.{send_rst, send_empty_packet}
use cse_322_computer_network.Socket.Transmit.{update_pacing_rate}
use cse_322_computer_network.Socket.Loop.{send_pending_data}
use cse_322_computer_network.Socket.Receive.{received_data, peer_close}
use cse_322_computer_network.Socket.ReceivedAck.{received_ack}
use cse_322_computer_network.Socket.Process.{
  answer_syn, expect_after, establish, take_syn_sequence, syn_rcvd_complete, syn_rcvd_fin,
  process_syn_rcvd, ack_first_at_once, set_peer_end, syn_sent_data, syn_sent_syn,
  handshake_completed, process_syn_sent,
}
use cse_322_computer_network.Socket.Phase.{
  phase, rank, corank, Onward, update_pacing_rate-state, send_pending_data-Onward,
}
use cse_322_computer_network.Socket.DataPhase.{
  close_and_notify-state, send_empty_packet-state, received_data-Onward, peer_close-Onward,
}
use cse_322_computer_network.Socket.ReceivedPhase.{received_ack-Onward}
use cse_322_computer_network.Socket.SynPhase.{finish-state}
use cse_322_computer_network.Socket.Follows.{follows, exchanges, exchanges_low}
use cse_322_computer_network.Socket.HandlerFollows.{Follows, Onward-Follows, kept, branch}
use cse_322_computer_network.Socket.AnswerFollows.{answer_syn-Follows}

-- The states of a handshake.
abbrev opens : TcpState → Bool
opens syn_sent = true
opens syn_rcvd = true
opens _ = false

established_ranks : (phase established ≤ 3) × (rank established ≡ 3) × (corank established ≡ 3)
unfolding phase rank corank
established_ranks = (ground arith, refl, refl)

open_follows :
    (a b : TcpState)
    → opens a ≡ true
    → rank established ≤ rank b
    → corank established ≤ corank b
    → follows a b ≡ true
unfolding rank corank
open_follows a b = ground arith

answer_follows : (b : TcpState) → follows syn_rcvd b ≡ true → follows syn_sent b ≡ true
answer_follows b = ground arith

module _ {x : Net} where
  Open-Follows :
      (a : TcpState) (s t : Socket x)
      → opens a ≡ true
      → s.state ≡ established
      → Onward s t
      → Follows a t
  Open-Follows a s t o e k = record {
    allowed =
        open_follows a t.state o (omega (arith, ap rank e, k.ranked))
          (omega (arith, ap corank e, k.coranked));
  }

  same-Follows : {a : TcpState} {s t : Socket x} → t.state ≡ s.state → Follows a s → Follows a t
  same-Follows e k = ground (arith, k)

  pub from : {a b : TcpState} {t : Socket x} → a ≡ b → Follows a t → Follows b t
  from e k = ground (arith, k)

  ended : {t : Socket x} → t.state ≡ closed → Follows syn_rcvd t
  ended e = ground arith

  take-state : (s : Socket x) → (take_syn_sequence s).state ≡ s.state
  unfolding take_syn_sequence
  take-state s = refl

  expect-state : (h : TcpHeader) (s : Socket x) → (expect_after h s).state ≡ s.state
  unfolding expect_after
  expect-state h s = refl

  establish-state : (s : Socket x) → (establish s).state ≡ established
  unfolding establish
  establish-state s = refl

  low : (s : Socket x) → s.state ≡ established → phase s.state ≤ 3
  low s e = omega (arith, ap phase e, established_ranks)

  syn_rcvd_complete-Follows :
      (p : x.Packet) (h : TcpHeader) (peer : Peer) (s : Socket x)
      → Follows syn_rcvd (syn_rcvd_complete p h peer s)
  unfolding syn_rcvd_complete
  syn_rcvd_complete-Follows p h peer s =
      let c = take_syn_sequence (establish s) in
      let t : Socket x =
        emit notify_new_connection_created (ack_first_at_once (set_peer_end peer c)) in
      let e : t.state ≡ established = take-state (establish s) ∙ establish-state s in
      let v : Socket x = received_ack p h t in
      same-Follows (finish-state v)
        (Open-Follows syn_rcvd t v refl e (received_ack-Onward p h t (low t e)))

  syn_rcvd_fin-Follows :
      (p : x.Packet) (h : TcpHeader) (peer : Peer) (s : Socket x)
      → exchanges s.state ≡ true
      → Follows s.state (syn_rcvd_fin p h peer s)
  unfolding syn_rcvd_fin take_syn_sequence
  syn_rcvd_fin-Follows p h peer s e =
      let c = take_syn_sequence (record s { connected = true; retx_event = none }) in
      let t : Socket x = emit notify_new_connection_created (set_peer_end peer c) in
      branch (h.seq == x.rx_next_sequence s.rx_buffer)
        (Onward-Follows t (peer_close p h t) e (peer_close-Onward p h t (exchanges_low s.state e)))
        (kept s)

  pub process_syn_rcvd-Follows :
      (p : x.Packet) (h : TcpHeader) (peer : Peer) (s : Socket x)
      → s.state ≡ syn_rcvd
      → Follows syn_rcvd (process_syn_rcvd p h peer s)
  unfolding process_syn_rcvd
  process_syn_rcvd-Follows p h peer s e =
      let f = without_extras h.flags in
      let u : Socket x = if flags_eq f flag_rst then s else send_rst (set_peer_end peer s) in
      let fin = from e (syn_rcvd_fin-Follows p h peer s (ap exchanges e)) in
      let answered : Follows syn_rcvd (answer_syn h.flags (expect_after h s)) =
        answer_syn-Follows h.flags (expect_after h s) (expect-state h s ∙ e) in
      branch
        (flags_eq f no_flags
          || flags_eq f flag_ack && x.seq.add s.tcb.next_tx_sequence 1 == h.ack_number)
        (syn_rcvd_complete-Follows p h peer s)
        (branch (flags_eq f flag_syn) answered
          (branch (flags_eq f flag_fin_ack) fin (ended (close_and_notify-state u))))

  handshake_completed-Follows :
      (f : Flags) (h : TcpHeader) (s : Socket x) → Follows syn_sent (handshake_completed f h s)
  unfolding handshake_completed
  handshake_completed-Follows f h s =
      let ecn = not (is_use_ecn_off s.tcb.use_ecn) && f.ece && not f.cwr in
      let r : Socket x = take_syn_sequence (expect_after h (establish s)) in
      let t : Socket x = update_pacing_rate r in
      let u : Socket x =
        set_tcb (λ b. record b { ecn_state = if ecn then ecn_idle else ecn_disabled })
          (send_empty_packet flag_ack t) in
      let e : u.state ≡ established =
        send_empty_packet-state flag_ack t refl
        ∙ update_pacing_rate-state r
        ∙ take-state (expect_after h (establish s))
        ∙ expect-state h (establish s)
        ∙ establish-state s in
      let k : Follows syn_sent (send_pending_data u.connected u).0 =
        Open-Follows syn_sent u _ refl e (send_pending_data-Onward u.connected u) in
      record { allowed = k.allowed }

  syn_sent_data-Follows :
      (p : x.Packet) (h : TcpHeader) (s : Socket x) → Follows syn_sent (syn_sent_data p h s)
  unfolding syn_sent_data
  syn_sent_data-Follows p h s =
      let t : Socket x = ack_first_at_once (establish s) in
      let e : t.state ≡ established = establish-state s in
      let k : Follows syn_sent (received_data p h t) =
        Open-Follows syn_sent t _ refl e (received_data-Onward p h t (low t e)) in
      record { allowed = k.allowed }

  syn_sent_syn-Follows :
      (f : Flags) (h : TcpHeader) (s : Socket x) → Follows syn_sent (syn_sent_syn f h s)
  unfolding syn_sent_syn expect_after
  syn_sent_syn-Follows f h s =
      let t : Socket x =
        expect_after h (record (set_state syn_rcvd s) { syn_count = s.syn_retries }) in
      let k : Follows syn_rcvd (answer_syn f t) = answer_syn-Follows f t refl in
      record { allowed = answer_follows _ k.allowed }

  pub process_syn_sent-Follows :
      (p : x.Packet) (h : TcpHeader) (s : Socket x)
      → s.state ≡ syn_sent
      → Follows syn_sent (process_syn_sent p h s)
  unfolding process_syn_sent
  process_syn_sent-Follows p h s e =
      let f = without_psh_urg h.flags in
      let u = if f.rst then s else send_rst s in
      ground (
        arith,
        syn_sent_data-Follows p h s,
        syn_sent_syn-Follows f h s,
        handshake_completed-Follows f h s,
        close_and_notify-state u,
      )
