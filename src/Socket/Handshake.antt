-- ===== src/Socket/Handshake.antt =====
-- The handshake between two sockets: the request of one, the answer of the copy that the other
-- makes, and what each is once the answer and its acknowledgement have arrived
-- (NS3/1705069/TaskB/tcp-socket-base.cc).
use cse_322_computer_network.Base.{
  ℕ, ◌<◌, ◌≤◌, ◌≡◌, refl, arith, Bool, true, false, not, ◌&&◌, [], ◌∷◌, none, some, ap, ◌∙◌, sym,
  if◌then◌else◌,
}
use cse_322_computer_network.Tcb.{is_use_ecn_off, ecn_idle, ecn_disabled}
use cse_322_computer_network.Wire.{
  Flags, flag_ack, without_psh_urg, without_extras, TcpHeader, sent, notify_new_connection_created,
}
use cse_322_computer_network.Net.{Net}
use cse_322_computer_network.Socket.State.{
  Peer, TcpState, syn_sent, syn_rcvd, established, close_wait, last_ack, fin_wait_1, closing,
  Socket, EndPoint, emit, set_tcb,
}
use cse_322_computer_network.Socket.Send.{send_empty_packet}
use cse_322_computer_network.Socket.Transmit.{update_pacing_rate}
use cse_322_computer_network.Socket.Loop.{send_pending_data}
use cse_322_computer_network.Socket.Process.{
  expect_after, establish, take_syn_sequence, handshake_completed, process_syn_sent,
  syn_rcvd_complete, process_syn_rcvd, ack_first_at_once, set_peer_end,
}
use cse_322_computer_network.Socket.ReceivedAck.{received_ack}
use cse_322_computer_network.Socket.Phase.{
  phase, rank, corank, Onward, update_pacing_rate-state, send_pending_data-Onward,
}
use cse_322_computer_network.Socket.DataPhase.{send_empty_packet-state}
use cse_322_computer_network.Socket.ReceivedPhase.{received_ack-Onward}
use cse_322_computer_network.Socket.SynPhase.{finish-state}
use cse_322_computer_network.Socket.Input.{dispatch, leave_persist, do_forward_up}
use cse_322_computer_network.Socket.Reading.{has_timestamp}
use cse_322_computer_network.Socket.Arrival.{IsDispatched, ack-IsDispatched, syn-IsDispatched}
use cse_322_computer_network.Socket.Fork.{Copies, accept}
use cse_322_computer_network.Socket.Accept.{KeepsNext, IsAccepted, accept_answers}

reply_lem : {a b : TcpHeader} (n : ℕ) → sent a n ∷ [] ≡ sent b n ∷ [] → a ≡ b
reply_lem n e = ground arith

-- Established, or what follows when data, a FIN and their acknowledgements were waiting.
abbrev pub is_opened : TcpState → Bool
is_opened established = true
is_opened fin_wait_1 = true
is_opened closing = true
is_opened close_wait = true
is_opened last_ack = true
is_opened _ = false

opened_ranks : (a : TcpState) → is_opened a ≡ true → (phase a ≤ 3) × (3 ≤ rank a) × (3 ≤ corank a)
unfolding phase rank corank
opened_ranks a e = ground arith

ranks_opened : (a : TcpState) → 3 ≤ rank a → 3 ≤ corank a → is_opened a ≡ true
unfolding rank corank
ranks_opened a h k = ground arith

module _ {x : Net} where
  pub record IsOpen (s : Socket x) : Type 0 where
    pub opened : is_opened s.state ≡ true

  established-IsOpen : {s : Socket x} → s.state ≡ established → IsOpen s
  established-IsOpen e = record { opened = ap is_opened e }

  Onward-IsOpen : {s t : Socket x} → IsOpen s → Onward s t → IsOpen t
  Onward-IsOpen {s} {t} o k =
      let r = opened_ranks s.state o.opened in
      record {
        opened = ranks_opened t.state (omega (arith, r, k.ranked)) (omega (arith, r, k.coranked));
      }

  same-IsOpen : {s t : Socket x} → t.state ≡ s.state → IsOpen s → IsOpen t
  same-IsOpen e o = record { opened = ap is_opened e ∙ o.opened }

  establish_all :
      (h : TcpHeader) (s : Socket x)
      → (update_pacing_rate (take_syn_sequence (expect_after h (establish s)))).state ≡ established
  unfolding expect_after take_syn_sequence establish
  establish_all h s =
      let t : Socket x = take_syn_sequence (expect_after h (establish s)) in
      update_pacing_rate-state t

  handshake_completed-IsOpen :
      (f : Flags) (h : TcpHeader) (s : Socket x) → IsOpen (handshake_completed f h s)
  unfolding handshake_completed
  handshake_completed-IsOpen f h s =
      let ecn = not (is_use_ecn_off s.tcb.use_ecn) && f.ece && not f.cwr in
      let t : Socket x = update_pacing_rate (take_syn_sequence (expect_after h (establish s))) in
      let u : Socket x =
        set_tcb (λ b. record b { ecn_state = if ecn then ecn_idle else ecn_disabled })
          (send_empty_packet flag_ack t) in
      let e : u.state ≡ established = send_empty_packet-state flag_ack t refl ∙ establish_all h s in
      let k : IsOpen (send_pending_data u.connected u).0 =
        Onward-IsOpen (established-IsOpen e) (send_pending_data-Onward u.connected u) in
      record { opened = k.opened }

  started-state : (s : Socket x) → (take_syn_sequence (establish s)).state ≡ established
  unfolding take_syn_sequence establish
  started-state s = refl

  syn_rcvd_complete-IsOpen :
      (p : x.Packet) (h : TcpHeader) (peer : Peer) (s : Socket x)
      → IsOpen (syn_rcvd_complete p h peer s)
  unfolding syn_rcvd_complete
  syn_rcvd_complete-IsOpen p h peer s =
      let c = take_syn_sequence (establish s) in
      let t : Socket x =
        emit notify_new_connection_created (ack_first_at_once (set_peer_end peer c)) in
      let o : IsOpen t = established-IsOpen (started-state s) in
      let v : Socket x = received_ack p h t in
      let r = opened_ranks t.state o.opened in
      let k : IsOpen v = Onward-IsOpen o (received_ack-Onward p h t r.0) in
      same-IsOpen (finish-state v) k

  -- An answer with the right number completes the handshake.
  process_syn_sent-IsOpen :
      (p : x.Packet) (h : TcpHeader) (s : Socket x)
      → h.flags.syn ≡ true
      → h.flags.ack ≡ true
      → h.ack_number ≡ x.seq.add s.tcb.next_tx_sequence 1
      → IsOpen (process_syn_sent p h s)
  unfolding process_syn_sent
  process_syn_sent-IsOpen p h s syn ack e =
      ground (arith, handshake_completed-IsOpen (without_psh_urg h.flags) h s)

  process_syn_rcvd-IsOpen :
      (p : x.Packet) (h : TcpHeader) (peer : Peer) (s : Socket x)
      → without_extras h.flags ≡ flag_ack
      → h.ack_number ≡ x.seq.add s.tcb.next_tx_sequence 1
      → IsOpen (process_syn_rcvd p h peer s)
  unfolding process_syn_rcvd
  process_syn_rcvd-IsOpen p h peer s f e = ground (arith, syn_rcvd_complete-IsOpen p h peer s)

  leave_persist-IsOpen : (s : Socket x) → IsOpen s → IsOpen (leave_persist s)
  unfolding leave_persist
  leave_persist-IsOpen s o =
      let t : Socket x = record s { persist_event = none } in
      let k : IsOpen t = record { opened = o.opened } in
      ground (arith, o, Onward-IsOpen k (send_pending_data-Onward t.connected t))

  caller-IsOpen :
      (p : x.Packet) (h : TcpHeader) (accepts : Bool) (peer : Peer) (c : Socket x)
      → c.state ≡ syn_sent
      → h.flags.syn ≡ true
      → h.flags.ack ≡ true
      → h.ack_number ≡ x.seq.add c.tcb.next_tx_sequence 1
      → IsOpen (do_forward_up p h accepts peer c)
  unfolding dispatch
  caller-IsOpen p h accepts peer c st syn ack e =
      let d : IsDispatched p h accepts peer c = syn-IsDispatched p h accepts peer c syn in
      let v = d.read in
      let n = e ∙ ap (λ m. x.seq.add m 1) (sym d.untouched.next) in
      let g = ap (λ (a : TcpState). dispatch a p h accepts peer v) (d.untouched.state ∙ st) in
      let k : IsOpen (process_syn_sent p h v) = process_syn_sent-IsOpen p h v syn ack n in
      let l : IsOpen (leave_persist (process_syn_sent p h v)) =
        leave_persist-IsOpen (process_syn_sent p h v) k in
      same-IsOpen (ap (λ (w : Socket x). w.state) (d.result ∙ ap leave_persist g)) l

  copy-IsOpen :
      (p : x.Packet) (h : TcpHeader) (accepts : Bool) (peer : Peer) (c : Socket x)
      → c.state ≡ syn_rcvd
      → without_extras h.flags ≡ flag_ack
      → has_timestamp h c ≡ true
      → h.ack_number ≡ x.seq.add c.tcb.next_tx_sequence 1
      → IsOpen (do_forward_up p h accepts peer c)
  unfolding dispatch
  copy-IsOpen p h accepts peer c st f stamp e =
      let d : IsDispatched p h accepts peer c =
        ack-IsDispatched p h accepts peer c (ap (λ (g : Flags). g.syn) f)
          (ap (λ (g : Flags). g.ack) f) stamp in
      let v = d.read in
      let n = e ∙ ap (λ m. x.seq.add m 1) (sym d.untouched.next) in
      let g = ap (λ (a : TcpState). dispatch a p h accepts peer v) (d.untouched.state ∙ st) in
      let k : IsOpen (process_syn_rcvd p h peer v) = process_syn_rcvd-IsOpen p h peer v f n in
      let l : IsOpen (leave_persist (process_syn_rcvd p h peer v)) =
        leave_persist-IsOpen (process_syn_rcvd p h peer v) k in
      same-IsOpen (ap (λ (w : Socket x). w.state) (d.result ∙ ap leave_persist g)) l

  -- A caller in SYN_SENT and a listening socket that is allowed at least one attempt, out of
  -- fewer than 2 ^ 32: when the request has the caller's next sequence number and the copy of the
  -- listening socket sends one segment as its answer, then the caller, when the answer comes to
  -- its DoForwardUp, and the copy, when to its DoForwardUp comes any segment of the flag ACK, and
  -- of PSH, URG, CWR and ECE at most, that acknowledges the number after the answer's and has a
  -- timestamp if the copy has timestamps enabled, are each in ESTABLISHED, or have gone on from
  -- it at once to CLOSE_WAIT, LAST_ACK, FIN_WAIT_1 or CLOSING. The receive buffer reads back the
  -- next sequence number that is set.
  pub handshake :
      (k : Copies x) (e : EndPoint) (request reply h : TcpHeader) (s c : Socket x) (p q : x.Packet)
      (accepts : Bool) (callee caller : Peer)
      → KeepsNext x
      → 0 < s.syn_retries
      → s.syn_retries < 4294967296
      → c.state ≡ syn_sent
      → request.seq ≡ c.tcb.next_tx_sequence
      → (accept k (some e) none request s).outputs ≡ sent reply 0 ∷ []
      → without_extras h.flags ≡ flag_ack
      → has_timestamp h (accept k (some e) none request s) ≡ true
      → h.ack_number ≡ x.seq.add reply.seq 1
      → IsOpen (do_forward_up p reply accepts callee c)
        × IsOpen (do_forward_up q h accepts caller (accept k (some e) none request s))
  handshake k e request reply h s c p q accepts callee caller keeps pos small st er out f stamp n =
      let t : Socket x = accept k (some e) none request s in
      let a : IsAccepted e request s t = accept_answers k e request s keeps pos small in
      let r : reply ≡ a.reply = reply_lem 0 (sym out ∙ a.outputs) in
      let to = λ (g : TcpHeader). x.seq.add g.seq 1 in
      (
        caller-IsOpen p reply accepts callee c st (ap (λ (g : TcpHeader). g.flags.syn) r ∙ a.syn)
            (ap (λ (g : TcpHeader). g.flags.ack) r ∙ a.ack)
            (ap (λ (g : TcpHeader). g.ack_number) r ∙ a.ack_number ∙ ap (λ m. x.seq.add m 1) er),
        copy-IsOpen q h accepts caller t a.state f stamp
            (n ∙ ap to r ∙ ap (λ m. x.seq.add m 1) a.seq),
      )
