-- ===== src/Socket/Accept.antt =====
-- What a peer's request makes of the copy of a listening socket: CompleteFork after Fork
-- (NS3/1705069/TaskB/tcp-socket-base.cc).
use cse_322_computer_network.Base.{
  ℕ, ◌+◌, ◌<◌, ◌≡◌, refl, arith, ◌∙◌, true, false, List, [], ◌∷◌, none, some, sub32, ltb, ◌&&◌,
  if◌then◌else◌, ap, ◌==◌, sym,
}
use cse_322_computer_network.Wire.{
  Flags, flag_syn_ack, flag_syn_ack_ece, TcpHeader, TcpOption, sent,
}
use cse_322_computer_network.Tcb.{EcnState, ecn_idle, ecn_disabled}
use cse_322_computer_network.Net.{Net}
use cse_322_computer_network.Socket.State.{
  set_tcb, syn_rcvd, Socket, EndPoint, send_empty, set_state, computed_rto,
}
use cse_322_computer_network.Socket.Send.{
  backoff_count, syn_attempt, note_adv_wnd, note_w_scale, update_rtt_history, note_ack_sent,
  send_empty_header, send_empty_from, send_empty_packet, advertised_window_size, add_syn_options,
  add_options, add_option_sack,
}
use cse_322_computer_network.Socket.Process.{expect_after}
use cse_322_computer_network.Socket.Input.{complete_fork}
use cse_322_computer_network.Socket.Fork.{Copies, fork, accept}

-- What the number that is set next is read back as: TcpRxBuffer.
abbrev pub KeepsNext : Net → Type 0
KeepsNext x = (n : ℕ) (r : x.Rx) → x.rx_next_sequence (x.rx_set_next_sequence n r) ≡ n

module _ {x : Net} where
  -- The state that a SYN-ACK leaves behind.
  pub record IsAnswered (f : Flags) (e : EndPoint) (s t : Socket x) : Type 0 where
    pub header : TcpHeader
    pub outputs : t.outputs ≡ sent header 0 ∷ s.outputs
    pub flags : header.flags ≡ f
    pub seq : header.seq ≡ s.tcb.next_tx_sequence
    pub ack_number : header.ack_number ≡ x.rx_next_sequence s.rx_buffer
    pub source_port : header.source_port ≡ e.local_port
    pub destination_port : header.destination_port ≡ e.peer_port
    pub state : t.state ≡ s.state
    pub next : t.tcb.next_tx_sequence ≡ s.tcb.next_tx_sequence
    pub retx_event : t.retx_event ≡ some (send_empty f (s.now + s.cn_timeout))
    pub syn_count : t.syn_count + 1 ≡ s.syn_count

  answer_header :
      (f : Flags) (seq w : ℕ) (os : List TcpOption) (e : EndPoint) (s t : Socket x)
      → f.syn ≡ true
      → f.ack ≡ true
      → s.end_point ≡ some e
      → s.retx_event ≡ none
      → seq ≡ t.tcb.next_tx_sequence
      → s.tcb ≡ t.tcb
      → s.rx_buffer ≡ t.rx_buffer
      → s.outputs ≡ t.outputs
      → s.state ≡ t.state
      → s.now + s.rto ≡ t.now + t.cn_timeout
      → s.syn_count + 1 ≡ t.syn_count
      → IsAnswered f e t (send_empty_header f seq w os s)
  unfolding send_empty_header note_ack_sent
  answer_header f seq w os e s t syn ack pe pr ps pt px po pst pto pc =
      let sacks = s.sack_enabled && ltb 0 (x.rx_sack_list_size s.rx_buffer) in
      let h : TcpHeader = record {
        flags = f;
        seq = seq;
        ack_number = x.rx_next_sequence s.rx_buffer;
        window_size = w;
        source_port = e.local_port;
        destination_port = e.peer_port;
        options = if sacks then add_option_sack s os else os;
      } in
      record {
        header = h;
        outputs = ground arith;
        flags = refl;
        seq = ps;
        ack_number = ap x.rx_next_sequence px;
        source_port = refl;
        destination_port = refl;
        state = ground arith;
        next = ground arith;
        retx_event = ground arith;
        syn_count = ground arith;
      }

  -- The first attempt waits for the connection timeout.
  first_attempt :
      (f : Flags) (seq w : ℕ) (os : List TcpOption) (e : EndPoint) (s u : Socket x)
      → f.syn ≡ true
      → f.ack ≡ true
      → s.end_point ≡ some e
      → s.retx_event ≡ none
      → seq ≡ s.tcb.next_tx_sequence
      → 0 < s.syn_retries
      → s.syn_retries < 4294967296
      → s.syn_count ≡ s.syn_retries
      → u ≡ note_w_scale (note_adv_wnd (record s { rto = computed_rto s }))
      → IsAnswered f e s (send_empty_header f seq w os (note_adv_wnd (syn_attempt seq u)))
  unfolding note_adv_wnd syn_attempt backoff_count update_rtt_history
  first_attempt f seq w os e s u syn ack pe pr ps pos small pc eu =
      let z : sub32 s.syn_retries s.syn_count ≡ 0 = omega arith in
      let o : sub32 s.syn_count 1 + 1 ≡ s.syn_count = omega arith in
      answer_header f seq w os e (note_adv_wnd (syn_attempt seq u)) s syn ack (ground arith)
        (ground arith) ps (ground arith) (ground arith) (ground arith) (ground arith)
        (ground (arith, z)) (ground (arith, o))

  answer_from :
      (f : Flags) (e : EndPoint) (s : Socket x)
      → f.syn ≡ true
      → f.ack ≡ true
      → s.end_point ≡ some e
      → s.retx_event ≡ none
      → 0 < s.syn_retries
      → s.syn_retries < 4294967296
      → s.syn_count ≡ s.syn_retries
      → IsAnswered f e s (send_empty_from f s.tcb.next_tx_sequence s)
  unfolding send_empty_from note_adv_wnd
  answer_from f e s syn ack pe pr pos small pc =
      let t : Socket x = note_adv_wnd (record s { rto = computed_rto s }) in
      let u : Socket x = note_w_scale t in
      let w = advertised_window_size false (syn_attempt s.tcb.next_tx_sequence u) in
      let os = add_syn_options (add_options s) t in
      let z : (u.syn_count == 0) ≡ false = ground arith in
      let r =
        first_attempt f s.tcb.next_tx_sequence w os e s u syn ack pe pr refl pos small pc refl in
      ground (arith, z, r)

  -- A SYN-ACK of a socket that has not used an attempt.
  pub answer :
      (f : Flags) (e : EndPoint) (s : Socket x)
      → f.syn ≡ true
      → f.ack ≡ true
      → f.fin ≡ false
      → s.state ≡ syn_rcvd
      → s.end_point ≡ some e
      → s.retx_event ≡ none
      → 0 < s.syn_retries
      → s.syn_retries < 4294967296
      → s.syn_count ≡ s.syn_retries
      → IsAnswered f e s (send_empty_packet f s)
  unfolding send_empty_packet
  answer f e s syn ack fin st pe pr pos small pc =
      let r = answer_from f e s syn ack pe pr pos small pc in ground (arith, r)

  -- A socket that has just been accepted: its answer, and what it waits for.
  pub record IsAccepted (e : EndPoint) (request : TcpHeader) (s t : Socket x) : Type 0 where
    pub reply : TcpHeader
    pub outputs : t.outputs ≡ sent reply 0 ∷ []
    pub syn : reply.flags.syn ≡ true
    pub ack : reply.flags.ack ≡ true
    pub rst : reply.flags.rst ≡ false
    pub seq : reply.seq ≡ t.tcb.next_tx_sequence
    pub ack_number : reply.ack_number ≡ x.seq.add request.seq 1
    pub source_port : reply.source_port ≡ e.local_port
    pub destination_port : reply.destination_port ≡ e.peer_port
    pub state : t.state ≡ syn_rcvd
    pub retx_event : t.retx_event ≡ some (send_empty reply.flags (s.now + s.cn_timeout))
    pub attempts : t.syn_count + 1 ≡ s.syn_retries

  answered-IsAccepted :
      (f : Flags) (e : EndPoint) (request : TcpHeader) (c : EcnState) (s t u : Socket x)
      → f.syn ≡ true
      → f.ack ≡ true
      → f.rst ≡ false
      → t.outputs ≡ []
      → t.state ≡ syn_rcvd
      → t.now + t.cn_timeout ≡ s.now + s.cn_timeout
      → t.syn_count ≡ s.syn_retries
      → x.rx_next_sequence t.rx_buffer ≡ x.seq.add request.seq 1
      → IsAnswered f e t u
      → IsAccepted e request s (set_tcb (λ b. record b { ecn_state = c }) u)
  answered-IsAccepted f e request c s t u syn ack rst po pst pto pc px a = record {
    reply = a.header;
    outputs = a.outputs ∙ ap (λ os. sent a.header 0 ∷ os) po;
    syn = ground (arith, a.flags);
    ack = ground (arith, a.flags);
    rst = ground (arith, a.flags);
    seq = a.seq ∙ sym a.next;
    ack_number = a.ack_number ∙ px;
    source_port = a.source_port;
    destination_port = a.destination_port;
    state = a.state ∙ pst;
    retx_event = rw (a.flags, a.retx_event, pto) refl;
    attempts = a.syn_count ∙ pc;
  }

  -- The copy that a listening socket makes for a request, if the listening socket is allowed at
  -- least one attempt, out of fewer than 2 ^ 32, and the receive buffer reads back the next
  -- sequence number that is set: whatever timers the listening socket had, the copy has sent one
  -- segment, from its end point, with SYN and ACK and without RST, that acknowledges the number
  -- after the request's, it is in SYN_RCVD with one attempt used, and it repeats the segment
  -- after the connection timeout.
  pub accept_answers :
      (k : Copies x) (e : EndPoint) (request : TcpHeader) (s : Socket x)
      → KeepsNext x
      → 0 < s.syn_retries
      → s.syn_retries < 4294967296
      → IsAccepted e request s (accept k (some e) none request s)
  unfolding accept complete_fork fork expect_after
  accept_answers k e request s keeps pos small =
      let c = fork k s in
      let t : Socket x = expect_after request (record (set_state syn_rcvd c) {
        end_point = some e;
        end_point6 = none;
        syn_count = c.syn_retries;
        data_retr_count = c.data_retries;
      }) in
      let a = answer flag_syn_ack e t refl refl refl refl refl refl pos small refl in
      let b = answer flag_syn_ack_ece e t refl refl refl refl refl refl pos small refl in
      let px = keeps (x.seq.add request.seq 1) c.rx_buffer in
      let plain =
        answered-IsAccepted flag_syn_ack e request ecn_disabled s t
          (send_empty_packet flag_syn_ack t) refl refl refl refl refl refl refl px a in
      let marked =
        answered-IsAccepted flag_syn_ack_ece e request ecn_idle s t
          (send_empty_packet flag_syn_ack_ece t) refl refl refl refl refl refl refl px b in
      ground (arith, plain, marked)
