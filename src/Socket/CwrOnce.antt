-- ===== src/Socket/CwrOnce.antt =====
-- One reduction of the window for each window of data (EnterCwr and ReceivedAck of
-- NS3/1705069/TaskB/tcp-socket-base.cc).
use cse_322_computer_network.Base.{
  ℕ, ◌+◌, ◌-◌, ◌≡◌, arith, Bool, false, ◌&&◌, ltb, ◌==◌, if◌then◌else◌, List, [], ◌∷◌, u32, ap, ◌∙◌,
}
use cse_322_computer_network.Sequence.{gt}
use cse_322_computer_network.Tcb.{ca_cwr}
use cse_322_computer_network.Wire.{TcpHeader}
use cse_322_computer_network.Net.{Net}
use cse_322_computer_network.Socket.State.{Socket, set_tcb}
use cse_322_computer_network.Socket.Transmit.{
  bytes_in_flight, note_bytes_in_flight, update_pacing_rate,
}
use cse_322_computer_network.Socket.Ack.{enter_cwr, dup_ack, count_dup_ack, leave_open}
use cse_322_computer_network.Socket.ProcessAck.{
  count_acked, pkts_acked, advance, is_dup_ack, process_ack,
}
use cse_322_computer_network.Socket.ReceivedAck.{
  read_options, note_retrans_acked, leave_cwr, note_echo, fresh_ack, received_ack,
}
use cse_322_computer_network.Socket.Sending.{IsSending}
use cse_322_computer_network.Socket.Steady.{
  IsCalm, Steady, same-Steady, trans-Steady, branch-Steady,
}
use cse_322_computer_network.Socket.CongSteps.{
  update_pacing_rate-Steady, pkts_acked-Steady, cwr_ack-Steady,
}
use cse_322_computer_network.Socket.CongStates.{enter_cwr_lem}
use cse_322_computer_network.Socket.AckSteady.{
  read_options-Steady, note_retrans_acked-Steady, finished-Steady, take_data-Steady,
}

-- No segment acknowledges anything above the number.
abbrev pub Within : (x : Net) → ℕ → List (x.Packet × TcpHeader) → Type 0
Within x n [] = Unit {0}
Within x n ((p, h) ∷ hs) = (gt x.seq h.ack_number n ≡ false) × Within x n hs

module _ {x : Net} where
  -- ReceivedAck for one segment after the other.
  unfoldable pub received_acks : List (x.Packet × TcpHeader) → Socket x → Socket x
  received_acks [] s = s
  received_acks ((p, h) ∷ hs) s = received_acks hs (received_ack p h s)

  dup_ack-cwr : (n : ℕ) (s : Socket x) → s.tcb.cong_state ≡ ca_cwr → Steady s (dup_ack n s)
  unfolding dup_ack count_dup_ack leave_open
  dup_ack-cwr n s e = ground arith

  leave_cwr-cwr :
      (ack : ℕ) (s : Socket x) → gt x.seq ack s.recover ≡ false → Steady s (leave_cwr ack s)
  unfolding leave_cwr
  leave_cwr-cwr ack s below = ground arith

  note_echo-cwr :
      (ack old : ℕ) (b : Bool) (n : ℕ) (s : Socket x)
      → s.tcb.cong_state ≡ ca_cwr
      → Steady s (note_echo ack old b n s)
  unfolding note_echo
  note_echo-cwr ack old b n s e = ground arith

module _ {x : Net} (calm : IsCalm x) where
  advance-cwr :
      (ack old k : ℕ) (b : Bool) (d : ℕ) (s : Socket x)
      → s.tcb.cong_state ≡ ca_cwr
      → Steady s (advance ack old k b d s)
  unfolding advance
  advance-cwr ack old k b d s e =
      let acked = count_acked (x.seq.sub ack old) s.bytes_acked_not_processed s.tcb.segment_size in
      let t : Socket x = record s {
        bytes_acked_not_processed = acked.left;
        dup_ack_count = if b then s.dup_ack_count else 0;
      } in
      ground (arith, cwr_ack-Steady calm ack acked.segs d t)

  -- ProcessAck after the duplicate is dealt with.
  acknowledged-cwr :
      (ack old k : ℕ) (b : Bool) (d : ℕ) (u : Socket x)
      → u.tcb.cong_state ≡ ca_cwr
      → Steady u (
          if ack == old && ack == u.tcb.high_tx_mark
          then u
          else if ack == old && gt x.seq ack u.tcb.high_tx_mark
          then update_pacing_rate (set_tcb (λ t. record t { next_tx_sequence = ack }) u)
          else if ack == old
          then update_pacing_rate (pkts_acked 1 u)
          else if gt x.seq ack old
          then update_pacing_rate (advance ack old k b d u)
          else update_pacing_rate u)
  acknowledged-cwr ack old k b d u e =
      let v : Socket x = set_tcb (λ t. record t { next_tx_sequence = ack }) u in
      ground (
        arith,
        update_pacing_rate-Steady u,
        update_pacing_rate-Steady v,
        update_pacing_rate-Steady (pkts_acked 1 u),
        update_pacing_rate-Steady (advance ack old k b d u),
        pkts_acked-Steady calm 1 u,
        advance-cwr ack old k b d u,
      )

  process_ack-cwr :
      (ack : ℕ) (b : Bool) (d old : ℕ) (s : Socket x)
      → s.tcb.cong_state ≡ ca_cwr
      → Steady s (process_ack ack b d old s)
  unfolding process_ack
  process_ack-cwr ack b d old s e =
      let t : Socket x = record s { tcb = record s.tcb { last_acked_seq = ack } } in
      let dup = is_dup_ack ack old b t in
      let u : Socket x = if dup then dup_ack d t else t in
      let k : Steady s u = ground (arith, dup_ack-cwr d t) in
      trans-Steady k (acknowledged-cwr ack old s.dup_ack_count dup d u (k.cong_state ∙ e))

  fresh_ack-cwr :
      IsSending x
      → (p : x.Packet) (h : TcpHeader) (b : Bool) (k l m : ℕ) (s : Socket x)
      → s.tcb.cong_state ≡ ca_cwr
      → gt x.seq h.ack_number s.recover ≡ false
      → Steady s (fresh_ack p h b k l m s)
  unfolding fresh_ack
  fresh_ack-cwr laws p h b k l m s e below =
      let ack = h.ack_number in
      let old = x.tx_head_sequence s.tx_buffer in
      let t = note_retrans_acked ack old s in
      let (tx, rate) = x.tx_discard_up_to ack t.tx_buffer t.rate in
      let n = u32 (x.rate_delivered rate + 18446744073709551616 - k) in
      let u : Socket x = record t {
        tx_buffer = tx;
        rate = rate;
        tcb = record t.tcb { last_acked_sacked_bytes = n };
      } in
      let v : Socket x = leave_cwr ack u in
      let y : Socket x = note_echo ack old h.flags.ece n v in
      let w : Socket x = note_bytes_in_flight y in
      let z : Socket x = process_ack ack b n old w in
      let kt = note_retrans_acked-Steady ack old s in
      let ku : Steady s u = record {
        cong_state = kt.cong_state;
        ss_thresh = kt.ss_thresh;
        recover = kt.recover;
      } in
      let kv : Steady s v =
        trans-Steady ku (leave_cwr-cwr ack u (ap (λ r. gt x.seq ack r) kt.recover ∙ below)) in
      let ky : Steady s y =
        trans-Steady kv (note_echo-cwr ack old h.flags.ece n v (kv.cong_state ∙ e)) in
      let kw : Steady s w = record {
        cong_state = ky.cong_state;
        ss_thresh = ky.ss_thresh;
        recover = ky.recover;
      } in
      let kz = trans-Steady kw (process_ack-cwr ack b n old w (kw.cong_state ∙ e)) in
      trans-Steady kz (finished-Steady calm laws p h n l m z)

  received_ack-cwr :
      IsSending x
      → (p : x.Packet) (h : TcpHeader) (s : Socket x) → s.tcb.cong_state ≡ ca_cwr
      → gt x.seq h.ack_number s.recover ≡ false
      → Steady s (received_ack p h s)
  unfolding received_ack
  received_ack-cwr laws p h s e below =
      let (t, n) = read_options h.options 0 s in
      let k = read_options-Steady h.options 0 s in
      let f =
        fresh_ack-cwr laws p h (ltb 0 n) (x.rate_delivered s.rate) (x.tx_lost s.tx_buffer)
          s.tcb.bytes_in_flight t (k.cong_state ∙ e)
          (ap (λ r. gt x.seq h.ack_number r) k.recover ∙ below) in
      branch-Steady (x.seq.lt h.ack_number (x.tx_head_sequence t.tx_buffer))
        (trans-Steady k (take_data-Steady calm p h t)) (trans-Steady k f)

  received_acks-cwr :
      IsSending x
      → (hs : List (x.Packet × TcpHeader)) (s : Socket x) → s.tcb.cong_state ≡ ca_cwr
      → Within x s.recover hs
      → Steady s (received_acks hs s)
  unfolding received_acks
  received_acks-cwr laws [] s e w = same-Steady s
  received_acks-cwr laws ((p, h) ∷ hs) s e (below, w) =
      let k = received_ack-cwr laws p h s e below in
      trans-Steady k
        (received_acks-cwr laws hs (received_ack p h s) (k.cong_state ∙ e) (rw k.recover w))

  -- One reduction for each window of data: after EnterCwr, for any acknowledgements, with marks,
  -- duplicates and data, none of which is above the highest byte that was sent before, the socket
  -- is in CA_CWR, its recovery point is that byte, and the threshold is what GetSsThresh answered
  -- to EnterCwr; if the code of ns-3 leaves the congestion state and the threshold to the socket
  -- (IsCalm) and the sending laws of IsSending hold.
  pub cwr_once :
      IsSending x
      → (n : ℕ) (s : Socket x) (hs : List (x.Packet × TcpHeader)) → Within x s.tcb.high_tx_mark hs
      → let t = received_acks hs (enter_cwr n s) in
        (t.tcb.cong_state ≡ ca_cwr)
        × (t.recover ≡ s.tcb.high_tx_mark)
        × (t.tcb.ss_thresh
            ≡ x.cong.get_ss_thresh s.congestion (note_bytes_in_flight s).tcb (bytes_in_flight s))
  cwr_once laws n s hs w =
      let (e, r, th) = enter_cwr_lem calm n s in
      let k = received_acks-cwr laws hs (enter_cwr n s) e (rw r w) in
      (k.cong_state ∙ e, k.recover ∙ r, k.ss_thresh ∙ th)
