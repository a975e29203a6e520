-- ===== src/Socket/Sending.antt =====
-- The steps of SendPendingData and the members of the socket that they leave alone
-- (NS3/1705069/TaskB/tcp-socket-base.cc).
use cse_322_computer_network.Base.{ℕ, zero, suc, ◌+◌, ◌<◌, ◌≡◌, arith, Bool, Option, none, some}
use cse_322_computer_network.Tcb.{Tcb, tx_start}
use cse_322_computer_network.Wire.{Flags}
use cse_322_computer_network.Net.{Net}
use cse_322_computer_network.Socket.State.{Socket}
use cse_322_computer_network.Socket.Send.{update_rtt_history, note_adv_wnd}
use cse_322_computer_network.Socket.Transmit.{
  available_window, start_pacing, note_cwr_sent, note_fin_sent, note_with_ack, send_data_header,
  note_data_sent, send_item, copy_item, send_data_packet, note_bytes_in_flight,
}
use cse_322_computer_network.Socket.Loop.{
  next_seg, ask_for_data, size_to_send, send_segment, send_chosen, send_from, send_on, send_round,
  send_pending_data, send_loop,
}

-- What the loop relies on: the event that transmission starts leaves the control block alone; the scoreboard answers with a range that is not empty; and a packet that is copied
-- from such a range puts bytes in flight.
pub record IsSending (x : Net) : Type 0 where
  pub keeps : (c : x.cong.State) (t : Tcb) → (x.cong.cwnd_event tx_start c t).1 ≡ t
  pub range :
      (w : ℕ) (b : Bool) (tx : x.Tx) (next next_high : ℕ)
      → x.tx_next_seg w b tx ≡ some (next, next_high)
      → 0 < x.seq.sub next_high next
  pub in_flight :
      (w : ℕ) (b : Bool) (tx : x.Tx) (next next_high n : ℕ)
      → x.tx_next_seg w b tx ≡ some (next, next_high)
      → 0 < n
      → x.tx_bytes_in_flight tx < x.tx_bytes_in_flight (x.tx_copy_from_sequence n next tx).0

module _ {x : Net} where
  -- The members that a step of the loop leaves alone.
  pub record Same (s t : Socket x) : Type 0 where
    pub c_wnd : t.tcb.c_wnd ≡ s.tcb.c_wnd
    pub segment_size : t.tcb.segment_size ≡ s.tcb.segment_size
    pub r_wnd : t.r_wnd ≡ s.r_wnd
    pub tx_buffer : t.tx_buffer ≡ s.tx_buffer
    pub rto : t.rto ≡ s.rto
    pub data_retr_count : t.data_retr_count ≡ s.data_retr_count
    pub mode : t.tcb.mode ≡ s.tcb.mode
    pub v_count : t.tcb.v_count ≡ s.tcb.v_count
    pub v_count_max : t.tcb.v_count_max ≡ s.tcb.v_count_max
    pub cong_state : t.tcb.cong_state ≡ s.tcb.cong_state
    pub ss_thresh : t.tcb.ss_thresh ≡ s.tcb.ss_thresh
    pub recover : t.recover ≡ s.recover

  start_pacing-Same : (sz : ℕ) (s : Socket x) → Same s (start_pacing sz s)
  unfolding start_pacing
  start_pacing-Same sz s = ground arith

  note_with_ack-Same : (b : Bool) (s : Socket x) → Same s (note_with_ack b s)
  note_with_ack-Same b s = ground arith

  note_cwr_sent-Same : (seq : ℕ) (b : Bool) (s : Socket x) → Same s (note_cwr_sent seq b s)
  unfolding note_cwr_sent
  note_cwr_sent-Same seq b s = ground arith

  note_fin_sent-Same : (n : ℕ) (s : Socket x) → Same s (note_fin_sent n s)
  unfolding note_fin_sent
  note_fin_sent-Same n s = ground arith

  send_data_header-Same :
      (f : Flags) (seq sz : ℕ) (s : Socket x) → Same s (send_data_header f seq sz s)
  unfolding send_data_header note_adv_wnd
  send_data_header-Same f seq sz s = ground arith

  update_rtt_history-Same :
      (seq sz : ℕ) (b : Bool) (s : Socket x) → Same s (update_rtt_history seq sz b s)
  unfolding update_rtt_history
  update_rtt_history-Same seq sz b s = ground arith

  note_data_sent-Same : (seq sz : ℕ) (b : Bool) (s : Socket x) → Same s (note_data_sent seq sz b s)
  unfolding note_data_sent
  note_data_sent-Same seq sz b s = ground (arith, update_rtt_history-Same seq sz b s)

  trans : {s t u : Socket x} → Same s t → Same t u → Same s u
  trans p q = ground (arith, p, q)

  pub send_item-Same :
      (seq : ℕ) (b : Bool) (item : x.Item) (s : Socket x) → Same s (send_item seq b item s)
  unfolding send_item
  send_item-Same seq b item s = trans (start_pacing-Same _ _) (
      trans (note_with_ack-Same _ _) (
        trans (note_cwr_sent-Same _ _ _) (
          trans (note_fin_sent-Same _ _)
            (trans (send_data_header-Same _ _ _ _) (note_data_sent-Same _ _ _ _)))))

  pub ask_for_data-Same : (a n : ℕ) (s : Socket x) → Same s (ask_for_data a n s)
  unfolding ask_for_data
  ask_for_data-Same a n s = ground arith

  -- The members that no round changes.
  pub record Kept (s t : Socket x) : Type 0 where
    pub c_wnd : t.tcb.c_wnd ≡ s.tcb.c_wnd
    pub segment_size : t.tcb.segment_size ≡ s.tcb.segment_size
    pub r_wnd : t.r_wnd ≡ s.r_wnd
    pub rto : t.rto ≡ s.rto
    pub data_retr_count : t.data_retr_count ≡ s.data_retr_count
    pub mode : t.tcb.mode ≡ s.tcb.mode
    pub v_count : t.tcb.v_count ≡ s.tcb.v_count
    pub v_count_max : t.tcb.v_count_max ≡ s.tcb.v_count_max
    pub cong_state : t.tcb.cong_state ≡ s.tcb.cong_state
    pub ss_thresh : t.tcb.ss_thresh ≡ s.tcb.ss_thresh
    pub recover : t.recover ≡ s.recover

  -- A packet is copied from the buffer, and nothing else of these members changes.
  pub send_data_packet_lem :
      (seq n : ℕ) (b : Bool) (s : Socket x)
      → let t = (send_data_packet seq n b s).0 in
        Kept s t × (t.tx_buffer ≡ (x.tx_copy_from_sequence n seq s.tx_buffer).0)
  unfolding send_data_packet
  send_data_packet_lem seq n b s =
      let (t, item) = copy_item seq n (note_bytes_in_flight s) in
      ground (arith, send_item-Same seq b item t)

  pub send_segment_lem :
      (next n : ℕ) (b : Bool) (s : Socket x)
      → IsSending x
      → let t = (send_segment next n b s).0 in
        Kept s t × (t.tx_buffer ≡ (x.tx_copy_from_sequence n next s.tx_buffer).0)
  unfolding send_segment
  send_segment_lem next n b s laws =
      let t = record s.tcb { next_tx_sequence = next } in
      let u : Socket x = record s { tcb = t } in
      let v : Socket x = record u {
        congestion = (x.cong.cwnd_event tx_start s.congestion t).0;
        tcb = t;
      } in
      let k = laws.keeps s.congestion t in
      ground (arith, k, send_data_packet_lem next n b u, send_data_packet_lem next n b v)

  send_chosen-Kept :
      (next : ℕ) (b : Bool) (o : Option ℕ) (s : Socket x)
      → IsSending x
      → Kept s (send_chosen next b o s).0
  unfolding send_chosen
  send_chosen-Kept next b none s laws = ground arith
  send_chosen-Kept next b (some size) s laws = ground (arith, send_segment_lem next size b s laws)

  send_from-Kept :
      (a : ℕ) (b : Bool) (o : Option (ℕ × ℕ)) (s : Socket x)
      → IsSending x
      → Kept s (send_from a b o s).0
  unfolding send_from
  send_from-Kept a b none s laws = ground arith
  send_from-Kept a b (some (next, next_high)) s laws =
      let t = ask_for_data a next s in
      let o = size_to_send a next next_high t in
      ground (arith, ask_for_data-Same a next s, send_chosen-Kept next b o t laws)

  pub send_round-Kept : (b : Bool) (s : Socket x) → IsSending x → Kept s (send_round b s).0
  unfolding send_round
  send_round-Kept b s laws =
      let t = note_bytes_in_flight s in
      ground (arith, send_from-Kept (available_window s) b (next_seg t) t laws)

  send_on-Kept :
      (o : Option ℕ) (n : ℕ) (s : Socket x) (rest : Socket x × ℕ)
      → Kept s rest.0
      → Kept s (send_on o n s rest).0
  unfolding send_on
  send_on-Kept none n s rest k = ground arith
  send_on-Kept (some sz) n s rest k = ground (arith, start_pacing-Same sz s)

  pub send_loop-Kept :
      (fuel n : ℕ) (b : Bool) (s : Socket x) → IsSending x → Kept s (send_loop fuel b n s).0
  unfolding send_loop
  send_loop-Kept zero n b s laws = ground arith
  send_loop-Kept (suc fuel) n b s laws =
      let (t, o) = send_round b s in
      let k = send_round-Kept b s laws in
      let rest = send_loop fuel b (n + 1) t in
      ground (arith, k, send_on-Kept o n t rest (send_loop-Kept fuel (n + 1) b t laws))

  -- SendPendingData keeps the congestion window, the segment size, the peer's window, the
  -- timeout, the data retries and the mode and counters of the Vegas modification, if the sending
  -- laws of IsSending hold.
  pub send_pending_data-Kept :
      (b : Bool) (s : Socket x) → IsSending x → Kept s (send_pending_data b s).0
  unfolding send_pending_data
  send_pending_data-Kept b s laws =
      ground (arith, send_loop-Kept (suc (available_window s)) 0 b s laws)
