-- ===== src/Socket/CongTable.antt =====
-- The congestion states that may follow each other when an acknowledgement arrives: DupAck and
-- ProcessAck (NS3/1705069/TaskB/tcp-socket-base.cc).
use cse_322_computer_network.Base.{
  ℕ, ◌-◌, ◌≡◌, refl, arith, Bool, true, false, ◌&&◌, ◌==◌, if◌then◌else◌, ◌∙◌,
}
use cse_322_computer_network.Sequence.{gt}
use cse_322_computer_network.Tcb.{
  CongState, ca_open, ca_disorder, ca_cwr, ca_recovery, ca_loss, is_open, is_recovery,
}
use cse_322_computer_network.Net.{Net}
use cse_322_computer_network.Socket.State.{Socket, set_tcb, cong_call}
use cse_322_computer_network.Socket.Transmit.{update_pacing_rate}
use cse_322_computer_network.Socket.Ack.{dup_ack_in_disorder, leave_open, count_dup_ack, dup_ack}
use cse_322_computer_network.Socket.Ack.{new_ack}
use cse_322_computer_network.Socket.ProcessAck.{
  count_acked, pkts_acked, settle, leave_recovery, grow_window, deactivate_recover, full_ack,
  advance, is_dup_ack, process_ack,
}
use cse_322_computer_network.Socket.Steady.{IsCalm}
use cse_322_computer_network.Socket.CongSteps.{
  update_pacing_rate-Steady, new_ack-Steady, pkts_acked-Steady, enter_recovery-cong,
  dup_ack_in_recovery-Steady, partial_ack-Steady, cwr_ack-Steady, loss_ack-cong,
}

-- What duplicates do.
abbrev dup_follows : CongState → CongState → Bool
dup_follows ca_open ca_open = true
dup_follows ca_open ca_disorder = true
dup_follows ca_open ca_recovery = true
dup_follows ca_disorder ca_disorder = true
dup_follows ca_disorder ca_recovery = true
dup_follows ca_recovery ca_recovery = true
dup_follows ca_loss ca_loss = true
dup_follows ca_cwr ca_cwr = true
dup_follows _ _ = false

-- What an acknowledgement of new data does.
abbrev new_follows : CongState → CongState → Bool
new_follows ca_open ca_open = true
new_follows ca_disorder ca_disorder = true
new_follows ca_disorder ca_open = true
new_follows ca_recovery ca_recovery = true
new_follows ca_recovery ca_open = true
new_follows ca_loss ca_loss = true
new_follows ca_loss ca_open = true
new_follows ca_cwr ca_cwr = true
new_follows _ _ = false

-- Both in one.
abbrev pub ack_follows : CongState → CongState → Bool
ack_follows ca_open ca_open = true
ack_follows ca_open ca_disorder = true
ack_follows ca_open ca_recovery = true
ack_follows ca_disorder ca_open = true
ack_follows ca_disorder ca_disorder = true
ack_follows ca_disorder ca_recovery = true
ack_follows ca_recovery ca_open = true
ack_follows ca_recovery ca_recovery = true
ack_follows ca_loss ca_open = true
ack_follows ca_loss ca_loss = true
ack_follows ca_cwr ca_cwr = true
ack_follows _ _ = false

both_follow :
    (a b c : CongState) → dup_follows a b ≡ true → new_follows b c ≡ true → ack_follows a c ≡ true
both_follow a b c = ground arith

dup_same : (a : CongState) → dup_follows a a ≡ true
dup_same a = ground arith

new_same : (a : CongState) → new_follows a a ≡ true
new_same a = ground arith

module _ {x : Net} (calm : IsCalm x) where
  dup_ack_in_disorder-cong :
      (n : ℕ) (s : Socket x)
      → s.tcb.cong_state ≡ ca_disorder
      → dup_follows ca_disorder (dup_ack_in_disorder n s).tcb.cong_state ≡ true
  unfolding dup_ack_in_disorder
  dup_ack_in_disorder-cong n s e = ground (arith, enter_recovery-cong calm n s)

  leave_open-cong :
      (s : Socket x)
      → (leave_open s).tcb.cong_state
        ≡ (if is_open s.tcb.cong_state then ca_disorder else s.tcb.cong_state)
  unfolding leave_open
  leave_open-cong s = ground arith

  count_dup_ack-cong : (s : Socket x) → (count_dup_ack s).tcb.cong_state ≡ s.tcb.cong_state
  unfolding count_dup_ack
  count_dup_ack-cong s = ground arith

  dup_ack-cong :
      (n : ℕ) (s : Socket x) → dup_follows s.tcb.cong_state (dup_ack n s).tcb.cong_state ≡ true
  unfolding dup_ack
  dup_ack-cong n s =
      let u : Socket x = count_dup_ack s in
      let t : Socket x = leave_open u in
      let k = dup_ack_in_recovery-Steady calm n t in
      ground (
        arith,
        dup_same s.tcb.cong_state,
        count_dup_ack-cong s,
        leave_open-cong u,
        k.cong_state,
        dup_ack_in_disorder-cong n t,
      )

  settle-cong :
      (c : CongState) (ack old n k : ℕ) (b : Bool) (s : Socket x)
      → s.tcb.cong_state ≡ c
      → new_follows c (settle c ack old n k b s).0.tcb.cong_state ≡ true
  unfolding settle
  settle-cong ca_open ack old n k b s e =
      let k = calm.acked n s.tcb.last_rtt s.congestion s.tcb in rw (k.0 ∙ e) refl
  settle-cong ca_disorder ack old n k b s e =
      ground (arith, calm.acked (n - k) s.tcb.last_rtt s.congestion s.tcb)
  settle-cong ca_recovery ack old n k b s e = refl
  settle-cong ca_loss ack old n k b s e = refl
  settle-cong ca_cwr ack old n k b s e = rw e refl

  leave_recovery-cong :
      (ack : ℕ) (s : Socket x) → (leave_recovery ack s).tcb.cong_state ≡ s.tcb.cong_state
  leave_recovery-cong ack s =
      let t : Socket x = new_ack ack true s in
      let u : Socket x = set_tcb (λ b. record b { c_wnd = b.ss_thresh }) t in
      let k = new_ack-Steady ack true s in let l = calm.leave u.recovery u.tcb in l.0 ∙ k.cong_state

  grow_window-cong :
      (ack n : ℕ) (s : Socket x) → (grow_window ack n s).tcb.cong_state ≡ s.tcb.cong_state
  grow_window-cong ack n s =
      let t : Socket x = cong_call (x.cong.increase_window n) s in
      let u : Socket x = set_tcb (λ b. record b { c_wnd_infl = b.c_wnd }) t in
      let k = new_ack-Steady ack true u in
      ground (arith, k.cong_state, calm.increase n s.congestion s.tcb)

  full_ack-cong :
      (ack old n k : ℕ) (b : Bool) (s : Socket x)
      → new_follows s.tcb.cong_state (full_ack ack old n k b s).tcb.cong_state ≡ true
  unfolding full_ack
  full_ack-cong ack old n k b s =
      let a = s.tcb.cong_state in
      let (t, m) = settle a ack old n k b s in
      let u : Socket x = deactivate_recover ack t in
      let w : Socket x = if is_recovery a then leave_recovery ack u else u in
      let e : u.tcb.cong_state ≡ t.tcb.cong_state = ground arith in
      let f : w.tcb.cong_state ≡ u.tcb.cong_state = ground (arith, leave_recovery-cong ack u) in
      rw (grow_window-cong ack m w ∙ f ∙ e) (settle-cong a ack old n k b s refl)

  advance-cong :
      (ack old k : ℕ) (b : Bool) (d : ℕ) (s : Socket x)
      → new_follows s.tcb.cong_state (advance ack old k b d s).tcb.cong_state ≡ true
  unfolding advance
  advance-cong ack old k b d s =
      let acked = count_acked (x.seq.sub ack old) s.bytes_acked_not_processed s.tcb.segment_size in
      let t : Socket x = record s {
        bytes_acked_not_processed = acked.left;
        dup_ack_count = if b then s.dup_ack_count else 0;
      } in
      let p = partial_ack-Steady calm ack acked d t in
      let c = cwr_ack-Steady calm ack acked.segs d t in
      let same = new_same s.tcb.cong_state in
      ground (
        arith,
        same,
        p.cong_state,
        loss_ack-cong calm ack acked.segs t,
        c.cong_state,
        full_ack-cong ack old acked.segs k b t,
      )

  -- ProcessAck after the duplicate is dealt with.
  acknowledged-cong :
      (ack old k : ℕ) (b : Bool) (d : ℕ) (u : Socket x)
      → new_follows u.tcb.cong_state
          (if ack == old && ack == u.tcb.high_tx_mark
            then u
            else if ack == old && gt x.seq ack u.tcb.high_tx_mark
            then update_pacing_rate (set_tcb (λ t. record t { next_tx_sequence = ack }) u)
            else if ack == old
            then update_pacing_rate (pkts_acked 1 u)
            else if gt x.seq ack old
            then update_pacing_rate (advance ack old k b d u)
            else update_pacing_rate u).tcb.cong_state
        ≡ true
  acknowledged-cong ack old k b d u =
      let v : Socket x = set_tcb (λ t. record t { next_tx_sequence = ack }) u in
      let p : Socket x = pkts_acked 1 u in
      let q = advance ack old k b d u in
      let ku = update_pacing_rate-Steady u in
      let kv = update_pacing_rate-Steady v in
      let kp = update_pacing_rate-Steady p in
      let kq = update_pacing_rate-Steady q in
      let ka = pkts_acked-Steady calm 1 u in
      ground (
        arith,
        new_same u.tcb.cong_state,
        ku.cong_state,
        kv.cong_state,
        kp.cong_state,
        ka.cong_state,
        kq.cong_state,
        advance-cong ack old k b d u,
      )

  pub process_ack-cong :
      (ack : ℕ) (b : Bool) (d old : ℕ) (s : Socket x)
      → ack_follows s.tcb.cong_state (process_ack ack b d old s).tcb.cong_state ≡ true
  unfolding process_ack
  process_ack-cong ack b d old s =
      let t : Socket x = record s { tcb = record s.tcb { last_acked_seq = ack } } in
      let dup = is_dup_ack ack old b t in
      let u : Socket x = if dup then dup_ack d t else t in
      let k : dup_follows s.tcb.cong_state u.tcb.cong_state ≡ true =
        ground (arith, dup_ack-cong d t, dup_same s.tcb.cong_state) in
      both_follow s.tcb.cong_state u.tcb.cong_state _ k
        (acknowledged-cong ack old s.dup_ack_count dup d u)
