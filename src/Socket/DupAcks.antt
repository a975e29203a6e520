-- ===== src/Socket/DupAcks.antt =====
-- Duplicate acknowledgements: from CA_OPEN over CA_DISORDER to the fast retransmit
-- (DupAck and EnterRecovery of NS3/1705069/TaskB/tcp-socket-base.cc).
use cse_322_computer_network.Base.{ℕ, zero, suc, ◌+◌, ◌<◌, ◌≡◌, refl, ap, ◌∙◌, arith, true, false}
use cse_322_computer_network.Tcb.{ca_open, ca_disorder}
use cse_322_computer_network.Net.{Net}
use cse_322_computer_network.Socket.State.{Socket}
use cse_322_computer_network.Socket.Ack.{
  count_dup_ack, leave_open, dup_ack, dup_ack_in_disorder, enter_recovery,
}

module _ {x : Net} where
  -- So many duplicate acknowledgements, one after the other.
  unfoldable pub dup_acks : ℕ → ℕ → Socket x → Socket x
  dup_acks zero delivered s = s
  dup_acks (suc k) delivered s = dup_ack delivered (dup_acks k delivered s)

  -- A socket in CA_DISORDER that has seen `n` duplicates.
  abbrev pub disordered : ℕ → Socket x → Socket x
  disordered n s = record s {
    dup_ack_count = n;
    congestion = (x.cong.congestion_state_set ca_disorder s.congestion s.tcb).0;
    tcb = record s.tcb { cong_state = ca_disorder };
  }

  -- The first one, in CA_OPEN, with a threshold above 1 and no loss seen.
  first_dup_ack :
      (delivered : ℕ) (s : Socket x)
      → s.tcb.cong_state ≡ ca_open
      → s.dup_ack_count ≡ 0
      → s.sack_enabled ≡ true
      → (x.cong.congestion_state_set ca_disorder s.congestion s.tcb).1 ≡ s.tcb
      → x.tx_is_lost (x.seq.add s.high_rx_ack_mark s.tcb.segment_size) s.tx_buffer ≡ false
      → 1 < s.retx_thresh
      → dup_ack delivered s ≡ disordered 1 s
  unfolding dup_ack dup_ack_in_disorder count_dup_ack leave_open
  first_dup_ack delivered s op z sack keeps lost thresh = ground (arith, keeps)

  -- A further one, below the threshold.
  further_dup_ack :
      (delivered : ℕ) (s : Socket x)
      → s.tcb.cong_state ≡ ca_disorder
      → s.sack_enabled ≡ true
      → x.tx_is_lost (x.seq.add s.high_rx_ack_mark s.tcb.segment_size) s.tx_buffer ≡ false
      → s.dup_ack_count + 1 < s.retx_thresh
      → s.retx_thresh < 4294967296
      → dup_ack delivered s ≡ record s { dup_ack_count = s.dup_ack_count + 1 }
  unfolding dup_ack dup_ack_in_disorder count_dup_ack leave_open
  further_dup_ack delivered s dis sack lost lt small = ground arith

  -- The one that reaches the threshold.
  last_dup_ack :
      (delivered : ℕ) (s : Socket x)
      → s.tcb.cong_state ≡ ca_disorder
      → s.recover_active ≡ false
      → s.dup_ack_count + 1 ≡ s.retx_thresh
      → s.retx_thresh < 4294967296
      → dup_ack delivered s ≡ enter_recovery delivered (record s { dup_ack_count = s.retx_thresh })
  unfolding dup_ack dup_ack_in_disorder count_dup_ack leave_open
  last_dup_ack delivered s dis inactive e small = ground arith

  -- From CA_OPEN with no duplicates counted, with SACK and no loss seen, fewer duplicate
  -- acknowledgements than the threshold, which is below 2 ^ 32, are counted, and nothing else
  -- changes but the congestion state to CA_DISORDER and the state of the congestion control,
  -- which keeps the control block when it is told of CA_DISORDER.
  pub dup_acks-disordered :
      (k delivered : ℕ) (s : Socket x)
      → s.tcb.cong_state ≡ ca_open
      → s.dup_ack_count ≡ 0
      → s.sack_enabled ≡ true
      → (x.cong.congestion_state_set ca_disorder s.congestion s.tcb).1 ≡ s.tcb
      → x.tx_is_lost (x.seq.add s.high_rx_ack_mark s.tcb.segment_size) s.tx_buffer ≡ false
      → suc k < s.retx_thresh
      → s.retx_thresh < 4294967296
      → dup_acks (suc k) delivered s ≡ disordered (suc k) s
  unfolding dup_acks
  dup_acks-disordered zero delivered s op z sack keeps lost lt small =
      first_dup_ack delivered s op z sack keeps lost lt
  dup_acks-disordered (suc k) delivered s op z sack keeps lost lt small =
      ap (dup_ack delivered)
        (dup_acks-disordered k delivered s op z sack keeps lost (omega arith) small)
      ∙ further_dup_ack delivered (disordered (suc k) s) refl sack lost (omega arith) small
      ∙ ap (λ n. disordered n s) (omega arith)

  -- From CA_OPEN with no duplicates counted, with SACK and no loss seen, as many duplicate
  -- acknowledgements as a threshold of at least two and below 2 ^ 32 says lead to CA_DISORDER and
  -- then, with the last of them, into EnterRecovery, if no recovery is active and the congestion
  -- control keeps the control block when it is told of CA_DISORDER.
  pub fast_retransmit :
      (k delivered : ℕ) (s : Socket x)
      → s.tcb.cong_state ≡ ca_open
      → s.dup_ack_count ≡ 0
      → s.sack_enabled ≡ true
      → (x.cong.congestion_state_set ca_disorder s.congestion s.tcb).1 ≡ s.tcb
      → x.tx_is_lost (x.seq.add s.high_rx_ack_mark s.tcb.segment_size) s.tx_buffer ≡ false
      → s.recover_active ≡ false
      → suc (suc k) ≡ s.retx_thresh
      → s.retx_thresh < 4294967296
      → dup_acks (suc (suc k)) delivered s ≡ enter_recovery delivered (disordered s.retx_thresh s)
  unfolding dup_acks
  fast_retransmit k delivered s op z sack keeps lost inactive e small =
      ap (dup_ack delivered)
        (dup_acks-disordered k delivered s op z sack keeps lost (omega arith) small)
      ∙ last_dup_ack delivered (disordered (suc k) s) refl inactive (omega arith) small
