-- ===== src/Socket/Backoff.antt =====
-- Retransmission timeouts in a row (ReTxTimeout of NS3/1705069/TaskB/tcp-socket-base.cc): the
-- exponential backoff, the retries, and the reset of the Vegas modification.
use cse_322_computer_network.Base.{
  ℕ, zero, suc, ◌+◌, ◌-◌, ◌*◌, ◌^◌, ◌≤◌, ◌<◌, min, ◌≡◌, arith, ◌==◌, false, none,
}
use cse_322_computer_network.Tcb.{moderate}
use cse_322_computer_network.Net.{Net}
use cse_322_computer_network.Socket.State.{Socket, is_closed, is_time_wait, is_syn_sent}
use cse_322_computer_network.Socket.Timeouts.{
  minute, reset_vegas, enter_loss, retransmit_data, re_tx_timeout,
}
use cse_322_computer_network.Socket.Sending.{IsSending, send_pending_data-Kept}
use cse_322_computer_network.Socket.Persist.{min_doubled}

module _ {x : Net} where
  -- ReTxTimeout, so many times.
  unfoldable pub timeouts : ℕ → Socket x → Socket x
  timeouts zero s = s
  timeouts (suc k) s = timeouts k (re_tx_timeout s)

  -- Data waits for its acknowledgement on a connection that has begun and is not over.
  pub record HasData (s : Socket x) : Type 0 where
    pub waiting : (x.tx_size s.tx_buffer == 0) ≡ false
    pub not_closed : is_closed s.state ≡ false
    pub not_time_wait : is_time_wait s.state ≡ false
    pub not_syn_sent : is_syn_sent s.state ≡ false

  -- Each of so many timeouts finds data.
  abbrev pub FindData : ℕ → Socket x → Type 0
  FindData zero s = Unit {0}
  FindData (suc k) s = HasData s × FindData k (re_tx_timeout s)

  enter_loss_lem :
      (s : Socket x)
      → let t = enter_loss s in
        (t.rto ≡ min minute (2 * s.rto))
        × (t.data_retr_count ≡ s.data_retr_count)
        × (t.tcb.mode ≡ moderate)
        × (t.tcb.v_count ≡ 0)
        × (t.tcb.c_wnd ≡ t.tcb.segment_size)
  unfolding enter_loss reset_vegas
  enter_loss_lem s = ground arith

  retransmit_data_lem :
      (s : Socket x)
      → IsSending x
      → 0 < s.data_retr_count
      → let t = retransmit_data s in
        (t.rto ≡ min minute (2 * s.rto))
        × (t.data_retr_count + 1 ≡ s.data_retr_count)
        × (t.tcb.mode ≡ moderate)
        × (t.tcb.v_count ≡ 0)
        × (t.tcb.c_wnd ≡ t.tcb.segment_size)
  unfolding retransmit_data
  retransmit_data_lem s laws pos =
      let u : Socket x = record s { data_retr_count = s.data_retr_count - 1 } in
      let t = enter_loss u in
      ground (arith, enter_loss_lem u, send_pending_data-Kept t.connected t laws)

  re_tx_timeout_lem :
      (s : Socket x)
      → IsSending x
      → HasData s
      → 0 < s.data_retr_count
      → let t = re_tx_timeout s in
        (t.rto ≡ min minute (2 * s.rto))
        × (t.data_retr_count + 1 ≡ s.data_retr_count)
        × (t.tcb.mode ≡ moderate)
        × (t.tcb.v_count ≡ 0)
        × (t.tcb.c_wnd ≡ t.tcb.segment_size)
  unfolding re_tx_timeout
  re_tx_timeout_lem s laws d pos =
      ground (arith, d, retransmit_data_lem (record s { retx_event = none }) laws pos)

  -- After k + 1 calls of ReTxTimeout in a row, each of which finds data in the send buffer of a
  -- connection that is not in SYN_SENT, TIME_WAIT or CLOSED, with at least as many data retries
  -- left and a timeout of at most a minute, the timeout is the first one doubled k + 1 times, but
  -- at most a minute, k + 1 retries are used up, the mode is moderate, the counter is 0 and the
  -- window is one segment; if the sending laws of IsSending hold.
  pub timeouts-backoff :
      (k : ℕ) (s : Socket x)
      → IsSending x
      → FindData (suc k) s
      → k < s.data_retr_count
      → s.rto ≤ minute
      → let t = timeouts (suc k) s in
        (t.rto ≡ min minute (s.rto * 2 ^ suc k))
        × (t.data_retr_count + suc k ≡ s.data_retr_count)
        × (t.tcb.mode ≡ moderate)
        × (t.tcb.v_count ≡ 0)
        × (t.tcb.c_wnd ≡ t.tcb.segment_size)
  unfolding timeouts
  timeouts-backoff zero s laws d lt le = ground (arith, re_tx_timeout_lem s laws d.0)
  timeouts-backoff (suc k) s laws d lt le =
      let p = re_tx_timeout_lem s laws d.0 (omega arith) in
      let r = timeouts-backoff k (re_tx_timeout s) laws d.1 (omega (arith, p)) (omega (arith, p)) in
      ground (arith, p, r, min_doubled minute s.rto (suc k))
