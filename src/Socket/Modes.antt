-- ===== src/Socket/Modes.antt =====
-- The mode of the Vegas modification over a retransmission timeout: TcpSocketBase::ReTxTimeout and
-- TcpVegas::PktsAcked together (NS3/1705069/TaskB/tcp-socket-base.cc and tcp-vegas.cc).
use cse_322_computer_network.Base.{ℕ, suc, ◌<◌, ◌≤◌, ◌≡◌, List}
use cse_322_computer_network.Tcb.{aggresive}
use cse_322_computer_network.Net.{Net}
use cse_322_computer_network.Socket.State.{Socket}
use cse_322_computer_network.Socket.Timeouts.{minute}
use cse_322_computer_network.Socket.Sending.{IsSending}
use cse_322_computer_network.Socket.Backoff.{timeouts, FindData, timeouts-backoff}
use cse_322_computer_network.Vegas.{NewReno, Vegas}
use cse_322_computer_network.Vegas.Mode.{Sample, samples, rises, aggresive_needs}

module _ {x : Net} {n : NewReno} where
  -- After k + 1 calls of ReTxTimeout in a row, each of which finds data in the send buffer of a
  -- connection that is not in SYN_SENT, TIME_WAIT or CLOSED, with at least as many data retries
  -- left and a timeout of at most a minute, and under the sending laws of IsSending, samples turn
  -- the mode to aggresive only if more than v_count_max of them are above the sample before them
  -- at an unchanged window, whatever the mode was before the timeouts.
  pub aggresive_after_timeouts :
      (k : ℕ) (s : Socket x) (v : Vegas n) (ss : List Sample)
      → IsSending x
      → FindData (suc k) s
      → k < s.data_retr_count
      → s.rto ≤ minute
      → (samples ss v (timeouts (suc k) s).tcb).mode ≡ aggresive
      → let t = (timeouts (suc k) s).tcb in
        t.v_count_max < rises t.vegas_last_rtt t.vegas_last_cwnd ss
  aggresive_after_timeouts k s v ss laws d lt le a =
      let b = timeouts-backoff k s laws d lt le in
      aggresive_needs ss v (timeouts (suc k) s).tcb b.3 b.2 a
