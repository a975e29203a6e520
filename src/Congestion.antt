-- ===== src/Congestion.antt =====
-- `TcpCongestionOps`, the interface between a socket and its congestion control, which is code of
-- ns-3. A socket takes a value of this record; `Vegas.Ops` makes one from TcpVegas.
use cse_322_computer_network.Base.{ℕ, Bool}
use cse_322_computer_network.Tcb.{Tcb, CongState, CaEvent}

-- `Sample` is the pair of rate structures that `CongControl` is given. Each operation takes and
-- returns the algorithm's own state beside the block.
pub record CongestionOps (Sample : Type 0) : Type 1 where
  pub State : Type 0
  pub has_cong_control : State → Bool
  pub get_ss_thresh : State → Tcb → ℕ → ℕ
  pub increase_window : ℕ → State → Tcb → State × Tcb
  pub pkts_acked : ℕ → ℕ → State → Tcb → State × Tcb
  pub congestion_state_set : CongState → State → Tcb → State × Tcb
  pub cwnd_event : CaEvent → State → Tcb → State × Tcb
  pub cong_control : Sample → State → Tcb → State × Tcb
  pub init : State → Tcb → State × Tcb
  pub fork : State → State
