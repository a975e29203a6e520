-- ===== src/Tcb.antt =====
-- The transmission control block that a socket shares with its congestion control:
-- `TcpSocketState` of NS3/1705069/TaskB/tcp-socket-state.h. The receive buffer and the callback
-- of that class stay with the socket (Socket/State.antt). Times are nanoseconds.
use cse_322_computer_network.Base.{ℕ, ◌/◌, Bool, true, false}

-- `TcpCongState_t`, without the value that only names the end of the enumeration.
pub data CongState : Type 0 where
  ca_open ca_disorder ca_cwr ca_recovery ca_loss : CongState

-- `TcpCAEvent_t`.
pub data CaEvent : Type 0 where
  tx_start cwnd_restart complete_cwr loss ecn_no_ce ecn_is_ce delayed_ack non_delayed_ack : CaEvent

-- `UseEcn_t`.
pub data UseEcn : Type 0 where
  ecn_off ecn_on accept_only : UseEcn

-- `EcnCodePoint_t`.
pub data EcnCodePoint : Type 0 where
  not_ect ect1 ect0 cong_exp : EcnCodePoint

-- `EcnMode_t`.
pub data EcnMode : Type 0 where
  classic_ecn dctcp_ecn : EcnMode

-- `EcnState_t`.
pub data EcnState : Type 0 where
  ecn_disabled ecn_idle ecn_ce_rcvd ecn_sending_ece ecn_ece_rcvd ecn_cwr_sent : EcnState

-- `vegasMode`, with the spelling of the source.
pub data VegasMode : Type 0 where
  moderate aggresive : VegasMode

-- `v_count` and `v_count_max` are `int`; no operation makes them negative. `last_rtt` and
-- `last_cwnd` with the prefix `vegas` are the members `lastRtt` and `lastCwnd` that the
-- modification adds beside `m_lastRtt`.
pub record Tcb : Type 0 where
  pub c_wnd : ℕ
  pub c_wnd_infl : ℕ
  pub ss_thresh : ℕ
  pub initial_c_wnd : ℕ
  pub initial_ss_thresh : ℕ
  pub is_retrans_data_acked : Bool
  pub segment_size : ℕ
  pub last_acked_seq : ℕ
  pub cong_state : CongState
  pub ecn_state : EcnState
  pub high_tx_mark : ℕ
  pub next_tx_sequence : ℕ
  pub rcv_timestamp_value : ℕ
  pub rcv_timestamp_echo_reply : ℕ
  pub pacing : Bool
  pub max_pacing_rate : ℕ
  pub pacing_rate : ℕ
  pub pacing_ss_ratio : ℕ
  pub pacing_ca_ratio : ℕ
  pub pace_initial_window : Bool
  pub min_rtt : ℕ
  pub bytes_in_flight : ℕ
  pub last_rtt : ℕ
  pub ecn_mode : EcnMode
  pub use_ecn : UseEcn
  pub ect_code_point : EcnCodePoint
  pub last_acked_sacked_bytes : ℕ
  pub v_count : ℕ
  pub v_count_max : ℕ
  pub vegas_last_cwnd : ℕ
  pub vegas_last_rtt : ℕ
  pub mode : VegasMode

-- `Time::Max()`, the largest signed 64-bit count of nanoseconds.
abbrev pub time_max : ℕ
time_max = 9223372036854775807

-- A new block. `lastCwnd` has no initialiser in the source, so its value is an argument.
unfoldable pub new_tcb : ℕ → Tcb
new_tcb garbage = record {
  c_wnd = 0;
  c_wnd_infl = 0;
  ss_thresh = 0;
  initial_c_wnd = 0;
  initial_ss_thresh = 0;
  is_retrans_data_acked = false;
  segment_size = 0;
  last_acked_seq = 0;
  cong_state = ca_open;
  ecn_state = ecn_disabled;
  high_tx_mark = 0;
  next_tx_sequence = 0;
  rcv_timestamp_value = 0;
  rcv_timestamp_echo_reply = 0;
  pacing = false;
  max_pacing_rate = 4000000000;
  pacing_rate = 0;
  pacing_ss_ratio = 200;
  pacing_ca_ratio = 120;
  pace_initial_window = false;
  min_rtt = time_max;
  bytes_in_flight = 0;
  last_rtt = 0;
  ecn_mode = classic_ecn;
  use_ecn = ecn_off;
  ect_code_point = ect0;
  last_acked_sacked_bytes = 0;
  v_count = 0;
  v_count_max = 5;
  vegas_last_cwnd = garbage;
  vegas_last_rtt = 0;
  mode = moderate;
}

-- The copy constructor: `m_cWndInfl`, `m_isRetransDataAcked` and the members of the modification
-- are not in its list and take their initialisers.
unfoldable pub copy_tcb : ℕ → Tcb → Tcb
copy_tcb garbage other = record other {
  c_wnd_infl = 0;
  is_retrans_data_acked = false;
  v_count = 0;
  v_count_max = 5;
  vegas_last_cwnd = garbage;
  vegas_last_rtt = 0;
  mode = moderate;
}

-- Division by a segment size of 0 is not defined in the source; a theorem that uses this assumes
-- a positive size.
unfoldable pub get_cwnd_in_segments : Tcb → ℕ
get_cwnd_in_segments tcb = tcb.c_wnd / tcb.segment_size

unfoldable pub get_ss_thresh_in_segments : Tcb → ℕ
get_ss_thresh_in_segments tcb = tcb.ss_thresh / tcb.segment_size

-- The tests `==` of the source on these enumerations.
abbrev pub is_open : CongState → Bool
is_open ca_open = true
is_open _ = false

abbrev pub is_disorder : CongState → Bool
is_disorder ca_disorder = true
is_disorder _ = false

abbrev pub is_cwr : CongState → Bool
is_cwr ca_cwr = true
is_cwr _ = false

abbrev pub is_recovery : CongState → Bool
is_recovery ca_recovery = true
is_recovery _ = false

abbrev pub is_loss : CongState → Bool
is_loss ca_loss = true
is_loss _ = false

abbrev pub is_aggresive : VegasMode → Bool
is_aggresive aggresive = true
is_aggresive _ = false

abbrev pub is_ecn_disabled : EcnState → Bool
is_ecn_disabled ecn_disabled = true
is_ecn_disabled _ = false

abbrev pub is_ce_rcvd : EcnState → Bool
is_ce_rcvd ecn_ce_rcvd = true
is_ce_rcvd _ = false

abbrev pub is_ece_rcvd : EcnState → Bool
is_ece_rcvd ecn_ece_rcvd = true
is_ece_rcvd _ = false

-- `ECN_CE_RCVD` or `ECN_SENDING_ECE`: the next acknowledgement echoes the mark.
abbrev pub owes_echo : EcnState → Bool
owes_echo ecn_ce_rcvd = true
owes_echo ecn_sending_ece = true
owes_echo _ = false

abbrev pub is_use_ecn_on : UseEcn → Bool
is_use_ecn_on ecn_on = true
is_use_ecn_on _ = false

abbrev pub is_use_ecn_off : UseEcn → Bool
is_use_ecn_off ecn_off = true
is_use_ecn_off _ = false
