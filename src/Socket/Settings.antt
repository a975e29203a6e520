-- ===== src/Socket/Settings.antt =====
-- The settings of a socket that an application or an attribute makes
-- (NS3/1705069/TaskB/tcp-socket-base.cc). `none` is an abort of the program.
use cse_322_computer_network.Base.{ℕ, Bool, false, ◌||◌, ◌==◌, if◌then◌else◌, Option, none, some}
use cse_322_computer_network.Tcb.{UseEcn}
use cse_322_computer_network.Net.{Net}
use cse_322_computer_network.Socket.State.{Socket, is_closed, set_tcb, cong_call}

-- The kinds of option that IsTcpOptionEnabled tells apart.
pub data OptionKind : Type 0 where
  ts winscale sackpermitted sack other_kind : OptionKind

module _ {x : Net} where
  -- The initial window and threshold change only while the socket is closed.
  unfoldable pub set_initial_ss_thresh : ℕ → Socket x → Option (Socket x)
  set_initial_ss_thresh threshold s =
      if is_closed s.state || threshold == s.tcb.initial_ss_thresh
      then some (set_tcb (λ t. record t { initial_ss_thresh = threshold }) s)
      else none

  unfoldable pub set_initial_cwnd : ℕ → Socket x → Option (Socket x)
  set_initial_cwnd cwnd s =
      if is_closed s.state || cwnd == s.tcb.initial_c_wnd
      then some (set_tcb (λ t. record t { initial_c_wnd = cwnd }) s)
      else none

  unfoldable pub set_seg_size : ℕ → Socket x → Option (Socket x)
  set_seg_size size s =
      if is_closed s.state
      then some (
          set_tcb (λ t. record t { segment_size = size })
            (record s { tx_buffer = x.tx_set_segment_size size s.tx_buffer }))
      else none

  unfoldable pub set_snd_buf_size : ℕ → Socket x → Socket x
  set_snd_buf_size size s = record s { tx_buffer = x.tx_set_max_buffer_size size s.tx_buffer }

  unfoldable pub set_conn_timeout : ℕ → Socket x → Socket x
  set_conn_timeout timeout s = record s { cn_timeout = timeout }

  unfoldable pub set_syn_retries : ℕ → Socket x → Socket x
  set_syn_retries count s = record s { syn_retries = count }

  unfoldable pub set_data_retries : ℕ → Socket x → Socket x
  set_data_retries retries s = record s { data_retries = retries }

  unfoldable pub set_del_ack_timeout : ℕ → Socket x → Socket x
  set_del_ack_timeout timeout s = record s { del_ack_timeout = timeout }

  unfoldable pub set_del_ack_max_count : ℕ → Socket x → Socket x
  set_del_ack_max_count count s = record s { del_ack_max_count = count }

  unfoldable pub set_tcp_no_delay : Bool → Socket x → Socket x
  set_tcp_no_delay no_delay s = record s { no_delay = no_delay }

  unfoldable pub set_persist_timeout : ℕ → Socket x → Socket x
  set_persist_timeout timeout s = record s { persist_timeout = timeout }

  unfoldable pub set_min_rto : ℕ → Socket x → Socket x
  set_min_rto min_rto s = record s { min_rto = min_rto }

  unfoldable pub set_clock_granularity : ℕ → Socket x → Socket x
  set_clock_granularity granularity s = record s { clock_granularity = granularity }

  unfoldable pub set_pacing_status : Bool → Socket x → Socket x
  set_pacing_status pacing s = set_tcb (λ t. record t { pacing = pacing }) s

  unfoldable pub set_pace_initial_window : Bool → Socket x → Socket x
  set_pace_initial_window pace s = set_tcb (λ t. record t { pace_initial_window = pace }) s

  unfoldable pub set_use_ecn : UseEcn → Socket x → Socket x
  set_use_ecn use_ecn s = set_tcb (λ t. record t { use_ecn = use_ecn }) s

  unfoldable pub set_congestion_control_algorithm : x.cong.State → Socket x → Socket x
  set_congestion_control_algorithm algo s = cong_call x.cong.init (record s { congestion = algo })

  unfoldable pub set_recovery_algorithm : x.Recovery → Socket x → Socket x
  set_recovery_algorithm recovery s = record s { recovery = recovery }

  unfoldable pub set_rtt : x.Rtt → Socket x → Socket x
  set_rtt rtt s = record s { rtt = rtt }

  unfoldable pub is_tcp_option_enabled : OptionKind → Socket x → Bool
  is_tcp_option_enabled ts s = s.timestamp_enabled
  is_tcp_option_enabled winscale s = s.win_scaling_enabled
  is_tcp_option_enabled sackpermitted s = s.sack_enabled
  is_tcp_option_enabled sack s = s.sack_enabled
  is_tcp_option_enabled other_kind s = false

  unfoldable pub get_tx_available : Socket x → ℕ
  get_tx_available s = x.tx_available s.tx_buffer

  unfoldable pub get_rx_available : Socket x → ℕ
  get_rx_available s = x.rx_available s.rx_buffer
