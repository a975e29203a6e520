-- ===== src/Socket/Create.antt =====
-- A new socket: the default constructor, the initial values of the members and the attributes of
-- TcpSocketBase (NS3/1705069/TaskB/tcp-socket-base.cc and tcp-socket-base.h).
use cse_322_computer_network.Base.{ℕ, true, false, none, []}
use cse_322_computer_network.Tcb.{new_tcb, time_max}
use cse_322_computer_network.Net.{Net}
use cse_322_computer_network.Socket.State.{Socket, closed, error_noterror, ◌▷◌, set_tcb}
use cse_322_computer_network.Socket.Settings.{set_min_rto, set_clock_granularity}
use cse_322_computer_network.Socket.Api.{set_retx_thresh}

-- The objects of ns-3 that a new socket has: buffers, rate operations, and what
-- TcpL4Protocol::CreateSocket gives it. `garbage` is what `lastCwnd` holds.
pub record Parts (x : Net) : Type 0 where
  pub new_tx : x.Tx
  pub new_rx : x.Rx
  pub new_rate : x.Rate
  pub rtt : x.Rtt
  pub congestion : x.cong.State
  pub recovery : x.Recovery
  pub garbage : ℕ

module _ {x : Net} where
  -- The members as the header initialises them.
  unfoldable pub blank_socket : ℕ → Parts x → Socket x
  blank_socket now p = record {
    now = now;
    outputs = [];
    retx_event = none;
    last_ack_event = none;
    del_ack_event = none;
    persist_event = none;
    timewait_event = none;
    send_pending_data_event = none;
    pacing_timer = none;
    dup_ack_count = 0;
    del_ack_count = 0;
    del_ack_max_count = 0;
    no_delay = false;
    syn_count = 0;
    syn_retries = 0;
    data_retr_count = 0;
    data_retries = 0;
    rto = 0;
    min_rto = time_max;
    clock_granularity = 1000000;
    del_ack_timeout = 0;
    persist_timeout = 0;
    cn_timeout = 0;
    history = [];
    end_point = none;
    end_point6 = none;
    rtt = p.rtt;
    tx_buffer = p.new_tx;
    rx_buffer = p.new_rx;
    state = closed;
    errno = error_noterror;
    close_notified = false;
    close_on_empty = false;
    shutdown_send = false;
    shutdown_recv = false;
    connected = false;
    msl = 0;
    max_win_size = 0;
    bytes_acked_not_processed = 0;
    high_tx_ack = 0;
    r_wnd = 0;
    adv_wnd = 0;
    high_rx_mark = 0;
    high_rx_ack_mark = 0;
    sack_enabled = true;
    win_scaling_enabled = true;
    rcv_wind_shift = 0;
    snd_wind_shift = 0;
    timestamp_enabled = true;
    timestamp_to_echo = 0;
    recover = 0;
    recover_active = false;
    retx_thresh = 3;
    limited_tx = true;
    tcb = new_tcb p.garbage;
    congestion = p.congestion;
    recovery = p.recovery;
    rate = p.new_rate;
    is_first_partial_ack = true;
    ecn_echo_seq = 0;
    ecn_ce_seq = 0;
    ecn_cwr_seq = 0;
  }

  -- The default constructor.
  unfoldable pub construct : ℕ → Parts x → Socket x
  construct now p = set_tcb (λ t. record t { pacing_rate = t.max_pacing_rate }) (blank_socket now p)

  -- The attributes of TcpSocketBase whose defaults differ from the initial values; those of
  -- TcpSocket, which ns-3 has, come by the settings.
  unfoldable pub new_socket : ℕ → Parts x → Socket x
  new_socket now p =
      record (construct now p) { msl = 120000000000; max_win_size = 65535 }
      ▷ set_min_rto 1000000000
      ▷ set_clock_granularity 1000000
      ▷ set_retx_thresh 3
