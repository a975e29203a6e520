-- ===== src/Socket/State.antt =====
-- The members of TcpSocketBase (NS3/1705069/TaskB/tcp-socket-base.h) and small steps on them.
use cse_322_computer_network.Base.{ℕ, ◌+◌, ◌*◌, max, Bool, true, false, Option, List, ◌∷◌}
use cse_322_computer_network.Tcb.{Tcb}
use cse_322_computer_network.Wire.{Flags, Output}
use cse_322_computer_network.Net.{Net}

-- `TcpStates_t` of ns-3.
pub data TcpState : Type 0 where
  closed listen syn_sent syn_rcvd established : TcpState
  close_wait last_ack fin_wait_1 fin_wait_2 closing time_wait : TcpState

-- The handler that the retransmission event runs when it expires, with the time it is due.
pub data RetxEvent : Type 0 where
  retx_timeout : ℕ → RetxEvent
  send_empty : Flags → ℕ → RetxEvent

-- What a socket knows of its end point in TcpL4Protocol; addresses are numbers, 0 is `GetAny`.
pub record EndPoint : Type 0 where
  pub local_address : ℕ
  pub local_port : ℕ
  pub peer_address : ℕ
  pub peer_port : ℕ

-- Where a segment came from: the address and the port.
abbrev pub Peer : Type 0
Peer = ℕ × ℕ

-- `RttHistory`.
pub record RttHistory : Type 0 where
  pub seq : ℕ
  pub count : ℕ
  pub time : ℕ
  pub retx : Bool

-- `SocketErrno`, the values that this code sets, and one that a routing protocol gives it.
pub data SocketErrno : Type 0 where
  error_noterror error_inval error_msgsize error_shutdown error_notconn : SocketErrno
  error_addrnotavail error_addrinuse error_noroutetohost : SocketErrno

-- A pending event holds the time it is due, `none` is an event that is not running. `now` is the
-- clock of the simulator, and `outputs` what the socket handed out, newest first. The callbacks of
-- the application are outputs: they do not call back into the socket.
pub record Socket (x : Net) : Type 0 where
  pub now : ℕ
  pub outputs : List Output
  pub retx_event : Option RetxEvent
  pub last_ack_event : Option ℕ
  pub del_ack_event : Option ℕ
  pub persist_event : Option ℕ
  pub timewait_event : Option ℕ
  pub send_pending_data_event : Option ℕ
  pub pacing_timer : Option ℕ
  pub dup_ack_count : ℕ
  pub del_ack_count : ℕ
  pub del_ack_max_count : ℕ
  pub no_delay : Bool
  pub syn_count : ℕ
  pub syn_retries : ℕ
  pub data_retr_count : ℕ
  pub data_retries : ℕ
  pub rto : ℕ
  pub min_rto : ℕ
  pub clock_granularity : ℕ
  pub del_ack_timeout : ℕ
  pub persist_timeout : ℕ
  pub cn_timeout : ℕ
  pub history : List RttHistory
  pub end_point : Option EndPoint
  pub end_point6 : Option EndPoint
  pub rtt : x.Rtt
  pub tx_buffer : x.Tx
  pub rx_buffer : x.Rx
  pub state : TcpState
  pub errno : SocketErrno
  pub close_notified : Bool
  pub close_on_empty : Bool
  pub shutdown_send : Bool
  pub shutdown_recv : Bool
  pub connected : Bool
  -- Nanoseconds; `m_msl` counts seconds.
  pub msl : ℕ
  pub max_win_size : ℕ
  pub bytes_acked_not_processed : ℕ
  pub high_tx_ack : ℕ
  pub r_wnd : ℕ
  pub adv_wnd : ℕ
  pub high_rx_mark : ℕ
  pub high_rx_ack_mark : ℕ
  pub sack_enabled : Bool
  pub win_scaling_enabled : Bool
  pub rcv_wind_shift : ℕ
  pub snd_wind_shift : ℕ
  pub timestamp_enabled : Bool
  pub timestamp_to_echo : ℕ
  pub recover : ℕ
  pub recover_active : Bool
  pub retx_thresh : ℕ
  pub limited_tx : Bool
  pub tcb : Tcb
  pub congestion : x.cong.State
  pub recovery : x.Recovery
  pub rate : x.Rate
  pub is_first_partial_ack : Bool
  pub ecn_echo_seq : ℕ
  pub ecn_ce_seq : ℕ
  pub ecn_cwr_seq : ℕ

-- The tests `m_state == …` of the source.
abbrev pub is_closed : TcpState → Bool
is_closed closed = true
is_closed _ = false

abbrev pub is_syn_sent : TcpState → Bool
is_syn_sent syn_sent = true
is_syn_sent _ = false

abbrev pub is_syn_rcvd : TcpState → Bool
is_syn_rcvd syn_rcvd = true
is_syn_rcvd _ = false

abbrev pub is_established : TcpState → Bool
is_established established = true
is_established _ = false

abbrev pub is_close_wait : TcpState → Bool
is_close_wait close_wait = true
is_close_wait _ = false

abbrev pub is_last_ack : TcpState → Bool
is_last_ack last_ack = true
is_last_ack _ = false

abbrev pub is_fin_wait_1 : TcpState → Bool
is_fin_wait_1 fin_wait_1 = true
is_fin_wait_1 _ = false

abbrev pub is_fin_wait_2 : TcpState → Bool
is_fin_wait_2 fin_wait_2 = true
is_fin_wait_2 _ = false

abbrev pub is_closing : TcpState → Bool
is_closing closing = true
is_closing _ = false

abbrev pub is_time_wait : TcpState → Bool
is_time_wait time_wait = true
is_time_wait _ = false

-- `m_state < ESTABLISHED`, by the order of the enumeration in ns-3.
abbrev pub before_established : TcpState → Bool
before_established closed = true
before_established listen = true
before_established syn_sent = true
before_established syn_rcvd = true
before_established _ = false

-- `s ▷ f` runs the next statement on the state.
infixl 3 ◌▷◌
abbrev pub ◌▷◌ {ℓ κ} : {A : Type ℓ} {B : Type κ} → A → (A → B) → B
a ▷ f = f a

module _ {x : Net} where
  abbrev pub emit : Output → Socket x → Socket x
  emit o s = record s { outputs = o ∷ s.outputs }

  abbrev pub set_state : TcpState → Socket x → Socket x
  set_state st s = record s { state = st }

  abbrev pub set_tcb : (Tcb → Tcb) → Socket x → Socket x
  set_tcb f s = record s { tcb = f s.tcb }

  -- A call of the congestion control, and one of the recovery algorithm.
  abbrev pub cong_call : (x.cong.State → Tcb → x.cong.State × Tcb) → Socket x → Socket x
  cong_call f s = let (c, t) = f s.congestion s.tcb in record s { congestion = c; tcb = t }

  abbrev pub recovery_call : (x.Recovery → Tcb → x.Recovery × Tcb) → Socket x → Socket x
  recovery_call f s = let (r, t) = f s.recovery s.tcb in record s { recovery = r; tcb = t }

  abbrev pub has_cong_control : Socket x → Bool
  has_cong_control s = x.cong.has_cong_control s.congestion

  -- RFC 6298, clause 2.4, as the source writes it in three places.
  abbrev pub computed_rto : Socket x → ℕ
  computed_rto s =
      max (x.rtt_estimate s.rtt + max s.clock_granularity (x.rtt_variation s.rtt * 4)) s.min_rto
