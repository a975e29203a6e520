-- ===== src/Scenario.antt =====
-- A small world to run the model in: exact rational arithmetic for `double`, a send buffer that is
-- a run of bytes, estimators that keep their values, a TcpNewReno that adds a segment, and sockets
-- on them with TcpVegas.
use cse_322_computer_network.Base.{
  ℕ, ◌+◌, ◌-◌, ◌*◌, ◌/◌, ◌≤◌, ◌<◌, min, refl, arith, true, false, Option, none, some, [], ltb, leb,
  if◌then◌else◌,
}
use cse_322_computer_network.Sequence.{Sequence}
use cse_322_computer_network.Double.{Double, IsIeee}
use cse_322_computer_network.Tcb.{Tcb, new_tcb}
use cse_322_computer_network.Vegas.{NewReno, Vegas, new_vegas}
use cse_322_computer_network.Vegas.Ops.{Inherited, vegas_ops, lift_reno}
use cse_322_computer_network.Vegas.Calm.{
  IsCalmReno, pkts_acked-calm, congestion_state_set-calm, increase_window-cong,
}
use cse_322_computer_network.Vegas.Reference.{IsUnaware, forget}
use cse_322_computer_network.Net.{Net}
use cse_322_computer_network.Socket.State.{Socket, established, error_noterror}
use cse_322_computer_network.Socket.Sending.{IsSending}
use cse_322_computer_network.Socket.Steady.{IsCalm}

-- A numerator and a denominator.
abbrev pub exact : Double
exact = record {
  Value = ℕ × ℕ;
  of_ℕ = λ n. (n, 1);
  get_seconds = λ t. (t, 1000000000);
  mul = λ a b. (a.0 * b.0, a.1 * b.1);
  div = λ a b. (a.0 * b.1, a.1 * b.0);
  to_uint32 = λ a. a.0 / a.1;
}

product_lem : (n a b : ℕ) → a * 1 ≤ 1 * b → n * a * 1 ≤ n * (1 * b)
product_lem n a b h = grind arith

cast_lem : (n a b : ℕ) → 0 < b → a * 1 ≤ n * b → a / b ≤ n
cast_lem n a b pos h = grind arith

pub exact-IsIeee : IsIeee exact
exact-IsIeee = record {
  Le = λ a b. (a.0 * b.1 ≤ b.0 * a.1) × (0 < a.1);
  quotient_le_one = λ a b pos le. (omega arith, omega arith);
  product_le = λ n x h. (product_lem n x.0 x.1 h.0, omega (arith, h.1));
  cast_le = λ n x small h. cast_lem n x.0 x.1 h.1 h.0;
}

-- Sequence numbers that do not come near the end of their range.
abbrev pub plain : Sequence
plain = record { lt = ltb; le = leb; add = λ a b. a + b; sub = λ a b. a - b; back = λ a b. a - b }

abbrev pub reno : NewReno
reno = record {
  State = ℕ;
  increase_window = λ n c t. (c, record t { c_wnd = t.c_wnd + t.segment_size });
  slow_start = λ n c t. (c, record t { c_wnd = t.c_wnd + t.segment_size });
}

abbrev pub inherited : Inherited ℕ reno
inherited = record {
  has_cong_control = λ c. false;
  cwnd_event = λ e c t. (c, t);
  cong_control = λ s c t. (c, t);
  init = λ c t. (c, t);
}

-- Bytes from `head`: first those in flight, then those left to send.
pub record Run : Type 0 where
  pub head : ℕ
  pub flying : ℕ
  pub left : ℕ

abbrev copy : ℕ → ℕ → Run → Run × ℕ
copy n seq r =
    (record r { flying = r.flying + min n r.left; left = r.left - min n r.left }, min n r.left)

abbrev next : Run → Option (ℕ × ℕ)
next r = if ltb 0 r.left then some (r.head + r.flying, r.head + r.flying + r.left) else none

-- A receive buffer is the next sequence number; an estimator is its estimate.
abbrev pub world : Net
world = record {
  seq = plain;
  double = exact;
  Packet = ℕ;
  packet_size = λ p. p;
  empty_packet = 0;
  Sample = ℕ;
  cong = vegas_ops exact plain reno inherited;
  Tx = Run;
  Item = ℕ;
  item_size = λ i. i;
  item_is_retrans = λ i. false;
  tx_head_sequence = λ r. r.head;
  tx_tail_sequence = λ r. r.head + r.flying + r.left;
  tx_size = λ r. r.flying + r.left;
  tx_size_from_sequence = λ s r. r.head + r.flying + r.left - s;
  tx_available = λ r. 100000;
  tx_bytes_in_flight = λ r. r.flying;
  tx_lost = λ r. 0;
  tx_retransmits_count = λ r. 0;
  tx_is_lost = λ s r. false;
  tx_is_head_retransmitted = λ r. false;
  tx_is_retransmitted_data_acked = λ s r. false;
  tx_next_seg = λ w b r. next r;
  tx_add = λ p r. (record r { left = r.left + p }, true);
  tx_copy_from_sequence = copy;
  tx_mark_head_as_lost = λ r. r;
  tx_add_reno_sack = λ r. r;
  tx_reset_reno_sack = λ r. r;
  tx_set_sent_list_lost = λ b r. record r { flying = 0; left = r.flying + r.left };
  tx_reset_last_segment_sent = λ r. r;
  tx_set_head_sequence = λ s r. record r { head = s };
  tx_set_sack_enabled = λ b r. r;
  tx_set_max_buffer_size = λ n r. r;
  tx_set_segment_size = λ n r. r;
  tx_set_dup_ack_thresh = λ n r. r;
  Rate = ℕ;
  tx_discard_up_to = λ s r d. (record r { head = s; flying = r.flying - (s - r.head) }, d);
  tx_update = λ bs r d. (r, d, 0);
  rate_skb_sent = λ i b d. d;
  rate_delivered = λ d. d;
  rate_calculate_app_limited = λ a b c d e f g r. r;
  rate_generate_sample = λ a b c d e r. (r, 0);
  Rx = ℕ;
  rx_next_sequence = λ r. r;
  rx_max_sequence = λ r. r + 131072;
  rx_size = λ r. 0;
  rx_available = λ r. 131072;
  rx_max_buffer_size = λ r. 131072;
  rx_finished = λ r. false;
  rx_got_fin = λ r. false;
  rx_sack_list = λ r. [];
  rx_sack_list_size = λ r. 0;
  rx_add = λ p h r. (r + p, true);
  rx_extract = λ n r. (r, none);
  rx_set_next_sequence = λ s r. s;
  rx_set_fin_sequence = λ s r. r;
  rx_set_max_buffer_size = λ n r. r;
  Rtt = ℕ;
  rtt_estimate = λ r. r;
  rtt_variation = λ r. 0;
  rtt_measurement = λ m r. m;
  rtt_reset = λ r. 1000000000;
  Recovery = ℕ;
  recovery_enter = λ a b c r t. (r, t);
  recovery_do = λ a r t. (r, t);
  recovery_exit = λ r t. (r, t);
  recovery_update_bytes_sent = λ a r. r;
  get_win_scale = λ os. none;
  has_sack_permitted = λ os. false;
  get_timestamp = λ os. none;
  option_room = λ os. 40;
  now_to_ts_value = λ t. t;
  elapsed_time_from_ts_value = λ t e. t - e;
  data_rate = λ a. a.0 / a.1;
  bytes_tx_time = λ r n. n;
  overflown_shift = λ n. 0;
}

pub world-IsSending : IsSending world
unfolding lift_reno
world-IsSending = record {
  keeps = λ c t. refl;
  range = λ w b r next next_high e. ground arith;
  in_flight = λ w b r next next_high n e pos. ground arith;
}

pub reno-IsCalmReno : IsCalmReno reno
reno-IsCalmReno = record { increase = λ k r t. refl; slow = λ k r t. refl }

pub world-IsCalm : IsCalm world
unfolding lift_reno
world-IsCalm = record {
  increase = increase_window-cong exact reno-IsCalmReno plain;
  acked = λ n rtt c t. pkts_acked-calm n rtt c t;
  told = λ e c t. congestion_state_set-calm e c t;
  event = λ e c t. (refl, refl);
  control = λ a c t. (refl, refl);
  enter = λ a b n c t. (refl, refl);
  recover = λ a c t. (refl, refl);
  leave = λ c t. (refl, refl);
}

-- Ten segments of window above the threshold.
abbrev pub block : Tcb
block = record (new_tcb 0) {
  c_wnd = 14600;
  ss_thresh = 14600;
  segment_size = 1460;
  high_tx_mark = 1000;
  next_tx_sequence = 1000;
}

abbrev pub vegas : Vegas reno
vegas = record (new_vegas reno 0) { base_rtt = 100000000; min_rtt = 200000000; cnt_rtt = 5 }

-- An established connection with data to send and no timer running.
abbrev pub socket : Socket world
socket = record {
  now = 5000000000;
  outputs = [];
  retx_event = none;
  last_ack_event = none;
  del_ack_event = none;
  persist_event = none;
  timewait_event = none;
  send_pending_data_event = none;
  pacing_timer = none;
  dup_ack_count = 0;
  del_ack_count = 0;
  del_ack_max_count = 2;
  no_delay = false;
  syn_count = 0;
  syn_retries = 6;
  data_retr_count = 6;
  data_retries = 6;
  rto = 1000000000;
  min_rto = 1000000000;
  clock_granularity = 1000000;
  del_ack_timeout = 200000000;
  persist_timeout = 6000000000;
  cn_timeout = 3000000000;
  history = [];
  end_point = some (record {
    local_address = 167772161;
    local_port = 49153;
    peer_address = 167772162;
    peer_port = 8080;
  });
  end_point6 = none;
  rtt = 100000000;
  tx_buffer = record { head = 1000; flying = 0; left = 5000 };
  rx_buffer = 500;
  state = established;
  errno = error_noterror;
  close_notified = false;
  close_on_empty = false;
  shutdown_send = false;
  shutdown_recv = false;
  connected = true;
  msl = 120000000000;
  max_win_size = 65535;
  bytes_acked_not_processed = 0;
  high_tx_ack = 500;
  r_wnd = 65535;
  adv_wnd = 65535;
  high_rx_mark = 500;
  high_rx_ack_mark = 1000;
  sack_enabled = true;
  win_scaling_enabled = true;
  rcv_wind_shift = 2;
  snd_wind_shift = 2;
  timestamp_enabled = true;
  timestamp_to_echo = 0;
  recover = 0;
  recover_active = false;
  retx_thresh = 3;
  limited_tx = true;
  tcb = block;
  congestion = vegas;
  recovery = 0;
  rate = 0;
  is_first_partial_ack = true;
  ecn_echo_seq = 0;
  ecn_ce_seq = 0;
  ecn_cwr_seq = 0;
}

pub reno-IsUnaware : IsUnaware reno
unfolding forget
reno-IsUnaware = record {
  increase = λ k r t. refl;
  slow = λ k r t. refl;
  increase_keeps = λ k r t. record {
    v_count = refl;
    v_count_max = refl;
    vegas_last_cwnd = refl;
    vegas_last_rtt = refl;
    mode = refl;
  };
  slow_keeps = λ k r t. record {
    v_count = refl;
    v_count_max = refl;
    vegas_last_cwnd = refl;
    vegas_last_rtt = refl;
    mode = refl;
  };
}
