-- ===== src/Net.antt =====
-- The code of ns-3 that a socket calls: buffers, estimators, recovery and rate operations, options
-- of a header. It is a parameter of the model; a theorem names what it relies on.
use cse_322_computer_network.Base.{ℕ, Bool, Option, List}
use cse_322_computer_network.Tcb.{Tcb}
use cse_322_computer_network.Sequence.{Sequence}
use cse_322_computer_network.Double.{Double}
use cse_322_computer_network.Congestion.{CongestionOps}
use cse_322_computer_network.Wire.{TcpHeader, TcpOption, SackBlock}

-- `Tx` is TcpTxBuffer, `Item` TcpTxItem, `Rx` TcpRxBuffer, `Rtt` RttEstimator, `Recovery`
-- TcpRecoveryOps, `Rate` TcpRateOps, and `Sample` the pair of structures given to `CongControl`.
pub record Net : Type 1 where
  pub seq : Sequence
  pub double : Double
  pub Packet : Type 0
  pub packet_size : Packet → ℕ
  pub empty_packet : Packet
  pub Sample : Type 0
  pub cong : CongestionOps Sample
  -- TcpTxBuffer
  pub Tx : Type 0
  pub Item : Type 0
  pub item_size : Item → ℕ
  pub item_is_retrans : Item → Bool
  pub tx_head_sequence : Tx → ℕ
  pub tx_tail_sequence : Tx → ℕ
  pub tx_size : Tx → ℕ
  pub tx_size_from_sequence : ℕ → Tx → ℕ
  pub tx_available : Tx → ℕ
  pub tx_bytes_in_flight : Tx → ℕ
  pub tx_lost : Tx → ℕ
  pub tx_retransmits_count : Tx → ℕ
  pub tx_is_lost : ℕ → Tx → Bool
  pub tx_is_head_retransmitted : Tx → Bool
  pub tx_is_retransmitted_data_acked : ℕ → Tx → Bool
  -- The first argument is the peer's window, which the buffer asks for by a callback.
  pub tx_next_seg : ℕ → Bool → Tx → Option (ℕ × ℕ)
  pub tx_add : Packet → Tx → Tx × Bool
  pub tx_copy_from_sequence : ℕ → ℕ → Tx → Tx × Item
  pub tx_mark_head_as_lost : Tx → Tx
  pub tx_add_reno_sack : Tx → Tx
  pub tx_reset_reno_sack : Tx → Tx
  pub tx_set_sent_list_lost : Bool → Tx → Tx
  pub tx_reset_last_segment_sent : Tx → Tx
  pub tx_set_head_sequence : ℕ → Tx → Tx
  pub tx_set_sack_enabled : Bool → Tx → Tx
  pub tx_set_max_buffer_size : ℕ → Tx → Tx
  pub tx_set_segment_size : ℕ → Tx → Tx
  pub tx_set_dup_ack_thresh : ℕ → Tx → Tx
  -- TcpRateOps; the buffer tells it which items were delivered.
  pub Rate : Type 0
  pub tx_discard_up_to : ℕ → Tx → Rate → Tx × Rate
  pub tx_update : List SackBlock → Tx → Rate → Tx × Rate × ℕ
  pub rate_skb_sent : Item → Bool → Rate → Rate
  pub rate_delivered : Rate → ℕ
  pub rate_calculate_app_limited : ℕ → ℕ → ℕ → ℕ → ℕ → ℕ → ℕ → Rate → Rate
  pub rate_generate_sample : ℕ → ℕ → Bool → ℕ → ℕ → Rate → Rate × Sample
  -- TcpRxBuffer
  pub Rx : Type 0
  pub rx_next_sequence : Rx → ℕ
  pub rx_max_sequence : Rx → ℕ
  pub rx_size : Rx → ℕ
  pub rx_available : Rx → ℕ
  pub rx_max_buffer_size : Rx → ℕ
  pub rx_finished : Rx → Bool
  pub rx_got_fin : Rx → Bool
  pub rx_sack_list : Rx → List SackBlock
  pub rx_sack_list_size : Rx → ℕ
  pub rx_add : Packet → TcpHeader → Rx → Rx × Bool
  pub rx_extract : ℕ → Rx → Rx × Option Packet
  pub rx_set_next_sequence : ℕ → Rx → Rx
  pub rx_set_fin_sequence : ℕ → Rx → Rx
  pub rx_set_max_buffer_size : ℕ → Rx → Rx
  -- RttEstimator
  pub Rtt : Type 0
  pub rtt_estimate : Rtt → ℕ
  pub rtt_variation : Rtt → ℕ
  pub rtt_measurement : ℕ → Rtt → Rtt
  pub rtt_reset : Rtt → Rtt
  -- TcpRecoveryOps
  pub Recovery : Type 0
  pub recovery_enter : ℕ → ℕ → ℕ → Recovery → Tcb → Recovery × Tcb
  pub recovery_do : ℕ → Recovery → Tcb → Recovery × Tcb
  pub recovery_exit : Recovery → Tcb → Recovery × Tcb
  pub recovery_update_bytes_sent : ℕ → Recovery → Recovery
  -- TcpHeader and TcpOption: the options of a segment, the room left for more in bytes, and the
  -- clock of the timestamps.
  pub get_win_scale : List TcpOption → Option ℕ
  pub has_sack_permitted : List TcpOption → Bool
  pub get_timestamp : List TcpOption → Option (ℕ × ℕ)
  pub option_room : List TcpOption → ℕ
  pub now_to_ts_value : ℕ → ℕ
  pub elapsed_time_from_ts_value : ℕ → ℕ → ℕ
  -- DataRate
  pub data_rate : double.Value → ℕ
  pub bytes_tx_time : ℕ → ℕ → ℕ
  -- `0x1 << n` of an int of 32 bits from n = 31 on, which C++ does not settle: what the delay is
  -- multiplied by, if it is a number at all.
  pub overflown_shift : ℕ → ℕ
