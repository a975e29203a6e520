-- ===== src/Socket/Send.antt =====
-- Packets without data (SendEmptyPacket, SendRST), the options and the window that every header
-- carries, and the history of sent sequence numbers
-- (NS3/1705069/TaskB/tcp-socket-base.cc).
use cse_322_computer_network.Base.{
  ℕ, zero, suc, ◌+◌, ◌-◌, ◌*◌, ◌/◌, ◌%◌, ◌^◌, Bool, true, false, not, ◌&&◌, ◌||◌, ltb, ◌==◌,
  if◌then◌else◌, is_some, sub32, Option, none, some, List, [], ◌∷◌, ◌++◌,
}
use cse_322_computer_network.Sequence.{Sequence, ge}
use cse_322_computer_network.Wire.{
  Flags, flag_ack, flag_rst, flags_eq, TcpHeader, TcpOption, win_scale, sack_permitted, sack,
  timestamp, sent, notify_normal_close, notify_error_close, notify_connection_failed, deallocated,
}
use cse_322_computer_network.Net.{Net}
use cse_322_computer_network.Socket.State.{
  TcpState, closed, Socket, EndPoint, RttHistory, send_empty, is_fin_wait_1, is_last_ack,
  is_closing, ◌▷◌, emit, set_state, computed_rto,
}

-- `0x1 << n`, which an int of 32 bits holds below 31; `overflown` is what it is from there on.
unfoldable pub backoff_count : (ℕ → ℕ) → ℕ → ℕ
backoff_count overflown n = if ltb n 31 then 2 ^ n else overflown n

abbrev pub ports : Option EndPoint → Option EndPoint → EndPoint
ports (some e) _ = e
ports none (some e) = e
ports none none = record { local_address = 0; local_port = 0; peer_address = 0; peer_port = 0 }

-- The rounds of the loop of CalculateWScale; 32 halvings take a uint32_t to 0.
unfoldable pub scale_loop : ℕ → ℕ → ℕ → ℕ → ℕ
scale_loop zero max_space max_win_size scale = scale
scale_loop (suc fuel) max_space max_win_size scale =
    let rest = scale_loop fuel (max_space / 2) max_win_size (scale + 1) in
    if ltb max_win_size max_space then rest else scale

unfoldable pub cap_scale : ℕ → ℕ
cap_scale scale = if ltb 14 scale then 14 else scale

-- The search of UpdateRttHistory for the segment that is sent again.
unfoldable pub mark_retx : Sequence → ℕ → ℕ → List RttHistory → List RttHistory
mark_retx q seq sz [] = []
mark_retx q seq sz (h ∷ hs) =
    if ge q seq h.seq && q.lt seq (q.add h.seq h.count)
    then record h { retx = true; count = q.sub (q.add seq sz) h.seq } ∷ hs
    else h ∷ mark_retx q seq sz hs

-- The states in which the FIN has taken a sequence number.
abbrev pub fin_sent : TcpState → Bool
fin_sent st = is_fin_wait_1 st || is_last_ack st || is_closing st

abbrev pub take {ℓ} : {A : Type ℓ} → ℕ → List A → List A
take zero xs = []
take (suc n) [] = []
take (suc n) (x ∷ xs) = x ∷ take n xs

-- How many blocks fit: two bytes for the option, eight for each block.
unfoldable pub allowed_sack_blocks : ℕ → ℕ
allowed_sack_blocks option_len_avail = (option_len_avail - 2) / 8

module _ {x : Net} where
  abbrev pub has_end_point : Socket x → Bool
  has_end_point s = is_some s.end_point || is_some s.end_point6

  unfoldable pub cancel_all_timers : Socket x → Socket x
  cancel_all_timers s = record s {
    retx_event = none;
    persist_event = none;
    del_ack_event = none;
    last_ack_event = none;
    timewait_event = none;
    send_pending_data_event = none;
    pacing_timer = none;
  }

  unfoldable pub deallocate_end_point : Socket x → Socket x
  deallocate_end_point s =
      if is_some s.end_point
      then emit deallocated (record (cancel_all_timers s) { end_point = none })
      else if is_some s.end_point6
      then emit deallocated (record (cancel_all_timers s) { end_point6 = none })
      else s

  abbrev pub notify_close_once : Socket x → Socket x
  notify_close_once s =
      if s.close_notified then s else emit notify_normal_close (record s { close_notified = true })

  unfoldable pub close_and_notify : Socket x → Socket x
  close_and_notify s = notify_close_once s ▷ λ s.
      record s { last_ack_event = none } ▷ set_state closed ▷ deallocate_end_point

  unfoldable pub calculate_w_scale : Socket x → ℕ
  calculate_w_scale s =
      cap_scale (scale_loop 32 (x.rx_max_buffer_size s.rx_buffer) s.max_win_size 0)

  abbrev pub option_timestamp : Socket x → List TcpOption
  option_timestamp s = timestamp (x.now_to_ts_value s.now) s.timestamp_to_echo ∷ []

  unfoldable pub add_options : Socket x → List TcpOption
  add_options s = if s.timestamp_enabled then option_timestamp s else []

  unfoldable pub add_option_sack : Socket x → List TcpOption → List TcpOption
  add_option_sack s options =
      let allowed = allowed_sack_blocks (x.option_room options) in
      let blocks = x.rx_sack_list s.rx_buffer in
      elim (take allowed blocks) [ [] ↦ options | b ∷ bs ↦ options ++ sack (b ∷ bs) ∷ [] ]

  -- The window before it is scaled and cut to the field of the header.
  unfoldable pub raw_window : Socket x → ℕ
  raw_window s =
      if x.rx_got_fin s.rx_buffer
      then s.adv_wnd
      else x.seq.sub (x.rx_max_sequence s.rx_buffer) (x.rx_next_sequence s.rx_buffer)

  unfoldable pub advertised_window_size : Bool → Socket x → ℕ
  advertised_window_size scale s =
      let w = if scale then raw_window s / 2 ^ s.rcv_wind_shift else raw_window s in
      (if ltb s.max_win_size w then s.max_win_size else w) % 65536

  -- `AdvertisedWindowSize` also records the window for its trace.
  unfoldable pub note_adv_wnd : Socket x → Socket x
  note_adv_wnd s = record s { adv_wnd = raw_window s }

  unfoldable pub update_rtt_history : ℕ → ℕ → Bool → Socket x → Socket x
  update_rtt_history seq sz is_retransmission s =
      if is_retransmission
      then record s { history = mark_retx x.seq seq sz s.history }
      else record s {
        history =
            s.history
            ++ (let h : RttHistory = record { seq = seq; count = sz; time = s.now; retx = false } in
                h)
              ∷ [];
      }

  -- No attempts to connect are left.
  unfoldable pub give_up_connecting : Socket x → Socket x
  give_up_connecting s =
      record s { rtt = x.rtt_reset s.rtt }
      ▷ emit notify_connection_failed
      ▷ set_state closed
      ▷ deallocate_end_point

  -- One attempt: the timeout doubles with each, and the count falls.
  unfoldable pub syn_attempt : ℕ → Socket x → Socket x
  syn_attempt seq s =
      let t : Socket x = record s {
        rto = s.cn_timeout * backoff_count x.overflown_shift (sub32 s.syn_retries s.syn_count);
        syn_count = sub32 s.syn_count 1;
      } in
      update_rtt_history seq 0 (not (sub32 t.syn_retries 1 == t.syn_count)) t

  -- The options of a SYN, and the shift that goes with the window scale.
  unfoldable pub add_syn_options : List TcpOption → Socket x → List TcpOption
  add_syn_options options s =
      options
      ++ (if s.win_scaling_enabled then win_scale (calculate_w_scale s) ∷ [] else [])
      ++ (if s.sack_enabled then sack_permitted ∷ [] else [])

  abbrev pub note_w_scale : Socket x → Socket x
  note_w_scale s =
      if s.win_scaling_enabled then record s { rcv_wind_shift = calculate_w_scale s } else s

  -- A segment with the ACK flag makes a delayed acknowledgement unnecessary.
  unfoldable pub note_ack_sent : Socket x → Socket x
  note_ack_sent s = record s {
    del_ack_event = none;
    del_ack_count = 0;
    high_tx_ack =
        if x.seq.lt s.high_tx_ack (x.rx_next_sequence s.rx_buffer)
        then x.rx_next_sequence s.rx_buffer
        else s.high_tx_ack;
  }

  -- The end of SendEmptyPacket: the header leaves, and a SYN or FIN is guarded by a timer.
  unfoldable pub send_empty_header : Flags → ℕ → ℕ → List TcpOption → Socket x → Socket x
  send_empty_header flags seq window options s =
      let e = ports s.end_point s.end_point6 in
      let sacks = flags.ack && s.sack_enabled && ltb 0 (x.rx_sack_list_size s.rx_buffer) in
      let header : TcpHeader = record {
        flags = flags;
        seq = seq;
        ack_number = x.rx_next_sequence s.rx_buffer;
        window_size = window;
        source_port = e.local_port;
        destination_port = e.peer_port;
        options = if sacks then add_option_sack s options else options;
      } in
      let t = emit (sent header 0) (if flags.ack then note_ack_sent s else s) in
      if not (is_some t.retx_event) && (flags.syn || flags.fin) && not (flags_eq flags flag_ack)
      then record t { retx_event = some (send_empty flags (t.now + t.rto)) }
      else t

  -- SendEmptyPacket once there is an end point, with the flags and the sequence number settled.
  unfoldable pub send_empty_from : Flags → ℕ → Socket x → Socket x
  send_empty_from flags seq s =
      let t = note_adv_wnd (record s { rto = computed_rto s }) in
      let syn : Socket x =
        (let u = note_w_scale t in
          if u.syn_count == 0
          then give_up_connecting u
          else send_empty_header flags seq (advertised_window_size false (syn_attempt seq u))
              (add_syn_options (add_options s) t) (note_adv_wnd (syn_attempt seq u))) in
      if flags.syn
      then syn
      else send_empty_header flags seq (advertised_window_size true s) (add_options s) t

  unfoldable pub send_empty_packet : Flags → Socket x → Socket x
  send_empty_packet flags s =
      let seq =
        if not flags.fin && fin_sent s.state
        then x.seq.add s.tcb.next_tx_sequence 1
        else s.tcb.next_tx_sequence in
      let f = if flags.fin then record flags { ack = true } else flags in
      if has_end_point s then send_empty_from f seq s else s

  unfoldable pub send_rst : Socket x → Socket x
  send_rst s = send_empty_packet flag_rst s ▷ emit notify_error_close ▷ deallocate_end_point
