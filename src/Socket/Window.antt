-- ===== src/Socket/Window.antt =====
-- The sender's window (Window, AvailableWindow, UpdateWindowSize, and the sizes that
-- SendPendingData chooses, of NS3/1705069/TaskB/tcp-socket-base.cc).
use cse_322_computer_network.Base.{ℕ, ◌+◌, ◌≤◌, ◌<◌, min, ◌≡◌, arith, true, false, ◌||◌, some}
use cse_322_computer_network.Sequence.{gt}
use cse_322_computer_network.Wire.{TcpHeader}
use cse_322_computer_network.Net.{Net}
use cse_322_computer_network.Socket.State.{Socket, before_established}
use cse_322_computer_network.Socket.Transmit.{
  bytes_in_flight, window, available_window, un_ack_data_count,
}
use cse_322_computer_network.Socket.Loop.{size_to_send}
use cse_322_computer_network.Socket.Receive.{received_window, update_window_size}

module _ {x : Net} where
  -- A packet of the size that SendPendingData chooses while the window is open keeps the bytes in
  -- flight within the peer's window and within the congestion window, is no larger than a segment
  -- and than the range that the scoreboard gave, and an available window of less than a segment
  -- is used only for data that fits in it whole.
  pub size_to_send-fits :
      (s : Socket x) (next next_high size : ℕ)
      → size_to_send (available_window s) next next_high s ≡ some size
      → 0 < available_window s
      → (bytes_in_flight s + size ≤ s.r_wnd)
        × (bytes_in_flight s + size ≤ s.tcb.c_wnd)
        × (size ≤ s.tcb.segment_size)
        × (size ≤ x.seq.sub next_high next)
        × (min s.tcb.segment_size (x.tx_size_from_sequence next s.tx_buffer) ≤ available_window s)
  unfolding size_to_send available_window window
  size_to_send-fits s next next_high size e pos = ground arith

  -- Nagle's algorithm: with unacknowledged data and without the no-delay option a packet is sent
  -- only when there is at least a segment of data.
  pub size_to_send-nagle :
      (s : Socket x) (available next next_high size : ℕ)
      → size_to_send available next next_high s ≡ some size
      → s.no_delay ≡ false
      → 0 < un_ack_data_count s
      → s.tcb.segment_size ≤ x.tx_size_from_sequence next s.tx_buffer
  unfolding size_to_send
  size_to_send-nagle s available next next_high size e d pos = ground arith

  -- On a connection that is at least established the peer's window shrinks only to the window of
  -- the header, and only with an acknowledgement or data newer than all before.
  pub update_window_size-shrinks :
      (header : TcpHeader) (s : Socket x)
      → before_established s.state ≡ false
      → (update_window_size header s).r_wnd < s.r_wnd
      → ((update_window_size header s).r_wnd ≡ received_window header s)
        × ((gt x.seq header.ack_number s.high_rx_ack_mark || gt x.seq header.seq s.high_rx_mark)
            ≡ true)
  unfolding update_window_size
  update_window_size-shrinks header s st lt = ground arith
