-- ===== src/Examples/Connections.antt =====
-- Sockets that are created, bound, called and accepted.
use cse_322_computer_network.Base.{
  ℕ, ◌+◌, ◌/◌, ◌%◌, ◌≤◌, ◌<◌, ◌≡◌, refl, arith, inr, true, false, ◌==◌, if◌then◌else◌, none, some,
  List, [], ◌∷◌,
}
use cse_322_computer_network.Tcb.{ecn_idle, new_tcb, copy_tcb}
use cse_322_computer_network.Wire.{flag_syn, flag_ack, TcpHeader, Output, sent}
use cse_322_computer_network.Vegas.{new_vegas}
use cse_322_computer_network.Vegas.Ops.{lift_reno}
use cse_322_computer_network.Socket.State.{
  Socket, EndPoint, closed, listen, syn_sent, error_noroutetohost,
}
use cse_322_computer_network.Socket.Send.{
  raw_window, advertised_window_size, send_empty_packet, send_empty_from, backoff_count,
  syn_attempt, note_adv_wnd, update_rtt_history, send_empty_header, note_ack_sent, add_syn_options,
  add_options, calculate_w_scale, cap_scale, scale_loop,
}
use cse_322_computer_network.Socket.Receive.{received_window}
use cse_322_computer_network.Socket.Process.{expect_after}
use cse_322_computer_network.Socket.Address.{
  Internet, Layer, inet, source, no_route, connect_to, connect4, bind, bound, setup_callback,
  connect_bound, connect_routed, get_peer_name, get_sock_name,
}
use cse_322_computer_network.Socket.Fork.{Copies, fork, accept}
use cse_322_computer_network.Socket.Input.{complete_fork, do_forward_up}
use cse_322_computer_network.Socket.Settings.{set_syn_retries}
use cse_322_computer_network.Socket.Create.{Parts, new_socket}
use cse_322_computer_network.Socket.Tags.{IpSettings, ip_tos_tag, tos_tags, check_no_ecn}
use cse_322_computer_network.Socket.Accept.{IsAccepted, accept_answers}
use cse_322_computer_network.Socket.Fresh.{IsKeeping, IsUnused, accept-IsUnused}
use cse_322_computer_network.Socket.Handshake.{IsOpen, handshake}
use cse_322_computer_network.Socket.Connecting.{syn_timeouts}
use cse_322_computer_network.Socket.Naming.{
  IsUntouched, get_peer_name-connect_to, connect_to-failed,
}
use cse_322_computer_network.Socket.Unreachable.{unreachable_peer}
use cse_322_computer_network.Socket.WindowTrip.{received_window-advertised_window_size}
use cse_322_computer_network.Socket.Marks.{tos_tags-marked}
use cse_322_computer_network.Scenario.{Run, world, socket, reno}

abbrev copies : Copies world
copies = record {
  copy_rtt = λ r. r;
  copy_tx = λ r. r;
  copy_rx = λ r. r;
  fork_recovery = λ r. r;
  new_rate = 0;
  garbage = 77;
}

-- The first free end point, and routes to every address but 9.
abbrev layer : Layer
layer = record {
  allocate =
      some (record { local_address = 0; local_port = 49153; peer_address = 0; peer_port = 0 });
  allocate_port = λ port.
      some (record { local_address = 0; local_port = port; peer_address = 0; peer_port = 0 });
  allocate_address = λ ip.
      some (record { local_address = ip; local_port = 49153; peer_address = 0; peer_port = 0 });
  allocate_both = λ ip port.
      some (record { local_address = ip; local_port = port; peer_address = 0; peer_port = 0 });
  route = λ ip. if ip == 9 then no_route error_noroutetohost else source 167772161;
}

abbrev pub internet : Internet
internet = record { v4 = layer; v6 = layer; mapped = λ ip. none }

abbrev pub free_end : EndPoint
free_end = record { local_address = 0; local_port = 49153; peer_address = 0; peer_port = 0 }

abbrev run : Run
run = record { head = 0; flying = 0; left = 0 }

abbrev parts : Parts world
parts = record {
  new_tx = run;
  new_rx = 0;
  new_rate = 0;
  rtt = 1000000000;
  congestion = new_vegas reno 0;
  recovery = 0;
  garbage = 77;
}

-- A closed socket without an end point.
abbrev pub idle : Socket world
idle = record socket { state = closed; end_point = none; tx_buffer = run; tcb = new_tcb 0 }

abbrev listener : Socket world
listener = record socket { state = listen; end_point = none; timestamp_enabled = false }

abbrev server_end : EndPoint
server_end = record {
  local_address = 167772162;
  local_port = 8080;
  peer_address = 167772161;
  peer_port = 49153;
}

-- A request with the next sequence number of `socket`.
abbrev request : TcpHeader
request = record {
  flags = flag_syn;
  seq = 1000;
  ack_number = 0;
  window_size = 65535;
  source_port = 49153;
  destination_port = 8080;
  options = [];
}

accept_answers_example :
    IsAccepted server_end request listener (accept copies (some server_end) none request listener)
accept_answers_example =
    accept_answers copies server_end request listener (λ n r. refl) (omega arith) (omega arith)

abbrev caller : Socket world
caller = record socket { state = syn_sent; history = [] }

-- The header of the newest segment.
abbrev newest : List Output → TcpHeader
newest (sent h size ∷ os) = h
newest _ = request

abbrev reply : TcpHeader
reply = newest (accept copies (some server_end) none request listener).outputs

abbrev last : TcpHeader
last = record request { flags = flag_ack; seq = 1001; ack_number = 1001 }

handshake_example :
    IsOpen (do_forward_up 0 reply true (167772162, 8080) caller)
    × IsOpen (
        do_forward_up 0 last true
          (167772161, 49153)
          (accept copies (some server_end) none request listener))
unfolding accept complete_fork fork expect_after send_empty_packet send_empty_from syn_attempt
    backoff_count note_adv_wnd update_rtt_history send_empty_header note_ack_sent
    advertised_window_size raw_window add_syn_options add_options calculate_w_scale cap_scale
    scale_loop copy_tcb new_tcb lift_reno
handshake_example =
    handshake copies server_end request reply last listener caller 0 0 true (167772162, 8080)
      (167772161, 49153) (λ n r. refl) (omega arith) (omega arith) refl refl refl refl refl refl

world-IsKeeping : IsKeeping world
unfolding lift_reno
world-IsKeeping = record {
  mode = λ c t. refl;
  v_count = λ c t. refl;
  v_count_max = λ c t. refl;
  last_rtt = λ c t. refl;
  last_cwnd = λ c t. refl;
}

accept-IsUnused_example : IsUnused 77 (accept copies (some server_end) none request listener).tcb
accept-IsUnused_example =
    accept-IsUnused copies (some server_end) none request listener world-IsKeeping

get_peer_name-connect_to_example :
    let t = (connect_to internet (inet 167772162 8080) idle).0 in
    (t.state ≡ syn_sent)
    × ((get_peer_name t).1 ≡ some (inet 167772162 8080))
    × (get_sock_name t ≡ inet 167772161 49153)
    × (t.tx_buffer ≡ run)
    × (t.shutdown_send ≡ false)
get_peer_name-connect_to_example =
    get_peer_name-connect_to internet 167772162 8080 167772161 free_end idle refl (omega arith)
      (inr (refl, refl)) refl

connect_to-failed_example : IsUntouched idle (connect_to internet (inet 9 8080) idle).0
unfolding connect_to connect4 bind bound setup_callback connect_bound connect_routed
connect_to-failed_example = connect_to-failed internet (inet 9 8080) idle refl

unreachable_peer_example :
    let s = (connect_to internet (inet 5 8080) (set_syn_retries 6 (new_socket 0 parts))).0 in
    let t = syn_timeouts 6 s in (t.state ≡ closed) × (t.end_point ≡ none) × (t.retx_event ≡ none)
unreachable_peer_example =
    unreachable_peer 0 6 5 8080 167772161 free_end parts internet (omega arith) (omega arith) refl
      refl

abbrev told : TcpHeader
told = record request { flags = flag_ack; window_size = 32768 }

received_window-advertised_window_size_example :
    (received_window told socket ≤ raw_window socket)
    × (raw_window socket < received_window told socket + 4)
unfolding raw_window advertised_window_size
received_window-advertised_window_size_example =
    received_window-advertised_window_size socket socket told refl (omega arith) (omega arith)
      (omega arith) refl

abbrev settings : IpSettings
settings = record {
  ip_tos = 0;
  ipv6_tclass = 0;
  is_manual_tclass = false;
  ip_ttl = 64;
  is_manual_ttl = false;
  ipv6_hop_limit = 64;
  is_manual_hop_limit = false;
  priority = 0;
}

tos_tags-marked_example :
    (m : ℕ) × (tos_tags settings 1460 (record (new_tcb 0) { ecn_state = ecn_idle })
      ≡ ip_tos_tag m ∷ [])
    × (m % 4 ≡ 2)
    × (m / 4 ≡ 0)
unfolding new_tcb check_no_ecn
tos_tags-marked_example =
    tos_tags-marked settings 1460 (record (new_tcb 0) { ecn_state = ecn_idle }) refl (omega arith)
      refl
