-- ===== src/Socket/Unreachable.antt =====
-- A call to a peer that never answers, from the creation of the socket to its end
-- (NS3/1705069/TaskB/tcp-socket-base.cc).
use cse_322_computer_network.Base.{ℕ, zero, suc, ◌<◌, ◌≡◌, refl, arith, none, some}
use cse_322_computer_network.Tcb.{new_tcb, ecn_off}
use cse_322_computer_network.Net.{Net}
use cse_322_computer_network.Socket.State.{closed, Socket, EndPoint}
use cse_322_computer_network.Socket.Timeouts.{send_syn}
use cse_322_computer_network.Socket.Api.{connect, do_connect, connect_in, set_retx_thresh}
use cse_322_computer_network.Socket.Address.{
  Internet, inet, source, with_peer, with_local, connect_to, connect4, connect_bound,
  connect_routed, bind, bound, setup_callback,
}
use cse_322_computer_network.Socket.Settings.{set_syn_retries, set_min_rto, set_clock_granularity}
use cse_322_computer_network.Socket.Create.{Parts, blank_socket, construct, new_socket}
use cse_322_computer_network.Socket.Connecting.{syn_backoff, syn_timeouts, syn_timeouts-closed}

module _ {x : Net} where
  -- What Connect leaves of a closed socket without ECN.
  record IsCalling (n : ℕ) (e : EndPoint) (t : Socket x) : Type 0 where
    end_point : t.end_point ≡ some e
    syn_count : suc t.syn_count ≡ n
    syn_retries : t.syn_retries ≡ n

  connect-IsCalling :
      (n : ℕ) (s : Socket x) {e : EndPoint}
      → s.state ≡ closed
      → s.tcb.use_ecn ≡ ecn_off
      → s.retx_event ≡ none
      → s.end_point ≡ some e
      → s.syn_retries ≡ n
      → 0 < n
      → n < 32
      → IsCalling n e (connect s)
  unfolding connect do_connect connect_in send_syn
  connect-IsCalling n s {e} st ecn r pe pn pos small =
      let t : Socket x = record s {
        rtt = x.rtt_reset s.rtt;
        syn_count = s.syn_retries;
        data_retr_count = s.data_retries;
      } in
      let b = syn_backoff t pe r (omega arith) (omega arith) (omega arith) (omega arith) in
      ground (arith, b)

  connect_to-IsCalling :
      (n ip port src : ℕ) (e : EndPoint) (i : Internet) (s : Socket x)
      → s.state ≡ closed
      → s.tcb.use_ecn ≡ ecn_off
      → s.retx_event ≡ none
      → s.end_point ≡ none
      → s.syn_retries ≡ n
      → 0 < n
      → n < 32
      → i.v4.allocate ≡ some e
      → i.v4.route ip ≡ source src
      → IsCalling n (with_local src (with_peer ip port e)) (connect_to i (inet ip port) s).0
  unfolding connect_to connect4 connect_bound connect_routed bind bound setup_callback
  connect_to-IsCalling n ip port src e i s st ecn r pe pn pos small pa pr =
      let q = with_local src (with_peer ip port e) in
      let t : Socket x = record s { end_point = some q; end_point6 = none } in
      let c = connect-IsCalling n t {e = q} st ecn r refl pn pos small in ground (arith, c)

  record IsFresh (n : ℕ) (s : Socket x) : Type 0 where
    state : s.state ≡ closed
    use_ecn : s.tcb.use_ecn ≡ ecn_off
    retx_event : s.retx_event ≡ none
    end_point : s.end_point ≡ none
    syn_retries : s.syn_retries ≡ n

  new_socket-IsFresh : (now n : ℕ) (p : Parts x) → IsFresh n (set_syn_retries n (new_socket now p))
  unfolding set_syn_retries new_socket construct blank_socket set_min_rto set_clock_granularity
      set_retx_thresh new_tcb
  new_socket-IsFresh now n p = record {
    state = refl;
    use_ecn = refl;
    retx_event = refl;
    end_point = refl;
    syn_retries = refl;
  }

  -- From its creation on: a new socket that is set to n connection retries, with n positive and
  -- at most 31, is given an end point and calls an address that it has a route to. If no answer
  -- comes, n timeouts of the SYN leave it closed, without an end point and without a pending
  -- retransmission.
  pub unreachable_peer :
      (now n ip port src : ℕ) (e : EndPoint) (p : Parts x) (i : Internet)
      → 0 < n
      → n < 32
      → i.v4.allocate ≡ some e
      → i.v4.route ip ≡ source src
      → let s = (connect_to i (inet ip port) (set_syn_retries n (new_socket now p))).0 in
        let t = syn_timeouts n s in
        (t.state ≡ closed) × (t.end_point ≡ none) × (t.retx_event ≡ none)
  unreachable_peer now (suc k) ip port src e p i pos small pa pr =
      let s : Socket x = set_syn_retries (suc k) (new_socket now p) in
      let f = new_socket-IsFresh now (suc k) p in
      let c =
        connect_to-IsCalling (suc k) ip port src e i s f.state f.use_ecn f.retx_event f.end_point
          f.syn_retries pos small pa pr in
      syn_timeouts-closed k (connect_to i (inet ip port) s).0 c.end_point (omega (arith, c))
        (omega (arith, c)) (omega (arith, c))
  unreachable_peer now zero ip port src e p i pos small pa pr = absurd (omega arith)
