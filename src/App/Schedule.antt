-- ===== src/App/Schedule.antt =====
-- How many packets the application sends and when: StartApplication, SendPacket, ScheduleTx and
-- StopApplication against a plain schedule (NS3/1705069/TaskB/taskB.cc).
use cse_322_computer_network.Base.{
  ℕ, zero, suc, ◌+◌, ◌-◌, ◌<◌, ◌≡◌, refl, sym, ap, ◌∙◌, arith, min, max, true, false, ltb, is_some,
  ◌%◌, if◌then◌else◌, none, some,
}
use cse_322_computer_network.App.{
  AppSocket, Clock, MyApp, interval, schedule_tx, on_socket, send_packet, start_application, fire,
  run, stop_application,
}

-- So many packets from a time on, at a fixed distance.
unfoldable pub send_all : (h : AppSocket) → ℕ → ℕ → ℕ → ℕ → h.State → h.State
send_all h size i zero t s = s
send_all h size i (suc k) t s = send_all h size i k (t + i) (h.send t size s)

-- The number of packets after the start and k events: the first packet does not look at
-- `m_nPackets`.
abbrev pub sent_after : ℕ → ℕ → ℕ
sent_after k n = min (suc k) (max 1 n)

module _ (c : Clock) {h : AppSocket} where
  -- The state between two packets: so many are sent, and the next is due if one is left.
  record IsSending (a : MyApp h) (s : h.State) : Type 0 where
    running : a.running ≡ true
    socket : a.socket ≡ some s
    few : a.packets_sent < 4294967296
    send_event :
        a.send_event
        ≡ (if ltb a.packets_sent a.n_packets then some (a.now + interval c a) else none)

  -- What stays over packets.
  record KeepsSettings (a b : MyApp h) : Type 0 where
    n_packets : b.n_packets ≡ a.n_packets
    packet_size : b.packet_size ≡ a.packet_size
    data_rate : b.data_rate ≡ a.data_rate

  send_packet-IsSending :
      (a : MyApp h) (s : h.State)
      → a.running ≡ true
      → a.socket ≡ some s
      → a.send_event ≡ none
      → a.packets_sent + 1 < 4294967296
      → let b = send_packet c a in
        IsSending b (h.send a.now a.packet_size s)
        × (b.packets_sent ≡ a.packets_sent + 1)
        × (b.now ≡ a.now)
        × KeepsSettings a b
  unfolding send_packet schedule_tx interval
  send_packet-IsSending a s r ps pe few =
      let w : (a.packets_sent + 1) % 4294967296 ≡ a.packets_sent + 1 = omega arith in
      ground (arith, w)

  run_idle : (k : ℕ) (a : MyApp h) → a.send_event ≡ none → run c k a ≡ a
  unfolding run fire
  run_idle zero a e = refl
  run_idle (suc k) a e = let f : fire c a ≡ a = ground arith in ap (run c k) f ∙ run_idle k a e

  -- The state after k more packets.
  record HasSent (k : ℕ) (a b : MyApp h) (s : h.State) : Type 0 where
    sending : IsSending b (send_all h a.packet_size (interval c a) k (a.now + interval c a) s)
    packets_sent : b.packets_sent ≡ a.packets_sent + k
    set : KeepsSettings a b

  fire_pending :
      (t : ℕ) (a : MyApp h)
      → a.send_event ≡ some t
      → fire c a ≡ send_packet c (record a { now = t; send_event = none })
  unfolding fire
  fire_pending t a e = rw e refl

  interval_same : (a b : MyApp h) → KeepsSettings a b → interval c b ≡ interval c a
  unfolding interval
  interval_same a b e = rw (e.packet_size, e.data_rate) refl

  start-HasSent : (a : MyApp h) (s : h.State) → IsSending a s → HasSent 0 a a s
  unfolding send_all
  start-HasSent a s g = record {
    sending = g;
    packets_sent = omega arith;
    set = record { n_packets = refl; packet_size = refl; data_rate = refl };
  }

  -- One packet, and then so many.
  step-HasSent :
      (k : ℕ) (a b d : MyApp h) (s : h.State)
      → b.now ≡ a.now + interval c a
      → b.packets_sent ≡ a.packets_sent + 1
      → KeepsSettings a b
      → HasSent k b d (h.send (a.now + interval c a) a.packet_size s)
      → HasSent (suc k) a d s
  unfolding send_all
  step-HasSent k a b d s en ep eb r =
      let i = interval_same a b eb in
      let sent = h.send (a.now + interval c a) a.packet_size s in
      let e : send_all h b.packet_size (interval c b) k (b.now + interval c b) sent
          ≡ send_all h a.packet_size (interval c a) k (a.now + interval c a + interval c a) sent =
        rw (i, eb.packet_size, en) refl in
      record {
        sending = rw (sym e) r.sending;
        packets_sent = omega (arith, r.packets_sent);
        set = ground (arith, r.set);
      }

  run-HasSent :
      (k m : ℕ) (a : MyApp h) (s : h.State)
      → IsSending a s
      → a.n_packets - a.packets_sent ≡ m
      → a.n_packets < 4294967296
      → HasSent (min k m) a (run c k a) s
  unfolding run
  run-HasSent zero m a s g e small = let z : min 0 m ≡ 0 = omega arith in rw z (start-HasSent a s g)
  run-HasSent (suc k) zero a s g e small =
      let z : min (suc k) 0 ≡ 0 = omega arith in
      let n : a.send_event ≡ none = ground (arith, g.send_event) in
      rw (z, run_idle (suc k) a n) (start-HasSent a s g)
  run-HasSent (suc k) (suc m) a s g e small =
      let t = a.now + interval c a in
      let due : a.send_event ≡ some t = ground (arith, g.send_event) in
      let b : MyApp h = record a { now = t; send_event = none } in
      let d = send_packet c b in
      let f = send_packet-IsSending b s g.running g.socket refl (omega arith) in
      let r =
        run-HasSent k m d (h.send t a.packet_size s) f.0 (omega (arith, f)) (omega (arith, f)) in
      let z : min (suc k) (suc m) ≡ suc (min k m) = omega arith in
      let set : KeepsSettings a d = record {
        n_packets = f.3.n_packets;
        packet_size = f.3.packet_size;
        data_rate = f.3.data_rate;
      } in
      let same : fire c a ≡ d = fire_pending t a due in
      rw (same, z) (step-HasSent (min k m) a d (run c k d) s f.2 f.1 set r)

  -- What the start makes of the socket.
  pub first_packet :
      (a : MyApp h) (s : h.State)
      → a.socket ≡ some s
      → (start_application c a).socket
        ≡ some (h.send a.now a.packet_size (h.connect a.now a.peer (h.bind a.now s)))
  unfolding start_application send_packet schedule_tx
  first_packet a s e = ground (arith, e)

  -- What the start and k events make of an application.
  pub record IsPaced (k : ℕ) (a b : MyApp h) (s : h.State) : Type 0 where
    pub socket :
        b.socket
        ≡ some (
            send_all h a.packet_size
              (interval c a)
              (sent_after k a.n_packets)
              a.now
              (h.connect a.now a.peer (h.bind a.now s)))
    pub packets_sent : b.packets_sent ≡ sent_after k a.n_packets
    pub pending : is_some b.send_event ≡ ltb (suc k) a.n_packets

  -- The first packet leaves at the start.
  first-IsPaced :
      (k : ℕ) (a b : MyApp h) (s : h.State)
      → a.n_packets < 4294967296
      → KeepsSettings a b
      → b.now ≡ a.now
      → b.packets_sent ≡ 1
      → IsSending b (h.send a.now a.packet_size (h.connect a.now a.peer (h.bind a.now s)))
      → IsPaced k a (run c k b) s
  unfolding send_all
  first-IsPaced k a b s small eb en ep g =
      let t = h.send a.now a.packet_size (h.connect a.now a.peer (h.bind a.now s)) in
      let m = b.n_packets - b.packets_sent in
      let r = run-HasSent k m b t g refl (omega (arith, eb.n_packets)) in
      let z : sent_after k a.n_packets ≡ suc (min k m) = omega (arith, eb.n_packets) in
      let i = interval_same a b eb in
      let e : send_all h b.packet_size (interval c b) (min k m) (b.now + interval c b) t
          ≡ send_all h a.packet_size (interval c a) (min k m) (a.now + interval c a) t =
        rw (i, eb.packet_size, en) refl in
      record {
        socket = rw z (r.sending.socket ∙ ap some e);
        packets_sent = omega (arith, r.packets_sent);
        pending =
            ground (arith, r.sending.send_event, r.packets_sent, r.set.n_packets, eb.n_packets);
      }

  -- MyApp with a socket, no pending event and fewer than 2 ^ 32 packets implements a plain
  -- schedule: after the start and k events the socket has been bound and connected and has been
  -- sent, at the distance of the packet interval from the start on, k + 1 packets, or as many as
  -- there are to send if that is less, and at least one; the count says so, and an event is
  -- pending exactly while k + 1 is below the number of packets.
  pub start_application-IsPaced :
      (k : ℕ) (a : MyApp h) (s : h.State)
      → a.socket ≡ some s
      → a.send_event ≡ none
      → a.n_packets < 4294967296
      → IsPaced k a (run c k (start_application c a)) s
  unfolding start_application
  start_application-IsPaced k a s ps pe small =
      let t = h.connect a.now a.peer (h.bind a.now s) in
      let b : MyApp h =
        on_socket (λ s. h.connect a.now a.peer (h.bind a.now s))
          (record a { running = true; packets_sent = 0 }) in
      let f = send_packet-IsSending b t refl (ground arith) pe (omega arith) in
      let set : KeepsSettings a (send_packet c b) = record {
        n_packets = f.3.n_packets;
        packet_size = f.3.packet_size;
        data_rate = f.3.data_rate;
      } in
      first-IsPaced k a (send_packet c b) s small set f.2 f.1 f.0

  stop_lem :
      (j t : ℕ) (b : MyApp h) (s : h.State)
      → b.socket ≡ some s
      → let d = run c j (stop_application (record b { now = t })) in
        (d.socket ≡ some (h.close t s)) × (d.packets_sent ≡ b.packets_sent) × (d.running ≡ false)
  unfolding stop_application
  stop_lem j t b s e =
      let idle = run_idle j (stop_application (record b { now = t })) refl in
      rw (idle, e) (refl, refl, refl)

  -- StopApplication ends the sending: when MyApp with a socket, no pending event and fewer than 2
  -- ^ 32 packets has been started and run for k events, and is stopped at a time t, then whatever
  -- runs after that the socket has had the calls of the schedule up to then and one Close at t,
  -- and no packet more.
  pub stop_application-stops :
      (k j t : ℕ) (a : MyApp h) (s : h.State)
      → a.socket ≡ some s
      → a.send_event ≡ none
      → a.n_packets < 4294967296
      → let d = run c j (stop_application (record (run c k (start_application c a)) { now = t })) in
        (d.socket
          ≡ some (
              h.close t (
                send_all h a.packet_size
                  (interval c a)
                  (sent_after k a.n_packets)
                  a.now
                  (h.connect a.now a.peer (h.bind a.now s)))))
        × (d.packets_sent ≡ sent_after k a.n_packets)
        × (d.running ≡ false)
  stop_application-stops k j t a s ps pe small =
      let p = start_application-IsPaced k a s ps pe small in
      let sent =
        send_all h a.packet_size (interval c a) (sent_after k a.n_packets) a.now
          (h.connect a.now a.peer (h.bind a.now s)) in
      let q = stop_lem j t (run c k (start_application c a)) sent p.socket in
      (q.0, q.1 ∙ p.packets_sent, q.2)
