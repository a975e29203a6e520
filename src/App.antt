-- ===== src/App.antt =====
-- MyApp, the application of the simulations that sends packets at a rate
-- (NS3/1705069/TaskB/taskB.cc; the scripts of TaskA have the same class).
pub mod Schedule
pub mod Tcp
use cse_322_computer_network.Base.{
  ℕ, zero, suc, ◌+◌, Bool, true, false, ltb, if◌then◌else◌, add32, mul32, Option, none, some,
}
use cse_322_computer_network.Double.{Double}

-- The socket that an application calls. The first number of a call is the time. `send` creates the
-- packet of the size that it is given. What the calls return is not looked at by the application.
pub record AppSocket : Type 1 where
  pub State : Type 0
  pub Address : Type 0
  pub no_address : Address
  pub bind : ℕ → State → State
  pub connect : ℕ → Address → State → State
  pub send : ℕ → ℕ → State → State
  pub close : ℕ → State → State

-- `to_time` is `Seconds`, the conversion of a number of seconds to a time.
pub record Clock : Type 1 where
  pub double : Double
  pub to_time : double.Value → ℕ

-- `send_event` holds the time that a pending SendPacket is due, `now` is the clock of the
-- simulator, and `data_rate` is in bits per second. No socket is a null pointer.
pub record MyApp (h : AppSocket) : Type 0 where
  pub now : ℕ
  pub socket : Option h.State
  pub peer : h.Address
  pub packet_size : ℕ
  pub n_packets : ℕ
  pub data_rate : ℕ
  pub send_event : Option ℕ
  pub running : Bool
  pub packets_sent : ℕ

unfoldable pub my_app : (h : AppSocket) → MyApp h
my_app h = record {
  now = 0;
  socket = none;
  peer = h.no_address;
  packet_size = 0;
  n_packets = 0;
  data_rate = 0;
  send_event = none;
  running = false;
  packets_sent = 0;
}

module _ {h : AppSocket} where
  unfoldable pub setup : h.State → h.Address → ℕ → ℕ → ℕ → MyApp h → MyApp h
  setup socket address packet_size n_packets data_rate a = record a {
    socket = some socket;
    peer = address;
    packet_size = packet_size;
    n_packets = n_packets;
    data_rate = data_rate;
  }

  -- A call of the socket. On a null pointer it is not defined in the source, and nothing here.
  abbrev pub on_socket : (h.State → h.State) → MyApp h → MyApp h
  on_socket f a = record a { socket = elim a.socket [ none ↦ none | some s ↦ some (f s) ] }

module _ (c : Clock) {h : AppSocket} where
  -- `m_packetSize * 8` is a product of 32 bits.
  unfoldable pub interval : MyApp h → ℕ
  interval a =
      c.to_time (c.double.div (c.double.of_ℕ (mul32 a.packet_size 8)) (c.double.of_ℕ a.data_rate))

  unfoldable pub schedule_tx : MyApp h → MyApp h
  schedule_tx a = if a.running then record a { send_event = some (a.now + interval a) } else a

  unfoldable pub send_packet : MyApp h → MyApp h
  send_packet a =
      let b : MyApp h = record (on_socket (h.send a.now a.packet_size) a) {
        packets_sent = add32 a.packets_sent 1;
      } in
      if ltb b.packets_sent b.n_packets then schedule_tx b else b

  unfoldable pub start_application : MyApp h → MyApp h
  start_application a = send_packet (
      on_socket (λ s. h.connect a.now a.peer (h.bind a.now s))
        (record a { running = true; packets_sent = 0 }))

  -- The simulator runs the pending event, if there is one, at its time.
  unfoldable pub fire : MyApp h → MyApp h
  fire a = elim a.send_event [
    | none ↦ a
    | some t ↦ send_packet (record a { now = t; send_event = none })
  ]

  unfoldable pub run : ℕ → MyApp h → MyApp h
  run zero a = a
  run (suc k) a = run k (fire a)

-- A cancelled event does not run.
unfoldable pub stop_application : {h : AppSocket} → MyApp h → MyApp h
stop_application {h} a = on_socket (h.close a.now) (record a { running = false; send_event = none })
