-- ===== src/Simulation.antt =====
-- The simulation scripts (NS3/1705069/TaskB/taskB.cc, NS3/1705069/TaskA/taskA_1.cc and
-- taskA_2.cc): the flows that they set up, as the calls they make of ns-3 in order. Topology,
-- mobility and traces are left out. Report is what they print of the flows at the end.
pub mod Sinks
pub mod Report
pub mod Sums
use cse_322_computer_network.Base.{
  ℕ, zero, suc, ◌+◌, ◌-◌, ◌*◌, ◌/◌, ◌%◌, ◌==◌, if◌then◌else◌, mul32, List, [], ◌∷◌, ◌++◌,
}

-- The congestion controls that a script chooses from.
pub data Variant : Type 0 where
  new_reno vegas : Variant

-- `install_sink` puts a PacketSink on a receiver, `set_variant` is Config::Set of the SocketType
-- of a sender, `create_socket` is Socket::CreateSocket on a sender, and `setup` is MyApp::Setup
-- with AddApplication: the sender, the receiver that has the address, the port, the size and the
-- number of packets and the rate in Mbit/s. Senders and receivers are counted from 0 in their
-- containers.
pub data Call : Type 0 where
  install_sink : ℕ → ℕ → Call
  set_variant : ℕ → Variant → Call
  create_socket : ℕ → Call
  setup : ℕ → ℕ → ℕ → ℕ → ℕ → ℕ → Call

abbrev pub sink_port : ℕ
sink_port = 8080

-- `QUEUE_SIZE`, which Setup takes as the number of packets.
abbrev pub queue_size : ℕ
queue_size = 100000

-- `N_PACKETS_PER_SECOND` packets of the size as whole Mbit/s, with 2 ^ 20 bits to the Mbit.
unfoldable pub rate : ℕ → ℕ → ℕ
rate per_second payload = mul32 (8 * per_second) payload / 1048576

-- `choice == 0 ? a : b`, of `rand() % 2`.
unfoldable pub choose : ℕ → Variant → Variant → Variant
choose rand a b = if rand % 2 == 0 then a else b

-- The rounds of `for (int i = …)` from i on.
unfoldable pub rounds : (ℕ → List Call) → ℕ → ℕ → List Call
rounds body zero i = []
rounds body (suc n) i = body i ++ rounds body n (i + 1)

-- taskB: all flows go to one receiver. `rand` are the values of `rand()` by flow.
unfoldable pub flow_b : (ℕ → ℕ) → ℕ → ℕ → List Call
flow_b rand payload i =
    set_variant i (choose (rand i) new_reno vegas)
    ∷ create_socket i
    ∷ setup i 0 sink_port payload queue_size (rate 400 payload)
    ∷ []

unfoldable pub task_b : (ℕ → ℕ) → ℕ → ℕ → List Call
task_b rand payload flows = install_sink 0 sink_port ∷ rounds (flow_b rand payload) flows 0

-- taskA_1: each flow has its receiver.
unfoldable pub flow_a1 : (ℕ → ℕ) → ℕ → ℕ → List Call
flow_a1 rand payload i =
    install_sink i sink_port
    ∷ set_variant i (choose (rand i) new_reno vegas)
    ∷ create_socket i
    ∷ setup i i sink_port payload queue_size (rate 400 payload)
    ∷ []

unfoldable pub task_a1 : (ℕ → ℕ) → ℕ → ℕ → List Call
task_a1 rand payload flows = rounds (flow_a1 rand payload) flows 0

-- taskA_2: `flows` is NUM_FLOWS, and there are half as many rounds.
unfoldable pub flow_a2 : (ℕ → ℕ) → ℕ → ℕ → ℕ → List Call
flow_a2 rand payload flows i =
    install_sink (flows - i) sink_port
    ∷ create_socket (flows - i - 1)
    ∷ setup (flows - i - 1) (flows - i - 1) sink_port payload queue_size (rate 10 payload)
    ∷ set_variant (flows - i - 1) (choose (rand i) vegas new_reno)
    ∷ []

unfoldable pub task_a2 : (ℕ → ℕ) → ℕ → ℕ → List Call
task_a2 rand payload flows = rounds (flow_a2 rand payload flows) (flows / 2) 0
