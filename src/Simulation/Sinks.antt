-- ===== src/Simulation/Sinks.antt =====
-- Whether the packets of a flow have a sink, and whether its socket gets the congestion control
-- that is chosen for it: the loops that set up the flows
-- (NS3/1705069/TaskB/taskB.cc, NS3/1705069/TaskA/taskA_1.cc and taskA_2.cc).
use cse_322_computer_network.Base.{
  ℕ, zero, suc, ◌+◌, ◌-◌, ◌/◌, ◌<◌, ◌≤◌, ◌≡◌, refl, arith, ap, ◌∙◌, Bool, true, false, ◌&&◌, ◌||◌,
  ◌==◌, List, [], ◌∷◌,
}
use cse_322_computer_network.Simulation.{
  Call, install_sink, set_variant, create_socket, setup, choose, new_reno, vegas, sink_port,
  queue_size, rounds, flow_b, task_b, flow_a1, task_a1, flow_a2, task_a2, rate,
}

-- Some call puts a sink on that receiver and port.
unfoldable pub has_sink : ℕ → ℕ → List Call → Bool
has_sink node port [] = false
has_sink node port (install_sink n p ∷ cs) = n == node && p == port || has_sink node port cs
has_sink node port (_ ∷ cs) = has_sink node port cs

-- Every flow of the second list has a sink in the first.
unfoldable pub all_served : List Call → List Call → Bool
all_served all [] = true
all_served all (setup n to port size packets r ∷ cs) = has_sink to port all && all_served all cs
all_served all (_ ∷ cs) = all_served all cs

-- A variant is chosen for that sender in these calls.
unfoldable pub is_chosen : ℕ → List Call → Bool
is_chosen node [] = false
is_chosen node (set_variant n v ∷ cs) = n == node || is_chosen node cs
is_chosen node (_ ∷ cs) = is_chosen node cs

-- Every socket is created after a choice for its sender. The second list is what was called before.
unfoldable pub chosen_first : List Call → List Call → Bool
chosen_first [] before = true
chosen_first (create_socket n ∷ cs) before =
    is_chosen n before && chosen_first cs (create_socket n ∷ before)
chosen_first (c ∷ cs) before = chosen_first cs (c ∷ before)

-- One flow after the other, for taskB and taskA_1.
rounds_b-served :
    (rand : ℕ → ℕ) (payload n i : ℕ) (all : List Call)
    → has_sink 0 8080 all ≡ true
    → all_served all (rounds (flow_b rand payload) n i) ≡ true
unfolding rounds flow_b all_served
rounds_b-served rand payload zero i all e = refl
rounds_b-served rand payload (suc n) i all e =
    ground (arith, rounds_b-served rand payload n (i + 1) all e)

rounds_b-chosen :
    (rand : ℕ → ℕ) (payload n i : ℕ) (before : List Call)
    → chosen_first (rounds (flow_b rand payload) n i) before ≡ true
unfolding rounds flow_b chosen_first is_chosen
rounds_b-chosen rand payload zero i before = refl
rounds_b-chosen rand payload (suc n) i before =
    let v = choose (rand i) new_reno vegas in
    let after =
      setup i 0 sink_port payload queue_size (rate 400 payload)
      ∷ create_socket i
      ∷ set_variant i v
      ∷ before in
    ground (arith, rounds_b-chosen rand payload n (i + 1) after)

rounds_a1-chosen :
    (rand : ℕ → ℕ) (payload n i : ℕ) (before : List Call)
    → chosen_first (rounds (flow_a1 rand payload) n i) before ≡ true
unfolding rounds flow_a1 chosen_first is_chosen
rounds_a1-chosen rand payload zero i before = refl
rounds_a1-chosen rand payload (suc n) i before =
    let v = choose (rand i) new_reno vegas in
    let after =
      setup i i sink_port payload queue_size (rate 400 payload)
      ∷ create_socket i
      ∷ set_variant i v
      ∷ install_sink i sink_port
      ∷ before in
    ground (arith, rounds_a1-chosen rand payload n (i + 1) after)

rounds_a1-sink :
    (rand : ℕ → ℕ) (payload n i j : ℕ)
    → i ≤ j
    → j < i + n
    → has_sink j 8080 (rounds (flow_a1 rand payload) n i) ≡ true
unfolding rounds flow_a1 has_sink
rounds_a1-sink rand payload zero i j le lt = absurd (omega arith)
rounds_a1-sink rand payload (suc n) i j le lt =
    ground (arith, rounds_a1-sink rand payload n (i + 1) j)

rounds_a1-served :
    (rand : ℕ → ℕ) (payload n i : ℕ) (all : List Call)
    → ((j : ℕ) → i ≤ j → j < i + n → has_sink j 8080 all ≡ true)
    → all_served all (rounds (flow_a1 rand payload) n i) ≡ true
unfolding rounds flow_a1 all_served
rounds_a1-served rand payload zero i all h = refl
rounds_a1-served rand payload (suc n) i all h =
    let r =
      rounds_a1-served rand payload n (i + 1) all (λ j le lt. h j (omega arith) (omega arith)) in
    ground (arith, r, h i (omega arith) (omega arith))

rounds_a2-no_sink :
    (rand : ℕ → ℕ) (payload flows n i d : ℕ)
    → d + i + n ≤ flows
    → has_sink d 8080 (rounds (flow_a2 rand payload flows) n i) ≡ false
unfolding rounds flow_a2 has_sink
rounds_a2-no_sink rand payload flows zero i d le = refl
rounds_a2-no_sink rand payload flows (suc n) i d le =
    ground (arith, rounds_a2-no_sink rand payload flows n (i + 1) d (omega arith))

-- The last round has an address that no sink is at.
rounds_a2-unserved :
    (rand : ℕ → ℕ) (payload flows n i : ℕ) (all : List Call)
    → has_sink (flows - (i + n) - 1) 8080 all ≡ false
    → all_served all (rounds (flow_a2 rand payload flows) (suc n) i) ≡ false
unfolding rounds flow_a2 all_served
rounds_a2-unserved rand payload flows zero i all e =
    let z : flows - (i + 0) - 1 ≡ flows - i - 1 = omega arith in ground (arith, z)
rounds_a2-unserved rand payload flows (suc n) i all e =
    let z : flows - (i + 1 + n) - 1 ≡ flows - (i + suc n) - 1 = omega arith in
    ground (arith, rounds_a2-unserved rand payload flows n (i + 1) all (rw z e))

rounds_a2-chosen :
    (rand : ℕ → ℕ) (payload flows n i : ℕ)
    → chosen_first (rounds (flow_a2 rand payload flows) (suc n) i) [] ≡ false
unfolding rounds flow_a2 chosen_first is_chosen
rounds_a2-chosen rand payload flows n i = refl

-- In taskB and taskA_1, for any number of flows, every application is given the address and port
-- of a receiver that has a sink, and every socket is created after the congestion control is
-- chosen for its node.
pub tasks_served :
    (rand : ℕ → ℕ) (payload flows : ℕ)
    → let b = task_b rand payload flows in
      let a = task_a1 rand payload flows in
      (all_served b b ≡ true)
      × (all_served a a ≡ true)
      × (chosen_first b [] ≡ true)
      × (chosen_first a [] ≡ true)
unfolding task_b task_a1 has_sink chosen_first all_served
tasks_served rand payload flows = (
  rounds_b-served rand payload flows 0 (task_b rand payload flows) refl,
  rounds_a1-served rand payload flows 0 (task_a1 rand payload flows)
      (λ j le lt. rounds_a1-sink rand payload flows 0 j le lt),
  rounds_b-chosen rand payload flows 0 (install_sink 0 sink_port ∷ []),
  rounds_a1-chosen rand payload flows 0 [],
)

-- In taskA_2, for two flows or more and packets of less than 13108 bytes, some application is
-- given the address of a receiver without a sink, some socket is created before the congestion
-- control is chosen for its node, and the rate of the applications is 0 Mbit/s.
pub task_a2-unserved :
    (rand : ℕ → ℕ) (payload flows : ℕ)
    → 2 ≤ flows
    → payload < 13108
    → let a = task_a2 rand payload flows in
      (all_served a a ≡ false) × (chosen_first a [] ≡ false) × (rate 10 payload ≡ 0)
unfolding task_a2 rate
task_a2-unserved rand payload flows le small =
    let n = flows / 2 - 1 in
    let e : flows / 2 ≡ suc n = omega arith in
    let all = rounds (flow_a2 rand payload flows) (flows / 2) 0 in
    let none =
      rounds_a2-no_sink rand payload flows (flows / 2) 0 (flows - (0 + n) - 1) (omega arith) in
    (
      ap (λ m. all_served all (rounds (flow_a2 rand payload flows) m 0)) e
          ∙ rounds_a2-unserved rand payload flows n 0 all none,
      rw e (rounds_a2-chosen rand payload flows n 0),
      omega arith,
    )
