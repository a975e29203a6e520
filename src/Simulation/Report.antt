-- ===== src/Simulation/Report.antt =====
-- What a script prints of the flows when a simulation has ended: the loop over the statistics of
-- the flow monitor and the lines after it (NS3/1705069/TaskB/taskB.cc and
-- NS3/1705069/TaskA/taskA_1.cc; taskA_2.cc has the loop of taskA_1.cc).
use cse_322_computer_network.Base.{
  ℕ, suc, ◌+◌, ◌/◌, ◌%◌, ◌≡◌, Bool, if◌then◌else◌, add32, List, [], ◌∷◌,
}
use cse_322_computer_network.Double.{Double}

-- `float`, and the difference of two doubles. `is_number` is `x == x`, `of_u32` and `to_u32` are
-- the conversions from and to uint32_t, `of_double` rounds.
pub record Single (d : Double) : Type 1 where
  pub Float : Type 0
  pub zero_float : Float
  pub of_double : d.Value → Float
  pub to_double : Float → d.Value
  pub of_u32 : ℕ → Float
  pub to_u32 : Float → ℕ
  pub add : Float → Float → Float
  pub mul : Float → Float → Float
  pub div : Float → Float → Float
  pub is_number : Float → Bool
  pub sub : d.Value → d.Value → d.Value

-- The members of FlowMonitor::FlowStats that are read.
pub record FlowStats : Type 0 where
  pub tx_packets : ℕ
  pub rx_packets : ℕ
  pub lost_packets : ℕ
  pub rx_bytes : ℕ
  pub time_first_tx : ℕ
  pub time_last_rx : ℕ
  pub delay_sum : ℕ

module _ {d : Double} (f : Single d) where
  -- The variables of the loop; `sq_tp` is in taskB.cc only.
  pub record Totals : Type 0 where
    pub flows : ℕ
    pub avg_throughput : f.Float
    pub sent_packets : ℕ
    pub received_packets : ℕ
    pub drop_packets : ℕ
    pub sq_tp : ℕ
    pub avg_delay : ℕ

  abbrev pub no_totals : Totals
  no_totals = record {
    flows = 0;
    avg_throughput = f.zero_float;
    sent_packets = 0;
    received_packets = 0;
    drop_packets = 0;
    sq_tp = 0;
    avg_delay = 0;
  }

  -- In Kbit/s of 1024 bits; not a number becomes 0.
  unfoldable pub throughput : FlowStats → f.Float
  throughput s =
      let seconds = f.sub (d.get_seconds s.time_last_rx) (d.get_seconds s.time_first_tx) in
      let t =
        f.of_double (d.div (d.mul (d.of_ℕ s.rx_bytes) (d.of_ℕ 8)) (d.mul seconds (d.of_ℕ 1024))) in
      if f.is_number t then t else f.zero_float

  -- The round of taskA_1.cc.
  unfoldable pub add_flow : FlowStats → Totals → Totals
  add_flow s t = record t {
    flows = t.flows + 1;
    avg_throughput = f.add t.avg_throughput (throughput s);
    sent_packets = add32 t.sent_packets s.tx_packets;
    received_packets = add32 t.received_packets s.rx_packets;
    drop_packets = add32 t.drop_packets s.lost_packets;
    avg_delay = t.avg_delay + s.delay_sum;
  }

  -- `sqTp += Throughput * Throughput`, which converts the sum to float and back.
  unfoldable pub add_square : f.Float → ℕ → ℕ
  add_square tp sq = f.to_u32 (f.add (f.of_u32 sq) (f.mul tp tp))

  unfoldable pub add_flow_b : FlowStats → Totals → Totals
  add_flow_b s t = record (add_flow s t) { sq_tp = add_square (throughput s) t.sq_tp }

  unfoldable pub all_flows : (FlowStats → Totals → Totals) → List FlowStats → Totals → Totals
  all_flows body [] t = t
  all_flows body (s ∷ ss) t = all_flows body ss (body s t)

  -- What is printed of the totals. Without a received packet the division of the delay is not
  -- defined in the source.
  unfoldable pub fairness : Totals → d.Value
  fairness t =
      let avg = f.to_double t.avg_throughput in
      d.div (d.mul (d.mul (d.of_ℕ 1) avg) avg)
        (d.mul (d.mul (d.of_ℕ 1) (d.of_ℕ t.flows)) (d.of_ℕ t.sq_tp))

  unfoldable pub mean_throughput : Totals → f.Float
  mean_throughput t = f.div t.avg_throughput (f.of_u32 t.flows)

  unfoldable pub mean_delay : Totals → ℕ
  mean_delay t = t.avg_delay / t.received_packets

  unfoldable pub drop_ratio : Totals → d.Value
  drop_ratio t = d.div (d.mul (d.of_ℕ t.drop_packets) (d.of_ℕ 100)) (d.of_ℕ t.sent_packets)

  unfoldable pub delivery_ratio : Totals → d.Value
  delivery_ratio t = d.div (d.mul (d.of_ℕ t.received_packets) (d.of_ℕ 100)) (d.of_ℕ t.sent_packets)

-- The sum of a number over the flows, without a bound.
unfoldable pub sum_of : (FlowStats → ℕ) → List FlowStats → ℕ
sum_of g [] = 0
sum_of g (s ∷ ss) = g s + sum_of g ss

unfoldable pub count : List FlowStats → ℕ
count [] = 0
count (s ∷ ss) = suc (count ss)

module _ {d : Double} (f : Single d) where
  -- The counts of two totals differ by the sums over the flows.
  pub record IsSum (ss : List FlowStats) (t u : Totals f) : Type 0 where
    pub flows : u.flows ≡ t.flows + count ss
    pub sent : u.sent_packets ≡ (t.sent_packets + sum_of (λ s. s.tx_packets) ss) % 4294967296
    pub received :
        u.received_packets ≡ (t.received_packets + sum_of (λ s. s.rx_packets) ss) % 4294967296
    pub dropped : u.drop_packets ≡ (t.drop_packets + sum_of (λ s. s.lost_packets) ss) % 4294967296
    pub delay : u.avg_delay ≡ t.avg_delay + sum_of (λ s. s.delay_sum) ss
