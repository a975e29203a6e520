-- ===== src/Simulation/Sums.antt =====
-- What the totals of a report count (NS3/1705069/TaskB/taskB.cc and NS3/1705069/TaskA/taskA_1.cc).
use cse_322_computer_network.Base.{◌<◌, ◌≡◌, refl, arith, ap, ◌∙◌, List, [], ◌∷◌}
use cse_322_computer_network.Double.{Double}
use cse_322_computer_network.Simulation.Report.{
  Single, FlowStats, Totals, no_totals, add_flow, add_flow_b, add_square, throughput, fairness,
  all_flows, sum_of, count, IsSum,
}

module _ {d : Double} (f : Single d) where
  all_flows_b-IsSum :
      (ss : List FlowStats) (t : Totals f)
      → t.sent_packets < 4294967296
      → t.received_packets < 4294967296
      → t.drop_packets < 4294967296
      → IsSum f ss t (all_flows f (add_flow_b f) ss t)
  unfolding all_flows add_flow_b add_flow sum_of count
  all_flows_b-IsSum [] t a b c = ground arith
  all_flows_b-IsSum (s ∷ ss) t a b c =
      let r = all_flows_b-IsSum ss (add_flow_b f s t) (omega arith) (omega arith) (omega arith) in
      omega (arith, r)

  all_flows-IsSum :
      (ss : List FlowStats) (t : Totals f)
      → t.sent_packets < 4294967296
      → t.received_packets < 4294967296
      → t.drop_packets < 4294967296
      → IsSum f ss t (all_flows f (add_flow f) ss t)
  unfolding all_flows add_flow sum_of count
  all_flows-IsSum [] t a b c = ground arith
  all_flows-IsSum (s ∷ ss) t a b c =
      let r = all_flows-IsSum ss (add_flow f s t) (omega arith) (omega arith) (omega arith) in
      omega (arith, r)

  -- The loops of the reports, of taskA_1 and of taskB, count the flows, add up the packets sent,
  -- received and lost modulo 2 ^ 32, and add up the delays.
  pub reports-IsSum :
      (ss : List FlowStats)
      → IsSum f ss (no_totals f) (all_flows f (add_flow f) ss (no_totals f))
        × IsSum f ss (no_totals f) (all_flows f (add_flow_b f) ss (no_totals f))
  reports-IsSum ss = (
    all_flows-IsSum ss (no_totals f) (omega arith) (omega arith) (omega arith),
    all_flows_b-IsSum ss (no_totals f) (omega arith) (omega arith) (omega arith),
  )

  -- Flows whose squared throughput alone is cut to 0.
  abbrev pub IsSlow : List FlowStats → Type 0
  IsSlow [] = Unit
  IsSlow (s ∷ ss) = (add_square f (throughput f s) 0 ≡ 0) × IsSlow ss

  slow_flows_lem :
      (ss : List FlowStats) (t : Totals f)
      → IsSlow ss
      → t.sq_tp ≡ 0
      → (all_flows f (add_flow_b f) ss t).sq_tp ≡ 0
  unfolding all_flows add_flow_b add_flow
  slow_flows_lem [] t h e = e
  slow_flows_lem (s ∷ ss) t h e =
      slow_flows_lem ss (add_flow_b f s t) h.1 (ap (add_square f (throughput f s)) e ∙ h.0)

  -- A report.
  pub slow_flows-fairness :
      (ss : List FlowStats)
      → IsSlow ss
      → let t = all_flows f (add_flow_b f) ss (no_totals f) in
        let avg = f.to_double t.avg_throughput in
        fairness f t
        ≡ d.div
            (d.mul (d.mul (d.of_ℕ 1) avg) avg)
            (d.mul (d.mul (d.of_ℕ 1) (d.of_ℕ (count ss))) (d.of_ℕ 0))
  unfolding fairness
  slow_flows-fairness ss h =
      let t = all_flows f (add_flow_b f) ss (no_totals f) in
      let e : t.sq_tp ≡ 0 = slow_flows_lem ss (no_totals f) h refl in
      let n : t.flows ≡ count ss = omega (arith, (reports-IsSum ss).1.flows) in rw (e, n) refl
