-- ===== src/Examples/Unmodified.antt =====
-- TcpVegas and that of ns-3 side by side.
use cse_322_computer_network.Base.{◌≡◌, refl, arith, List, [], ◌∷◌}
use cse_322_computer_network.Tcb.{Tcb, aggresive, ca_cwr, ca_open, new_tcb}
use cse_322_computer_network.Vegas.Unmodified.{
  Turn, acked, told, grown, written, turns, plain_turns, plain_turn, plain_rises, Agree,
  turns-Agree,
}
use cse_322_computer_network.Vegas.Aggresive.{reno_turns, SameReno, aggresive_turns}
use cse_322_computer_network.Vegas.{congestion_state_set, enable_vegas, disable_vegas}
use cse_322_computer_network.Vegas.Reference.{plain_acked}
use cse_322_computer_network.Scenario.{exact, plain, reno, vegas, block, reno-IsUnaware}

-- Two samples, the second above the first at the same window, around an increase in slow start.
abbrev course : List Turn
course =
    acked 100000000
    ∷ written 14600 100000 2000 1500
    ∷ acked 101000000
    ∷ told ca_cwr
    ∷ told ca_open
    ∷ grown 1
    ∷ []

one_rise :
    plain_rises exact reno plain block.vegas_last_rtt block.vegas_last_cwnd course vegas block ≡ 1
unfolding plain_rises plain_turn plain_acked congestion_state_set enable_vegas disable_vegas new_tcb
one_rise = refl

turns-Agree_example :
    Agree
      (turns exact reno plain course vegas block)
      (plain_turns exact reno plain course vegas block)
unfolding new_tcb
turns-Agree_example =
    turns-Agree exact plain reno-IsUnaware course vegas block refl (rw one_rise (omega arith))

abbrev hurried : Tcb
hurried = record block { mode = aggresive }

aggresive_turns_example :
    let p = reno_turns reno course vegas.reno hurried in
    SameReno (turns exact reno plain course vegas hurried) p.0 p.1
aggresive_turns_example = aggresive_turns exact plain reno-IsUnaware course vegas hurried refl
