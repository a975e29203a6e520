-- ===== src/Vegas/Ops.antt =====
-- TcpVegas as the congestion control that a socket calls: the virtual functions that
-- tcp-vegas.cc overrides. The others (`CwndEvent`, `CongControl`, `HasCongControl`, `Init`) are
-- inherited and come with the parent class.
use cse_322_computer_network.Base.{Bool}
use cse_322_computer_network.Tcb.{Tcb, CaEvent}
use cse_322_computer_network.Sequence.{Sequence}
use cse_322_computer_network.Double.{Double}
use cse_322_computer_network.Congestion.{CongestionOps}
use cse_322_computer_network.Vegas.{
  NewReno, Vegas, fork, pkts_acked, congestion_state_set, increase_window, get_ss_thresh,
}

-- The operations that TcpVegas inherits, on the members of the parent class.
pub record Inherited (Sample : Type 0) (n : NewReno) : Type 0 where
  pub has_cong_control : n.State → Bool
  pub cwnd_event : CaEvent → n.State → Tcb → n.State × Tcb
  pub cong_control : Sample → n.State → Tcb → n.State × Tcb
  pub init : n.State → Tcb → n.State × Tcb

module _ {n : NewReno} where
  -- A call of an inherited operation keeps the members of TcpVegas.
  unfoldable pub lift_reno : (n.State → Tcb → n.State × Tcb) → Vegas n → Tcb → Vegas n × Tcb
  lift_reno f v tcb = let (r, t) = f v.reno tcb in (record v { reno = r }, t)

module _ {Sample : Type 0} (d : Double) (q : Sequence) (n : NewReno) (i : Inherited Sample n) where
  abbrev pub vegas_ops : CongestionOps Sample
  vegas_ops = record {
    State = Vegas n;
    has_cong_control = λ v. i.has_cong_control v.reno;
    get_ss_thresh = λ v tcb bytes. get_ss_thresh tcb bytes;
    increase_window = increase_window d n q;
    pkts_acked = pkts_acked;
    congestion_state_set = congestion_state_set;
    cwnd_event = λ e. lift_reno (i.cwnd_event e);
    cong_control = λ s. lift_reno (i.cong_control s);
    init = lift_reno i.init;
    fork = fork;
  }
