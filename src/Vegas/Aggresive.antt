-- ===== src/Vegas/Aggresive.antt =====
-- The aggresive mode of TcpVegas (NS3/1705069/TaskB/tcp-vegas.cc) against TcpNewReno over a whole
-- connection.
use cse_322_computer_network.Base.{ℕ, ◌≡◌, refl, arith, List, [], ◌∷◌, sym, ap, ◌∙◌}
use cse_322_computer_network.Tcb.{Tcb, CongState, aggresive}
use cse_322_computer_network.Sequence.{Sequence}
use cse_322_computer_network.Double.{Double}
use cse_322_computer_network.Vegas.{
  NewReno, Vegas, pkts_acked, congestion_state_set, increase_window, follow_new_reno, enable_vegas,
  disable_vegas,
}
use cse_322_computer_network.Vegas.Reference.{forget, IsUnaware}
use cse_322_computer_network.Vegas.Unmodified.{
  Turn, acked, told, grown, written, write, turn, turns, acked_block, write-forget,
}

module _ (n : NewReno) where
  -- What TcpNewReno does to the block: it takes no samples, and is told of no congestion states.
  unfoldable pub reno_turns : List Turn → n.State → Tcb → n.State × Tcb
  reno_turns [] r t = (r, t)
  reno_turns (acked rtt ∷ cs) r t = reno_turns cs r t
  reno_turns (told c ∷ cs) r t = reno_turns cs r t
  reno_turns (grown k ∷ cs) r t = let (q, u) = n.increase_window k r t in reno_turns cs q u
  reno_turns (written a b c e ∷ cs) r t = reno_turns cs r (write a b c e t)

module _ {n : NewReno} where
  -- The members of the parent class, and the block but for the members of the modification.
  pub record SameReno (p : Vegas n × Tcb) (r : n.State) (t : Tcb) : Type 0 where
    pub reno : p.0.reno ≡ r
    pub block : forget p.1 ≡ forget t
    pub mode : p.1.mode ≡ aggresive

  acked-reno : (rtt : ℕ) (v : Vegas n) (t : Tcb) → (pkts_acked 1 rtt v t).0.reno ≡ v.reno
  unfolding pkts_acked
  acked-reno rtt v t = ground arith

  acked-mode :
      (rtt : ℕ) (v : Vegas n) (t : Tcb)
      → t.mode ≡ aggresive
      → (pkts_acked 1 rtt v t).1.mode ≡ aggresive
  unfolding pkts_acked
  acked-mode rtt v t e = ground arith

  acked-SameReno :
      (rtt : ℕ) (v : Vegas n) (t : Tcb) (r : n.State) (u : Tcb)
      → SameReno (v, t) r u
      → SameReno (pkts_acked 1 rtt v t) r u
  acked-SameReno rtt v t r u h = record {
    reno = acked-reno rtt v t ∙ h.reno;
    block = acked_block rtt v t ∙ h.block;
    mode = acked-mode rtt v t h.mode;
  }

  told-reno : (c : CongState) (v : Vegas n) (t : Tcb) → (congestion_state_set c v t).0.reno ≡ v.reno
  unfolding congestion_state_set enable_vegas disable_vegas
  told-reno c v t = ground arith

  told-SameReno :
      (c : CongState) (v : Vegas n) (t : Tcb) (r : n.State) (u : Tcb)
      → SameReno (v, t) r u
      → SameReno (congestion_state_set c v t) r u
  unfolding congestion_state_set enable_vegas disable_vegas
  told-SameReno c v t r u h = record {
    reno = told-reno c v t ∙ h.reno;
    block = h.block;
    mode = h.mode;
  }

  written-SameReno :
      (a b c l : ℕ) (v : Vegas n) (t : Tcb) (r : n.State) (u : Tcb)
      → SameReno (v, t) r u
      → SameReno (v, write a b c l t) r (write a b c l u)
  written-SameReno a b c l v t r u h = record {
    reno = h.reno;
    block = write-forget a b c l t u h.block;
    mode = h.mode;
  }

module _ (d : Double) {n : NewReno} (q : Sequence) (unaware : IsUnaware n) where
  -- In the aggresive mode every increase is that of TcpNewReno.
  increase_aggresive :
      (k : ℕ) (v : Vegas n) (t : Tcb)
      → t.mode ≡ aggresive
      → increase_window d n q k v t ≡ follow_new_reno d n k v t
  unfolding increase_window
  increase_aggresive k v t e = ground arith

  grown-SameReno :
      (k : ℕ) (v : Vegas n) (t : Tcb) (r : n.State) (u : Tcb)
      → SameReno (v, t) r u
      → SameReno
          (increase_window d n q k v t)
          (n.increase_window k r u).0
          (n.increase_window k r u).1
  unfolding follow_new_reno
  grown-SameReno k v t r u h =
      let f = λ (s : n.State) (b : Tcb). n.increase_window k s b in
      let e : (f v.reno (forget t)) ≡ (f r (forget u)) = rw (h.reno, h.block) in
      let g = sym (unaware.increase k v.reno t) ∙ e ∙ unaware.increase k r u in
      let m = unaware.increase_keeps k v.reno t in
      rw (increase_aggresive k v t h.mode) (record {
        reno = ap (λ (p : n.State × Tcb). p.0) g;
        block = ap (λ (p : n.State × Tcb). p.1) g;
        mode = m.mode ∙ h.mode;
      })

  pub turns-SameReno :
      (cs : List Turn) (v : Vegas n) (t : Tcb) (r : n.State) (u : Tcb)
      → SameReno (v, t) r u
      → let p = reno_turns n cs r u in SameReno (turns d n q cs v t) p.0 p.1
  unfolding turns turn reno_turns
  turns-SameReno [] v t r u h = h
  turns-SameReno (acked rtt ∷ cs) v t r u h =
      let p = pkts_acked 1 rtt v t in turns-SameReno cs p.0 p.1 r u (acked-SameReno rtt v t r u h)
  turns-SameReno (told c ∷ cs) v t r u h =
      let p = congestion_state_set c v t in
      turns-SameReno cs p.0 p.1 r u (told-SameReno c v t r u h)
  turns-SameReno (grown k ∷ cs) v t r u h =
      let p = increase_window d n q k v t in
      let z = n.increase_window k r u in
      turns-SameReno cs p.0 p.1 z.0 z.1 (grown-SameReno k v t r u h)
  turns-SameReno (written a b c l ∷ cs) v t r u h =
      turns-SameReno cs v (write a b c l t) r (write a b c l u) (written-SameReno a b c l v t r u h)

  -- The aggresive mode is TcpNewReno: from that mode, over any course of samples, congestion
  -- states, increases of the window and writes of the socket to the window, the threshold and the
  -- sequence numbers, TcpVegas keeps the mode and leaves the members of its parent class and, but
  -- for the members of the modification, the control block as TcpNewReno alone does, if
  -- TcpNewReno does not know the members of the modification (IsUnaware).
  pub aggresive_turns :
      (cs : List Turn) (v : Vegas n) (t : Tcb)
      → t.mode ≡ aggresive
      → let p = reno_turns n cs v.reno t in SameReno (turns d n q cs v t) p.0 p.1
  aggresive_turns cs v t e =
      turns-SameReno cs v t v.reno t (record { reno = refl; block = refl; mode = e })
