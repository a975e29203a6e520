-- ===== src/Vegas/Unmodified.antt =====
-- The modified TcpVegas (NS3/1705069/TaskB/tcp-vegas.cc) against TcpVegas of ns-3 over a whole
-- connection.
use cse_322_computer_network.Base.{
  ℕ, zero, suc, ◌+◌, ◌≤◌, ◌<◌, ◌≡◌, refl, arith, ltb, ◌==◌, ◌&&◌, if◌then◌else◌, List, [], ◌∷◌, sym,
  ap, ◌∙◌,
}
use cse_322_computer_network.Tcb.{Tcb, CongState, moderate}
use cse_322_computer_network.Sequence.{Sequence}
use cse_322_computer_network.Double.{Double}
use cse_322_computer_network.Vegas.{
  NewReno, Vegas, pkts_acked, congestion_state_set, increase_window,
}
use cse_322_computer_network.Vegas.Reference.{
  forget, IsUnaware, plain_acked, plain_increase, plain_increase-forget, plain_increase-SameMembers,
}

-- What happens to the block of a connection: a sample, a congestion state, an increase of the
-- window, and what the socket writes to the window, the threshold and the sequence numbers.
pub data Turn : Type 0 where
  acked : ℕ → Turn
  told : CongState → Turn
  grown : ℕ → Turn
  written : ℕ → ℕ → ℕ → ℕ → Turn

abbrev pub write : ℕ → ℕ → ℕ → ℕ → Tcb → Tcb
write c_wnd ss_thresh next last t = record t {
  c_wnd = c_wnd;
  ss_thresh = ss_thresh;
  next_tx_sequence = next;
  last_acked_seq = last;
}

abbrev pub rise : ℕ → ℕ → ℕ → ℕ → ℕ
rise last rtt window c_wnd = if ltb last rtt && window == c_wnd then 1 else 0

module _ (d : Double) (n : NewReno) (q : Sequence) where
  unfoldable pub turn : Turn → Vegas n → Tcb → Vegas n × Tcb
  turn (acked rtt) v t = pkts_acked 1 rtt v t
  turn (told c) v t = congestion_state_set c v t
  turn (grown k) v t = increase_window d n q k v t
  turn (written a b c e) v t = (v, write a b c e t)

  unfoldable pub turns : List Turn → Vegas n → Tcb → Vegas n × Tcb
  turns [] v t = (v, t)
  turns (c ∷ cs) v t = let (w, u) = turn c v t in turns cs w u

  -- The same for TcpVegas of ns-3.
  unfoldable pub plain_turn : Turn → Vegas n → Tcb → Vegas n × Tcb
  plain_turn (acked rtt) v t = (plain_acked rtt v, t)
  plain_turn (told c) v t = congestion_state_set c v t
  plain_turn (grown k) v t = plain_increase d n q k v t
  plain_turn (written a b c e) v t = (v, write a b c e t)

  unfoldable pub plain_turns : List Turn → Vegas n → Tcb → Vegas n × Tcb
  plain_turns [] v t = (v, t)
  plain_turns (c ∷ cs) v t = let (w, u) = plain_turn c v t in plain_turns cs w u

  -- The samples that are above the one before them at an unchanged window, on a connection with
  -- TcpVegas of ns-3. A zero sample is none.
  unfoldable pub plain_rises : ℕ → ℕ → List Turn → Vegas n → Tcb → ℕ
  plain_rises last c_wnd [] v t = 0
  plain_rises last c_wnd (acked rtt ∷ cs) v t =
      let (w, u) = plain_turn (acked rtt) v t in
      if rtt == 0
      then plain_rises last c_wnd cs w u
      else rise last rtt c_wnd t.c_wnd + plain_rises rtt t.c_wnd cs w u
  plain_rises last c_wnd (told c ∷ cs) v t =
      let (w, u) = plain_turn (told c) v t in plain_rises last c_wnd cs w u
  plain_rises last c_wnd (grown k ∷ cs) v t =
      let (w, u) = plain_turn (grown k) v t in plain_rises last c_wnd cs w u
  plain_rises last c_wnd (written a b c e ∷ cs) v t =
      let (w, u) = plain_turn (written a b c e) v t in plain_rises last c_wnd cs w u

-- The block, as a connection with TcpVegas of ns-3 sees it.
pub record Agree {n : NewReno} (p q : Vegas n × Tcb) : Type 0 where
  pub object : p.0 ≡ q.0
  pub block : forget p.1 ≡ forget q.1

same_window : (t t' : Tcb) → forget t ≡ forget t' → t.c_wnd ≡ t'.c_wnd
unfolding forget
same_window t t' e = ap (λ (b : Tcb). b.c_wnd) e

pub write-forget :
    (a b c l : ℕ) (t t' : Tcb)
    → forget t ≡ forget t'
    → forget (write a b c l t) ≡ forget (write a b c l t')
unfolding forget
write-forget a b c l t t' e = ap (write a b c l) e

module _ {n : NewReno} where
  acked_object : (rtt : ℕ) (v : Vegas n) (t : Tcb) → (pkts_acked 1 rtt v t).0 ≡ plain_acked rtt v
  unfolding pkts_acked plain_acked
  acked_object rtt v t = ground arith

  pub acked_block : (rtt : ℕ) (v : Vegas n) (t : Tcb) → forget (pkts_acked 1 rtt v t).1 ≡ forget t
  unfolding pkts_acked forget
  acked_block rtt v t = ground arith

  -- A sample that is not 0 keeps the moderate mode while the counter stays in its limit.
  acked_counts :
      (rtt : ℕ) (v : Vegas n) (t : Tcb)
      → 0 < rtt
      → t.mode ≡ moderate
      → t.v_count + rise t.vegas_last_rtt rtt t.vegas_last_cwnd t.c_wnd ≤ t.v_count_max
      → let u = (pkts_acked 1 rtt v t).1 in
        (u.mode ≡ moderate)
        × (u.v_count ≤ t.v_count + rise t.vegas_last_rtt rtt t.vegas_last_cwnd t.c_wnd)
        × (u.v_count_max ≡ t.v_count_max)
        × (u.vegas_last_rtt ≡ rtt)
        × (u.vegas_last_cwnd ≡ t.c_wnd)
  unfolding pkts_acked
  acked_counts rtt v t pos m le = ground arith

  told_object :
      (c : CongState) (v : Vegas n) (t t' : Tcb)
      → forget t ≡ forget t'
      → (congestion_state_set c v t).0 ≡ (congestion_state_set c v t').0
  unfolding forget congestion_state_set
  told_object c v t t' e = ap (λ (b : Tcb). (congestion_state_set c v b).0) e

module _ (d : Double) {n : NewReno} (q : Sequence) (unaware : IsUnaware n) where
  -- In the moderate mode an increase is that of ns-3.
  increase_moderate :
      (k : ℕ) (v : Vegas n) (t : Tcb)
      → t.mode ≡ moderate
      → increase_window d n q k v t ≡ plain_increase d n q k v t
  unfolding increase_window plain_increase
  increase_moderate k v t e = ground arith

  plain_increase-Agree :
      (k : ℕ) (v : Vegas n) (t t' : Tcb)
      → forget t ≡ forget t'
      → Agree (plain_increase d n q k v t) (plain_increase d n q k v t')
  plain_increase-Agree k v t t' e =
      let f = λ (b : Tcb). plain_increase d n q k v b in
      let h =
        sym (plain_increase-forget d unaware q k v t)
        ∙ ap f e
        ∙ plain_increase-forget d unaware q k v t' in
      record {
        object = ap (λ (p : Vegas n × Tcb). p.0) h;
        block = ap (λ (p : Vegas n × Tcb). p.1) h;
      }

  from_object :
      (cs : List Turn) (w w' : Vegas n) (u : Tcb) (x : Vegas n × Tcb)
      → w ≡ w'
      → Agree (turns d n q cs w' u) x
      → Agree (turns d n q cs w u) x
  from_object cs w w' u x e h = rw e h

  rises_acked :
      (cs : List Turn) (last c_wnd r : ℕ) (v : Vegas n) (t : Tcb)
      → plain_rises d n q last c_wnd (acked (suc r) ∷ cs) v t
        ≡ rise last (suc r) c_wnd t.c_wnd
          + plain_rises d n q (suc r) t.c_wnd cs (plain_acked (suc r) v) t
  unfolding plain_rises plain_turn
  rises_acked cs last c_wnd r v t = ground arith

  -- A sample that is not 0 uses up what it is counted for.
  acked_budget :
      (cs : List Turn) (r : ℕ) (v : Vegas n) (t t' : Tcb)
      → forget t ≡ forget t'
      → t.mode ≡ moderate
      → t.v_count + plain_rises d n q t.vegas_last_rtt t.vegas_last_cwnd (acked (suc r) ∷ cs) v t'
        ≤ t.v_count_max
      → let u = (pkts_acked 1 (suc r) v t).1 in
        (u.mode ≡ moderate)
        × (u.v_count
              + plain_rises d n q u.vegas_last_rtt u.vegas_last_cwnd cs (plain_acked (suc r) v) t'
            ≤ u.v_count_max)
  acked_budget cs r v t t' e m le =
      let z = rises_acked cs t.vegas_last_rtt t.vegas_last_cwnd r v t' in
      let x = rise t.vegas_last_rtt (suc r) t.vegas_last_cwnd t.c_wnd in
      let y = plain_rises d n q (suc r) t.c_wnd cs (plain_acked (suc r) v) t' in
      let le' : t.v_count + (x + y) ≤ t.v_count_max = rw (same_window t t' e, ← z) le in
      let c = acked_counts (suc r) v t (omega arith) m (omega arith) in
      let (mode, count, most, rtt, window) = c in (mode, rw (rtt, window, most) (omega arith))

  same_turns :
      (cs : List Turn) (v : Vegas n) (t t' : Tcb)
      → forget t ≡ forget t'
      → t.mode ≡ moderate
      → t.v_count + plain_rises d n q t.vegas_last_rtt t.vegas_last_cwnd cs v t' ≤ t.v_count_max
      → Agree (turns d n q cs v t) (plain_turns d n q cs v t')
  unfolding turns plain_turns turn plain_turn plain_rises plain_acked pkts_acked
      congestion_state_set
  same_turns [] v t t' e m le = record { object = refl; block = e }
  same_turns (acked zero ∷ cs) v t t' e m le = same_turns cs v t t' e m le
  same_turns (acked (suc r) ∷ cs) v t t' e m le =
      let p = pkts_acked 1 (suc r) v t in
      let w = plain_acked (suc r) v in
      let b = acked_budget cs r v t t' e m le in
      from_object cs p.0 w p.1 (plain_turns d n q cs w t') (acked_object (suc r) v t)
        (same_turns cs w p.1 t' (acked_block (suc r) v t ∙ e) b.0 b.1)
  same_turns (told c ∷ cs) v t t' e m le =
      let w = (congestion_state_set c v t').0 in
      from_object cs (congestion_state_set c v t).0 w t (plain_turns d n q cs w t')
        (told_object c v t t' e) (same_turns cs w t t' e m le)
  same_turns (grown k ∷ cs) v t t' e m le =
      let p = plain_increase d n q k v t in
      let p' = plain_increase d n q k v t' in
      let g = plain_increase-Agree k v t t' e in
      let s = plain_increase-SameMembers d unaware q k v t in
      rw (increase_moderate k v t m) (
        from_object cs p.0 p'.0 p.1 (plain_turns d n q cs p'.0 p'.1) g.object (
          same_turns cs p'.0 p.1 p'.1 g.block (s.mode ∙ m)
            (rw (s.v_count, s.v_count_max, s.vegas_last_rtt, s.vegas_last_cwnd) le)))
  same_turns (written a b c l ∷ cs) v t t' e m le =
      same_turns cs v (write a b c l t) (write a b c l t') (write-forget a b c l t t' e) m le

  -- The modified TcpVegas is that of ns-3 until the round trips rise: from the moderate mode,
  -- over any course of samples, congestion states, increases of the window and writes of the
  -- socket to the window, the threshold and the sequence numbers, it leaves the same object and,
  -- but for the members of the modification, the same control block, if the counter and the
  -- samples that are above the sample before them at an unchanged window are together at most
  -- v_count_max, and TcpNewReno does not know the members of the modification (IsUnaware).
  pub turns-Agree :
      (cs : List Turn) (v : Vegas n) (t : Tcb)
      → t.mode ≡ moderate
      → t.v_count + plain_rises d n q t.vegas_last_rtt t.vegas_last_cwnd cs v t ≤ t.v_count_max
      → Agree (turns d n q cs v t) (plain_turns d n q cs v t)
  turns-Agree cs v t m le = same_turns cs v t t refl m le
