-- ===== src/Vegas/Mode.antt =====
-- The modification of TcpVegas: when the mode of a connection becomes aggresive, and what that
-- mode does.
use cse_322_computer_network.Base.{
  ℕ, suc, ◌+◌, ◌≤◌, ◌<◌, ◌≡◌, arith, List, [], ◌∷◌, ◌&&◌, ltb, ◌==◌, if◌then◌else◌, Bool-cases, inl,
  inr,
}
use cse_322_computer_network.Tcb.{Tcb, moderate, aggresive}
use cse_322_computer_network.Vegas.{NewReno, Vegas, pkts_acked}

-- A round-trip sample, and the window that the connection has when it arrives.
pub record Sample : Type 0 where
  pub rtt : ℕ
  pub c_wnd : ℕ

module _ {n : NewReno} where
  -- The block after `PktsAcked` for each sample in turn.
  abbrev pub samples : List Sample → Vegas n → Tcb → Tcb
  samples [] v tcb = tcb
  samples (s ∷ ss) v tcb =
      let (w, t) = pkts_acked 1 s.rtt v (record tcb { c_wnd = s.c_wnd }) in samples ss w t

-- The samples that are above the one before them, at the same window. A zero sample is none.
pub rises : ℕ → ℕ → List Sample → ℕ
rises last c_wnd [] = 0
rises last c_wnd (s ∷ ss) =
    if s.rtt == 0
    then rises last c_wnd ss
    else (if ltb last s.rtt && c_wnd == s.c_wnd then 1 else 0) + rises s.rtt s.c_wnd ss

module _ {n : NewReno} where
  -- The invariant along the samples: the counter is not above the rises so far.
  mode-needs :
      (ss : List Sample) (k : ℕ) (v : Vegas n) (tcb : Tcb)
      → tcb.v_count ≤ k
      → tcb.mode ≡ moderate
      → (samples ss v tcb).mode ≡ aggresive
      → tcb.v_count_max < k + rises tcb.vegas_last_rtt tcb.vegas_last_cwnd ss
  unfolding pkts_acked rises
  mode-needs [] k v tcb h m a = cc
  mode-needs (s ∷ ss) k v tcb h m a =
      let (w, t) = pkts_acked 1 s.rtt v (record tcb { c_wnd = s.c_wnd }) in
      ground (arith, mode-needs ss k w t, mode-needs ss (k + 1) w t)

  -- From the moderate mode with the counter at 0, round-trip samples turn the mode to aggresive
  -- only if more than v_count_max of them are above the sample before them at an unchanged
  -- window.
  pub aggresive_needs :
      (ss : List Sample) (v : Vegas n) (tcb : Tcb)
      → tcb.v_count ≡ 0
      → tcb.mode ≡ moderate
      → (samples ss v tcb).mode ≡ aggresive
      → tcb.v_count_max < rises tcb.vegas_last_rtt tcb.vegas_last_cwnd ss
  aggresive_needs ss v tcb z m a = omega (arith, mode-needs ss 0 v tcb (omega arith) m a)

  aggresive_step :
      (s : Sample) (v : Vegas n) (tcb : Tcb)
      → tcb.mode ≡ aggresive
      → (pkts_acked 1 s.rtt v (record tcb { c_wnd = s.c_wnd })).1.mode ≡ aggresive
  unfolding pkts_acked
  aggresive_step s v tcb a = ground arith

  -- No round-trip sample takes a connection out of the aggresive mode.
  pub aggresive_stays :
      (ss : List Sample) (v : Vegas n) (tcb : Tcb)
      → tcb.mode ≡ aggresive
      → (samples ss v tcb).mode ≡ aggresive
  aggresive_stays [] v tcb a = a
  aggresive_stays (s ∷ ss) v tcb a =
      let (w, t) = pkts_acked 1 s.rtt v (record tcb { c_wnd = s.c_wnd }) in
      aggresive_stays ss w t (aggresive_step s v tcb a)

-- Each sample is above the one before it, at one window.
abbrev pub AreRising : ℕ → ℕ → List Sample → Type 0
AreRising last c_wnd [] = Unit
AreRising last c_wnd (s ∷ ss) = (last < s.rtt) × (s.c_wnd ≡ c_wnd) × AreRising s.rtt c_wnd ss

abbrev pub length {ℓ} : {A : Type ℓ} → List A → ℕ
length [] = 0
length (x ∷ xs) = suc (length xs)

module _ {n : NewReno} where
  rising_step :
      (s : Sample) (v : Vegas n) (tcb : Tcb)
      → tcb.vegas_last_rtt < s.rtt
      → s.c_wnd ≡ tcb.vegas_last_cwnd
      → let t = (pkts_acked 1 s.rtt v (record tcb { c_wnd = s.c_wnd })).1 in
        (t.v_count ≡ tcb.v_count + 1)
        × (t.v_count_max ≡ tcb.v_count_max)
        × (t.vegas_last_rtt ≡ s.rtt)
        × (t.vegas_last_cwnd ≡ tcb.vegas_last_cwnd)
        × (tcb.v_count_max < tcb.v_count + 1 → t.mode ≡ aggresive)
  unfolding pkts_acked
  rising_step s v tcb lt e = ground arith

  -- Samples that rise at one window turn the mode to aggresive as soon as the counter, which
  -- starts at most at v_count_max and grows by one with each of them, would be above v_count_max.
  pub rising_turns_aggresive :
      (ss : List Sample) (v : Vegas n) (tcb : Tcb)
      → tcb.v_count ≤ tcb.v_count_max
      → tcb.v_count_max < tcb.v_count + length ss
      → AreRising tcb.vegas_last_rtt tcb.vegas_last_cwnd ss
      → (samples ss v tcb).mode ≡ aggresive
  rising_turns_aggresive [] v tcb le lt r = absurd (omega arith)
  rising_turns_aggresive (s ∷ ss) v tcb le lt r =
      let (w, t) = pkts_acked 1 s.rtt v (record tcb { c_wnd = s.c_wnd }) in
      let f = rising_step s v tcb r.0 r.1 in
      elim (Bool-cases (ltb tcb.v_count_max (tcb.v_count + 1))) [
        | inl over ↦ aggresive_stays ss w t (f.4 (ground arith))
        | inr under ↦
            rising_turns_aggresive ss w t (ground (arith, f)) (ground (arith, f))
              (rw (f.2, f.3) r.2)
      ]
