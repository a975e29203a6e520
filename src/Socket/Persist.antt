-- ===== src/Socket/Persist.antt =====
-- The probes of a closed window: PersistTimeout of NS3/1705069/TaskB/tcp-socket-base.cc.
use cse_322_computer_network.Base.{ℕ, zero, suc, ◌+◌, ◌*◌, ◌^◌, ◌≤◌, min, ◌≡◌, arith, some}
use cse_322_computer_network.Net.{Net}
use cse_322_computer_network.Socket.State.{Socket}
use cse_322_computer_network.Socket.Send.{note_adv_wnd}
use cse_322_computer_network.Socket.Timeouts.{minute, persist_timeout}

power-positive : (k : ℕ) → 1 ≤ 2 ^ k
power-positive zero = omega arith
power-positive (suc k) = let p = power-positive k in omega arith

le_times : (a p : ℕ) → 1 ≤ p → a ≤ a * p
le_times a p h = grind arith

power-suc : (a k : ℕ) → a * 2 ^ suc k ≡ 2 * a * 2 ^ k
power-suc a k = grind arith

-- A limit at every doubling is a limit at the end.
pub min_doubled : (m a k : ℕ) → min m (min m (2 * a) * 2 ^ k) ≡ min m (a * 2 ^ suc k)
min_doubled m a k =
    let p = power-positive k in
    ground (arith, power-suc a k, le_times m (2 ^ k) p, le_times (2 * a) (2 ^ k) p)

module _ {x : Net} where
  -- So many probes, one after the other.
  unfoldable pub persist_timeouts : ℕ → Socket x → Socket x
  persist_timeouts zero s = s
  persist_timeouts (suc k) s = persist_timeouts k (persist_timeout s)

  persist_step :
      (s : Socket x)
      → ((persist_timeout s).persist_timeout ≡ min minute (2 * s.persist_timeout))
        × ((persist_timeout s).now ≡ s.now)
        × ((persist_timeout s).persist_event ≡ some (s.now + min minute (2 * s.persist_timeout)))
        × ((persist_timeout s).retx_event ≡ s.retx_event)
  unfolding persist_timeout note_adv_wnd
  persist_step s = ground arith

  -- After k + 1 probes of a closed window, the first interval at most a minute, the interval is
  -- the first one doubled k + 1 times, but at most a minute, the next probe is due after it, and
  -- the retransmission event is as before.
  pub persist_backoff :
      (k : ℕ) (s : Socket x)
      → s.persist_timeout ≤ minute
      → let t = persist_timeouts (suc k) s in
        (t.persist_timeout ≡ min minute (s.persist_timeout * 2 ^ suc k))
        × (t.persist_event ≡ some (t.now + t.persist_timeout))
        × (t.retx_event ≡ s.retx_event)
  unfolding persist_timeouts
  persist_backoff zero s le = let p = persist_step s in ground (arith, p)
  persist_backoff (suc k) s le =
      let p = persist_step s in
      let r = persist_backoff k (persist_timeout s) (omega (arith, p)) in
      ground (arith, p, r, min_doubled minute s.persist_timeout (suc k))
