-- ===== src/Poller/Backoff.antt =====
-- The delays between loads.
use jumpway.Prelude.{ℕ, zero, suc, ◌*◌, ◌^◌, min, ◌≤◌, ◌≡◌, arith}
use native.Mathlib.Nat.{pow-suc}
use jumpway.Poller.{Options, delay}

pow-pos : (n : ℕ) → 1 ≤ 2 ^ n
pow-pos zero = omega arith
pow-pos (suc n) = rw pow-suc (omega (arith, pow-pos n))

doubled : (i n : ℕ) → i * 2 ^ suc n ≡ 2 * (i * 2 ^ n)
doubled i n = rw pow-suc (omega arith)

le-doubled : (i n : ℕ) → i ≤ i * 2 ^ n
le-doubled i n = grind (arith, pow-pos n)

-- The delay lies between the interval and its cap, starts at the interval, doubles with each failure
-- until the cap, and then stays there.
pub delay_backoff :
    (o : Options) (n : ℕ)
    → o.interval ≤ o.max_interval
    → (delay o 0 ≡ o.interval)
      × (o.interval ≤ delay o n)
      × (delay o n ≤ o.max_interval)
      × (delay o (suc n) ≡ min (2 * delay o n) o.max_interval)
unfolding delay
delay_backoff o n h =
    (omega arith, omega (arith, le-doubled o.interval n), omega arith, rw doubled (omega arith))
