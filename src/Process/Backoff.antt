-- ===== src/Process/Backoff.antt =====
-- How long a restart of internal/agent/process/supervisor.go waits.
use f1337_mcp.Prelude.{ℕ, zero, suc, ◌*◌, ◌^◌, ◌≤◌, ◌≡◌, sym, arith, ◌==◌, if◌then◌else◌}
use Prim.Native.Nat.{min}
use native.Mathlib.Nat.{pow-succ', mul_assoc, pow-suc, mul_assoc}
use f1337_mcp.Process.Restart.{doubled, backoff_for, second}

pow_pos : (n : ℕ) → 1 ≤ 2 ^ n
pow_pos zero = omega arith
pow_pos (suc n) = omega (arith, pow-suc 2 n, pow_pos n)

doubled_closed :
    (count delay capped : ℕ) → doubled count delay capped ≡ min (delay * 2 ^ count) capped
unfolding doubled
doubled_closed zero delay capped = ground arith
doubled_closed (suc count) delay capped =
    ground
      (arith, shifted, grows (2 ^ count) (pow_pos count), doubled_closed count (delay * 2) capped)
  where
    shifted : delay * 2 ^ suc count ≡ delay * 2 * 2 ^ count
    shifted = rw (pow-succ' 2 count) (sym (mul_assoc delay 2 (2 ^ count)))

    grows : (p : ℕ) → 1 ≤ p → delay * 2 ≤ delay * 2 * p
    grows p h = grind arith

-- The wait before the restart of number `count` is the base delay (a second if none is set), doubled
-- `count` times, and never more than the cap.
pub backoff_for_closed :
    (base count capped : ℕ)
    → backoff_for base count capped ≡ min ((if base == 0 then second else base) * 2 ^ count) capped
unfolding backoff_for
backoff_for_closed base count capped = doubled_closed count _ capped
