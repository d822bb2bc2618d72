-- ===== src/Socket/Connection/Delays.antt =====
-- The backoff.
use omni_tun.Prelude.{ℕ, zero, suc, ◌+◌, ◌-◌, ◌*◌, ◌^◌, ◌≤◌, min, ◌≡◌, arith}
use omni_tun.Socket.Connection.Defs.{delay_after, base_delay, max_delay}
use mathlib.Core.Path.{subst}
use native.Mathlib.Nat.{pow-suc}

pow_pos : (n : ℕ) → 1 ≤ 2 ^ n
pow_pos zero = omega arith
pow_pos (suc n) = omega (arith, pow-suc 2 n, pow_pos n)

pow-ge : (n : ℕ) → 32 ≤ 2 ^ (n + 5)
pow-ge zero = omega arith
pow-ge (suc n) =
    let e : suc n + 5 ≡ suc (n + 5) = omega arith in rw (e, pow-suc) (omega (arith, pow-ge n))

pow-ge_of_le : (n : ℕ) → 5 ≤ n → 32 ≤ 2 ^ n
pow-ge_of_le n h = let e : n - 5 + 5 ≡ n = omega arith in subst (λ m. 32 ≤ 2 ^ m) e (pow-ge (n - 5))

-- The delay before a reconnect lies between one second and thirty, doubles from one attempt to the
-- next until it reaches thirty, and is thirty from the fifth repetition on.
pub delay_after_bounds :
    (n : ℕ)
    → (base_delay ≤ delay_after n)
      × (delay_after n ≤ max_delay)
      × (delay_after (suc n) ≡ min (2 * delay_after n) max_delay)
      × (5 ≤ n → delay_after n ≡ max_delay)
unfolding delay_after
delay_after_bounds n = (
  omega (arith, pow_pos n),
  omega arith,
  rw pow-suc (omega arith),
  λ h. omega (arith, pow-ge_of_le n h),
)
