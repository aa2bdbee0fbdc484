-- ===== src/Strategy/Autorestart/Delay.antt =====
-- internal/strategy/autorestart/restart.go: how long handleCrash waits.
use pinchtab.Prelude.{
  ℕ, zero, suc, ◌*◌, ◌-◌, ◌^◌, ◌%◌, ◌<◌, ◌≤◌, ◌≡◌, false, ltb, if◌then◌else◌, ap, arith,
}
use native.Mathlib.Nat.{mul-one, mul-add, two-pow-succ}
use pinchtab.Prelude.Int.{ℤ, pos, ltb_ℤ}
use pinchtab.Strategy.Autorestart.Handlers.{two_63, two_64, backoff}

abbrev pub lesser : ℕ → ℕ → ℕ
lesser a b = if ltb b a then b else a

mul_pow_le : (i c : ℕ) → i ≤ i * 2 ^ c
mul_pow_le i zero = omega (arith, mul-one i)
mul_pow_le i (suc c) = omega (
  arith,
  mul_pow_le i c,
  two-pow-succ c,
  mul-add i (2 ^ c) (2 ^ c),
  ap (λ x. i * x) (two-pow-succ c),
)

-- Where the doubled delay fits an int64, the wait is that delay or the cap, whichever is less.
pub backoff-lesser :
    (i m c : ℕ) → i * 2 ^ c < two_63 → backoff (pos i) (pos m) (suc c) ≡ pos (lesser (i * 2 ^ c) m)
unfolding backoff
backoff-lesser i m c h =
    let le : i ≤ i * 2 ^ c = mul_pow_le i c in
    let fits : i % two_64 ≡ i = omega (arith, le, h) in
    let pred : suc c - 1 ≡ c = omega arith in
    let wrap : i * 2 ^ c % two_64 ≡ i * 2 ^ c = omega (arith, h) in
    rw (pred, fits, wrap) (ground (arith, h))

-- Whatever the settings and the number of crashes, the wait is not longer than the cap.
pub backoff_capped : (init max : ℤ) (count : ℕ) → ltb_ℤ max (backoff init max count) ≡ false
unfolding backoff
backoff_capped init max count = ground arith
