-- ===== src/Cloudflare/Services/Delivery/Backoff.antt =====
-- `retry_delay_seconds` of cloudflare/src/hooklane_cf/core.py.
use hooklane.Prelude.{
  ℕ, suc, ◌+◌, ◌-◌, ◌*◌, ◌^◌, ◌≤◌, min, max, false, some, ◌≡◌, refl, ltb, arith, Bool-cases, inl,
  inr,
}
use native.Mathlib.Omega.{pow_step}
use native.Mathlib.Nat.{one-le-pow}
use hooklane.Cloudflare.Services.Delivery.{quarter, round, backoff, retry_delay_seconds}

-- `random.uniform(low, high)` lies between its bounds.
abbrev pub IsUniform : (ℕ → ℕ → ℕ) → Type 0
IsUniform uniform =
    (low high : ℕ) → low ≤ high → (low ≤ uniform low high) × (uniform low high ≤ high)

round_near :
    (units : ℕ)
    → (8 * quarter * round units ≤ 2 * units + 4 * quarter)
      × (2 * units ≤ 8 * quarter * round units + 4 * quarter)
unfolding round
round_near units = (ground arith, ground arith)

-- The backoff is one second at the first attempt, and doubles from one attempt to the next up to a
-- minute.
pub backoff_doubles :
    (n : ℕ) → (backoff 1 ≡ 1) × (backoff (suc (suc n)) ≡ min (2 * backoff (suc n)) 60)
unfolding backoff
backoff_doubles n = (
  refl,
  elim (Bool-cases (ltb n 62)) [
    | inl early ↦
        let e : min (suc (suc n) - 1) 62 ≡ suc n = ground arith in
        let f : min (suc n - 1) 62 ≡ n = ground arith in
        let step = pow_step 2 n in rw e (rw f (rw step (omega arith)))
    | inr late ↦
        let e : min (suc (suc n) - 1) 62 ≡ 62 = ground arith in
        let f : min (suc n - 1) 62 ≡ 62 = ground arith in rw e (rw f refl)
  ],
)

backoff_bounds : (n : ℕ) → (1 ≤ backoff n) × (backoff n ≤ 60)
unfolding backoff
backoff_bounds n =
    let big : 1 ≤ 2 ^ min (n - 1) 62 = one-le-pow (min (n - 1) 62) 2 (omega arith) in
    (omega arith, omega arith)

-- For an attempt that is counted from one there is a delay, of a second to a minute, whatever number is
-- drawn.
pub retry_delay_seconds-clamped :
    (uniform : ℕ → ℕ → ℕ) (n : ℕ)
    → 1 ≤ n
    → (d : ℕ) × (retry_delay_seconds uniform n ≡ some d) × (1 ≤ d) × (d ≤ 60)
unfolding retry_delay_seconds
retry_delay_seconds-clamped uniform n ge =
    let jittered = backoff n * uniform (3 * quarter) (5 * quarter) in
    let counted : ltb n 1 ≡ false = ground arith in
    (max 1 (min (round jittered) 60), rw counted refl, omega arith, omega arith)

-- Where the number that is drawn lies between the bounds that are asked for, the delay is within rounding
-- of a quarter around the backoff.
pub retry_delay_seconds-window :
    (uniform : ℕ → ℕ → ℕ) (n : ℕ)
    → IsUniform uniform
    → 1 ≤ n
    → let b = backoff n in
      (d : ℕ) × (retry_delay_seconds uniform n ≡ some d) × (3 * b ≤ 4 * d + 2) × (4 * d ≤ 5 * b + 2)
unfolding retry_delay_seconds
retry_delay_seconds-window uniform n law ge =
    let b = backoff n in
    let u = uniform (3 * quarter) (5 * quarter) in
    let bounds = backoff_bounds n in
    let near = round_near (b * u) in
    let counted : ltb n 1 ≡ false = ground arith in
    let between = law (3 * quarter) (5 * quarter) (omega arith) in
    let low : b * (3 * quarter) ≤ b * u = grind arith in
    let high : b * u ≤ b * (5 * quarter) = grind arith in
    (max 1 (min (round (b * u)) 60), rw counted refl, omega arith, omega arith)
