-- ===== src/Limits/Loads.antt =====
-- How far the adapted options of extcontainer/action_stress_limit_helpers.go are from the limit.
use extension_container.Common.{ℕ, ◌+◌, ◌*◌, ◌/◌, ◌^◌, ◌≤◌, ◌<◌, ◌≡◌, refl, ◌∙◌, ap, arith, some}
use native.Mathlib.Decide.{dec_le}
use extension_container.Common.Int.{pos, wrap, ◌*ℤ◌, quot, wrap_small}
use extension_container.Limits.Adapt.{StressOpts, Machine, half_up, adapt_to_cpu_container_limits}

half_up_bounds :
    (a b : ℕ)
    → 0 < b
    → (2 * (b * half_up a b) ≤ 2 * a + b) × (2 * a + b < 2 * (b * half_up a b) + 2 * b)
unfolding half_up
half_up_bounds a b h = grind arith

-- The documented behaviour of `mathx.RoundUp(n / 1000, 0)` on whole numbers: the next integer that is
-- not below.
abbrev pub RoundsUp : Machine → Type 0
RoundsUp machine =
    (n : ℕ)
    → (w : ℕ) × (machine.round_up_thousandths (pos n) ≡ pos w)
      × (n ≤ 1000 * w)
      × (1000 * w < n + 1000)

-- `w` workers at `c` percent each, against `m` thousandths of a CPU.
pub record Meets (m w c : ℕ) : Type 0 where
  pub working : 0 < w
  pub load_cap : c ≤ 100
  pub few : 1000 * w < m + 1000
  pub above : 20 * (w * c) ≤ 2 * m + w
  pub below : m < 10 * (w * (c + 1))

scaled_le : (w r s : ℕ) → r ≤ s → w * r ≤ w * s
scaled_le w r s h = grind arith

rounded_cap : (m w r : ℕ) → 0 < w → m ≤ 1000 * w → 2 * (w * r) ≤ 2 * m + w → r ≤ 1000
rounded_cap m w r p up h = elim (dec_le r 1000) [
  | yes below ↦ below
  | no above ↦ absurd (omega (arith, scaled_le w 1001 r (omega arith), above))
]

Meets-rounded :
    (m w r c : ℕ)
    → 0 < m
    → m ≤ 1000 * w
    → 1000 * w < m + 1000
    → 10 * c ≤ r
    → r < 10 * c + 10
    → (2 * (w * r) ≤ 2 * m + w) × (2 * m + w < 2 * (w * r) + 2 * w)
    → Meets m w c
Meets-rounded m w r c h up few lo hi b = record {
  working = omega arith;
  load_cap = omega (arith, rounded_cap m w r (omega arith) up b.0);
  few = few;
  above = omega (arith, scaled_le w (10 * c) r lo, b.0);
  below = omega (arith, scaled_le w r (10 * c + 9) (omega arith), b.1);
}

Meets-load : (m w : ℕ) → 0 < m → m ≤ 1000 * w → 1000 * w < m + 1000 → Meets m w (half_up m w / 10)
Meets-load m w h up few =
    Meets-rounded m w (half_up m w) (half_up m w / 10) h up few (omega arith) (omega arith)
      (half_up_bounds m w (omega arith))

-- The CPU that the request asks for, in thousandths.
abbrev pub requested : ℕ → ℕ → ℕ
requested limit load = limit * load / 100

requested_millis :
    (limit load : ℕ) (opts : StressOpts)
    → opts.cpu_load ≡ pos load
    → limit * load < 2 ^ 63
    → quot (wrap (pos limit *ℤ opts.cpu_load)) (pos 100) ≡ pos (requested limit load)
unfolding ◌*ℤ◌ quot
requested_millis limit load opts e small = rw (e, wrap_small (limit * load) small) refl

-- With no number of workers given, the workers are as few as can bear the requested CPU, their load
-- is a percentage, and together they take what was requested: over it by half a thousandth for each
-- worker at most, and under it by less than one percent of a CPU for each. It is the limit's share
-- that is requested, and at least one thousandth; the product stays below 2^63.
pub adapt-Meets :
    (machine : Machine) (opts : StressOpts) (limit load : ℕ)
    → RoundsUp machine
    → opts.cpu_load ≡ pos load
    → limit * load < 2 ^ 63
    → 0 < requested limit load
    → let adapted = adapt_to_cpu_container_limits machine (pos limit) opts (pos 0) in
      (w c : ℕ) × (adapted.cpu_workers ≡ some (pos w))
      × (adapted.cpu_load ≡ pos c)
      × Meets (requested limit load) w c
unfolding adapt_to_cpu_container_limits
adapt-Meets machine opts limit load up e small some_load =
    let m = requested limit load in
    let (w, workers, lo, hi) = up m in
    (
      w,
      half_up m w / 10,
      rw (requested_millis limit load opts e small, workers) refl,
      rw (requested_millis limit load opts e small, workers) (ground (arith, some_load, lo)),
      Meets-load m w some_load lo hi,
    )

-- With a number of workers given, it is kept, and each worker gets its share of the requested CPU:
-- together over it by half a thousandth for each worker at most, and under it by less than one
-- percent of a CPU for each.
pub adapt_given :
    (machine : Machine) (opts : StressOpts) (limit load w : ℕ)
    → opts.cpu_load ≡ pos load
    → limit * load < 2 ^ 63
    → 0 < w
    → let adapted = adapt_to_cpu_container_limits machine (pos limit) opts (pos w) in
      (c : ℕ) × (adapted.cpu_workers ≡ some (pos w))
      × (adapted.cpu_load ≡ pos c)
      × (20 * (w * c) ≤ 2 * requested limit load + w)
      × (requested limit load < 10 * (w * (c + 1)))
unfolding adapt_to_cpu_container_limits
adapt_given machine opts limit load w e small h =
    let m = requested limit load in
    let b = half_up_bounds m w h in
    let r = half_up m w in
    (
      r / 10,
      ground (arith, h),
      rw (requested_millis limit load opts e small) (ground (arith, h)),
      omega (arith, scaled_le w (10 * (r / 10)) r (omega arith), b.0),
      omega (arith, scaled_le w r (10 * (r / 10) + 9) (omega arith), b.1),
    )

-- Where the requested share of the limit is less than a thousandth of a CPU and no number of workers
-- is given, no worker is computed, and the load is the int that the processor makes of the quotient
-- zero by zero.
pub adapt_no_share :
    (machine : Machine) (opts : StressOpts) (limit load : ℕ)
    → RoundsUp machine
    → opts.cpu_load ≡ pos load
    → limit * load < 100
    → let adapted = adapt_to_cpu_container_limits machine (pos limit) opts (pos 0) in
      (adapted.cpu_workers ≡ some (pos 0)) × (adapted.cpu_load ≡ machine.int_of_nan)
unfolding adapt_to_cpu_container_limits
adapt_no_share machine opts limit load up e small =
    let (w, workers, lo, hi) = up 0 in
    let none_needed : w ≡ 0 = omega (arith, hi) in
    let nothing : requested limit load ≡ 0 = omega (arith, small) in
    let millis = requested_millis limit load opts e (omega (arith, small)) in
    let no_worker : machine.round_up_thousandths (pos 0) ≡ pos 0 = workers ∙ ap pos none_needed in
    (rw (millis, nothing, no_worker) refl, rw (millis, nothing, no_worker) refl)
