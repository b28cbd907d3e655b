-- ===== src/Limits/Memory.antt =====
-- The memory of a stress attack in extcontainer/action_stress_limit_helpers.go.
use extension_container.Common.{
  ℕ, ◌+◌, ◌*◌, ◌/◌, ◌^◌, ◌≤◌, ◌<◌, ◌≡◌, refl, ◌∙◌, ap, arith, some, eqb, if◌then◌else◌, ◌<>◌,
  decimal, ok, sscanf_percent,
}
use extension_container.Common.Int.{pos, wrap, ◌*ℤ◌, quot, wrap_small}
use extension_container.Common.Numerals.{sscanf_percent-decimal}
use extension_container.Limits.Adapt.{
  StressOpts, Machine, kilobytes_per_worker, adapt_to_mem_container_limits,
}

-- The kilobytes that each of `w` workers takes.
abbrev pub share : ℕ → ℕ → ℕ → ℕ
share limit percent w = let k = limit * percent / 100 / w / 1024 in if eqb k 0 then 1 else k

bytes_lem :
    (limit percent : ℕ)
    → limit * percent < 2 ^ 63
    → quot (wrap (pos limit *ℤ pos percent)) (pos 100) ≡ pos (limit * percent / 100)
unfolding ◌*ℤ◌ quot
bytes_lem limit percent small = rw (wrap_small (limit * percent) small) refl

per_worker_lem :
    (bytes w : ℕ)
    → bytes < 2 ^ 63
    → quot (wrap (quot (pos bytes) (pos w))) (pos 1024) ≡ pos (bytes / w / 1024)
unfolding quot
per_worker_lem bytes w small = rw (wrap_small (bytes / w) (grind arith)) refl

kilobytes_per_worker-share :
    (machine : Machine) (limit percent w : ℕ)
    → limit * percent < 2 ^ 63
    → 0 < w
    → kilobytes_per_worker machine (pos limit) (pos percent) (pos w)
      ≡ ok (pos (share limit percent w))
unfolding kilobytes_per_worker
kilobytes_per_worker-share machine limit percent w small h =
    rw (bytes_lem limit percent small)
      (rw (per_worker_lem (limit * percent / 100) w (omega (arith, small))) (ground (arith, h)))

-- What a request of `percent` percent is made to: the limit's share for each of the `w` workers, in
-- whole kilobytes, and one kilobyte at least.
pub adapt-share :
    (machine : Machine) (opts : StressOpts) (limit percent w : ℕ)
    → opts.vm_bytes ≡ decimal percent <> "%"
    → limit * percent < 2 ^ 63
    → percent < 2 ^ 63
    → 0 < w
    → adapt_to_mem_container_limits machine (pos limit) opts (pos w)
      ≡ ok (record opts { vm_bytes = decimal (share limit percent w) <> "K" })
unfolding adapt_to_mem_container_limits
adapt-share machine opts limit percent w e small p h =
    let read : sscanf_percent opts.vm_bytes ≡ some (pos percent) =
      ap sscanf_percent e ∙ sscanf_percent-decimal percent p in
    rw
      (
        read,
        adapt_to_mem_container_limits,
        kilobytes_per_worker-share machine limit percent w small h,
      )
      refl

floor_le : (b w : ℕ) → 0 < w → w * (b / w) ≤ b
floor_le b w h = grind arith

whole_kilobytes : (n : ℕ) → n / 1024 * 1024 ≤ n
whole_kilobytes n = omega arith

scaled : (w x y : ℕ) → x ≤ y → w * x ≤ w * y
scaled w x y h = grind arith

shared_le : (b w : ℕ) → 0 < w → w * (b / w / 1024 * 1024) ≤ b
shared_le b w h =
    let less = scaled w (b / w / 1024 * 1024) (b / w) (whole_kilobytes (b / w)) in
    omega (arith, less, floor_le b w h)

room_for_one : (b w : ℕ) → 0 < w → 1024 * w ≤ b → 1 ≤ b / w / 1024
room_for_one b w h room = grind arith

share_le :
    (limit percent w : ℕ)
    → 0 < w
    → 1024 * w ≤ limit * percent / 100
    → w * (share limit percent w * 1024) ≤ limit * percent / 100
share_le limit percent w h room =
    let b = limit * percent / 100 in
    let k = b / w / 1024 in
    let whole : share limit percent w ≡ k = ground (arith, room_for_one b w h room) in
    rw whole (shared_le b w h)

scaled_percent : (limit percent : ℕ) → percent ≤ 100 → limit * percent ≤ limit * 100
scaled_percent limit percent p = grind arith

floor_gt : (b w : ℕ) → 0 < w → b < w * (b / w + 1)
floor_gt b w h = grind arith

share_gt :
    (limit percent w : ℕ)
    → 0 < w
    → 1024 * w ≤ limit * percent / 100
    → limit * percent / 100 < w * ((share limit percent w + 1) * 1024)
share_gt limit percent w h room =
    let b = limit * percent / 100 in
    let k = b / w / 1024 in
    let whole : share limit percent w ≡ k = ground (arith, room_for_one b w h room) in
    let next : b / w + 1 ≤ (k + 1) * 1024 = omega arith in
    rw whole (omega (arith, floor_gt b w h, scaled w (b / w + 1) ((k + 1) * 1024) next))

-- The kilobytes that each worker is given: all workers together stay within that percentage of the
-- limit, and within the limit, and one kilobyte more for each of them would go beyond the percentage.
-- The percentage of the limit has a kilobyte for each worker at least, and does not wrap around.
pub share_bounds :
    (machine : Machine) (opts : StressOpts) (limit percent w : ℕ)
    → opts.vm_bytes ≡ decimal percent <> "%"
    → limit * percent < 2 ^ 63
    → percent ≤ 100
    → 0 < w
    → 1024 * w ≤ limit * percent / 100
    → (k : ℕ) × (kilobytes_per_worker machine (pos limit) (pos percent) (pos w) ≡ ok (pos k))
      × (adapt_to_mem_container_limits machine (pos limit) opts (pos w)
          ≡ ok (record opts { vm_bytes = decimal k <> "K" }))
      × (100 * (w * (k * 1024)) ≤ limit * percent)
      × (w * (k * 1024) ≤ limit)
      × (limit * percent < 100 * (w * ((k + 1) * 1024)))
share_bounds machine opts limit percent w e small p h room =
    let within = share_le limit percent w h room in
    (
      share limit percent w,
      kilobytes_per_worker-share machine limit percent w small h,
      adapt-share machine opts limit percent w e small (omega (arith, p)) h,
      omega (arith, within),
      omega (arith, within, scaled_percent limit percent p),
      omega (arith, share_gt limit percent w h room),
    )
