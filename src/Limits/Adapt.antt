-- ===== src/Limits/Adapt.antt =====
-- The adaption of the options in extcontainer/action_stress_limit_helpers.go. A float is a quotient
-- of two ints that is rounded at once: exact as long as the dividend has at most 52 bits.
use extension_container.Common.{
  ℕ, suc, ◌+◌, ◌*◌, ◌/◌, String, ◌<>◌, Bool, not, Option, none, some, if◌then◌else◌, Result, ok,
  panic, ◌>>=◌, sscanf_percent, decimal_ℤ, decimal, LinuxProcessInfo,
}
use extension_container.Common.Int.{ℤ, pos, negsuc, neg, wrap, ◌*ℤ◌, quot, eqb_ℤ, ltb_ℤ, max_ℤ}
use extension_container.Limits.{
  FileSystem, read_cgroup_v1_cpu_limit, read_cgroup_v2_cpu_limit, read_cgroup_v1_mem_limit,
  read_cgroup_v2_mem_limit,
}

-- `stress.Opts`, the fields that the program sets.
pub record StressOpts : Type 0 where
  pub cpu_workers : Option ℤ
  pub cpu_load : ℤ
  pub hdd_workers : Option ℤ
  pub hdd_bytes : String
  pub iomix_workers : Option ℤ
  pub vm_workers : Option ℤ
  pub vm_bytes : String
  pub temp_path : String
  pub timeout : ℤ

-- `math.Round(a / b)` for ints, halves away from zero.
unfoldable pub half_up : ℕ → ℕ → ℕ
half_up a b = (2 * a + b) / (2 * b)

unfoldable pub round_div : ℤ → ℤ → ℤ
unfolding half_up
round_div (pos a) (pos b) = pos (half_up a b)
round_div (pos a) (negsuc b) = neg (half_up a (suc b))
round_div (negsuc a) (pos b) = neg (half_up (suc a) b)
round_div (negsuc a) (negsuc b) = pos (half_up (suc a) (suc b))

-- The calls that leave the program: `mathx.RoundUp(float64(n) / 1000, 0)`, `os.Open` on the cgroup
-- tree of version 1, `utils.ReadCpusAllowedCount`, the page size, and the int that the processor
-- makes of a float that is none (NaN or infinite).
pub record Machine : Type 0 where
  pub round_up_thousandths : ℤ → ℤ
  pub is_cgroup_v1 : Bool
  pub cpus_allowed_count : String → Option ℤ
  pub page_size : ℕ
  pub int_of_nan : ℤ

module _ (machine : Machine) where
  unfoldable pub adapt_to_cpu_container_limits : ℤ → StressOpts → ℤ → StressOpts
  unfolding round_div wrap quot ◌*ℤ◌
  adapt_to_cpu_container_limits limit opts cpu_workers =
      let millis = quot (wrap (limit *ℤ opts.cpu_load)) (pos 100) in
      let workers =
        if eqb_ℤ cpu_workers (pos 0) then machine.round_up_thousandths millis else cpu_workers in
      record opts {
        cpu_workers = some workers;
        cpu_load =
            if eqb_ℤ workers (pos 0)
            then machine.int_of_nan
            else quot (round_div millis workers) (pos 10);
      }

  unfoldable pub adapt_to_allowed_cpus : ℕ → StressOpts → StressOpts
  unfolding decimal
  adapt_to_allowed_cpus process_id opts =
      elim (machine.cpus_allowed_count ("/proc/" <> (decimal process_id <> "/status"))) [
        | none ↦ opts
        | some count ↦ record opts { cpu_workers = some count }
      ]

  -- The limit, the percentage and the workers; Go panics on no workers.
  unfoldable pub kilobytes_per_worker : ℤ → ℤ → ℤ → Result ℤ
  kilobytes_per_worker limit percent workers =
      let bytes = quot (wrap (limit *ℤ percent)) (pos 100) in
      if eqb_ℤ workers (pos 0)
      then panic
      else ok (max_ℤ (quot (wrap (quot bytes workers)) (pos 1024)) (pos 1))

  unfoldable pub adapt_to_mem_container_limits : ℤ → StressOpts → ℤ → Result StressOpts
  unfolding decimal_ℤ
  adapt_to_mem_container_limits limit opts vm_workers = elim (sscanf_percent opts.vm_bytes) [
    | none ↦ ok opts
    | some percent ↦ kilobytes_per_worker limit percent vm_workers >>= λ k.
        ok (record opts { vm_bytes = decimal_ℤ k <> "K" })
  ]

  pub adapt_cpu : LinuxProcessInfo → ℤ → StressOpts → Option ℤ → StressOpts
  unfolding adapt_to_cpu_container_limits adapt_to_allowed_cpus
  adapt_cpu p limit opts none = opts
  adapt_cpu p limit opts (some workers) =
      if not (ltb_ℤ limit (pos 0))
      then adapt_to_cpu_container_limits limit opts workers
      else if eqb_ℤ workers (pos 0)
      then adapt_to_allowed_cpus p.process_id opts
      else opts

  pub adapt_mem : ℤ → StressOpts → Option ℤ → Result StressOpts
  unfolding adapt_to_mem_container_limits
  adapt_mem limit opts none = ok opts
  adapt_mem limit opts (some workers) =
      if not (ltb_ℤ limit (pos 0))
      then adapt_to_mem_container_limits limit opts workers
      else ok opts

  unfoldable pub read_and_adapt_to_container_limits :
      FileSystem → LinuxProcessInfo → StressOpts → Result StressOpts
  unfolding adapt_cpu adapt_mem kilobytes_per_worker sscanf_percent read_cgroup_v1_cpu_limit
      read_cgroup_v2_cpu_limit read_cgroup_v1_mem_limit read_cgroup_v2_mem_limit
  read_and_adapt_to_container_limits fs p opts = do
    cpu_limit ←
        if machine.is_cgroup_v1
        then read_cgroup_v1_cpu_limit p.cgroup_path fs
        else read_cgroup_v2_cpu_limit p.cgroup_path fs
    mem_limit ←
        if machine.is_cgroup_v1
        then read_cgroup_v1_mem_limit machine.page_size p.cgroup_path fs
        else read_cgroup_v2_mem_limit p.cgroup_path fs
    adapt_mem mem_limit (adapt_cpu p cpu_limit opts opts.cpu_workers) opts.vm_workers
