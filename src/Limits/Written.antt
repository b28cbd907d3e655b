-- ===== src/Limits/Written.antt =====
-- The limits of a cgroup in the files of either version, as the kernel writes them, and what
-- `readAndAdaptToContainerLimits` of extcontainer/action_stress_limit_helpers.go makes of them.
use extension_container.Common.{
  ℕ, ◌*◌, ◌/◌, ◌^◌, ◌<◌, String, true, false, Option, none, some, ◌≡◌, refl, arith, ok, join,
  decimal, LinuxProcessInfo,
}
use extension_container.Common.Int.{ℤ, pos, eqb_ℤ}
use extension_container.Common.Numerals.{atoi-decimal}
use extension_container.Common.Words.{decimal-Word}
use extension_container.Limits.{
  FileSystem, no_limit, read_cgroup_v1_mem_limit, read_cgroup_v2_mem_limit, cgroup_v1_mem_unlimited,
}
use extension_container.Limits.Adapt.{
  Machine, StressOpts, adapt_cpu, adapt_mem, read_and_adapt_to_container_limits,
}
use extension_container.Limits.Formats.{cpu_max_line, content-word, not_max}
use extension_container.Limits.CpuFiles.{
  line, first_field-word, number_or, millis, QuotaInRange, first_number-decimal, cpu_v1, cpu_v2,
}

-- The limits that a cgroup has: a quota of each period and a number of bytes, or none.
pub record CgroupLimits : Type 0 where
  pub quota : Option ℕ
  pub period : ℕ
  pub memory : Option ℕ

-- A number of bytes.
abbrev pub bytes : Option ℕ → ℤ
bytes none = no_limit
bytes (some n) = pos n

-- A limit in the first version that is not the number for none, within the range of an int.
abbrev pub MemoryInRange : ℤ → Option ℕ → Type 0
MemoryInRange unlimited none = Unit
MemoryInRange unlimited (some n) = (n < 2 ^ 63) × (eqb_ℤ (pos n) unlimited ≡ false)

eqb_ℤ_refl : (n : ℕ) → eqb_ℤ (pos n) (pos n) ≡ true
eqb_ℤ_refl n = ground arith

-- The kernel's number for no limit in the first version.
abbrev pub page_limit : ℕ → ℕ
page_limit page_size = 9223372036854775807 / page_size * page_size

page_limit_small : (page_size : ℕ) → page_limit page_size < 2 ^ 63
page_limit_small page_size = grind arith

mem_v1 :
    (page_size : ℕ) (path : String) (fs : FileSystem) (memory : Option ℕ)
    → fs (join "/sys/fs/cgroup/memory" path "memory.limit_in_bytes")
      ≡ some (line (number_or (decimal (page_limit page_size)) memory))
    → MemoryInRange (cgroup_v1_mem_unlimited page_size) memory
    → read_cgroup_v1_mem_limit page_size path fs ≡ ok (bytes memory)
unfolding read_cgroup_v1_mem_limit cgroup_v1_mem_unlimited
mem_v1 page_size path fs none file h =
    rw
      (
        file,
        first_number-decimal (page_limit page_size) (page_limit_small page_size),
        eqb_ℤ_refl (page_limit page_size),
      )
      refl
mem_v1 page_size path fs (some n) file h = rw (file, first_number-decimal n h.0, h.1) refl

mem_v2 :
    (path : String) (fs : FileSystem) (memory : Option ℕ)
    → fs (join "/sys/fs/cgroup" path "memory.max") ≡ some (line (number_or "max" memory))
    → MemoryInRange no_limit memory
    → read_cgroup_v2_mem_limit path fs ≡ ok (bytes memory)
unfolding read_cgroup_v2_mem_limit
mem_v2 path fs none file h = rw (file) refl
mem_v2 path fs (some n) file h =
    rw
      (
        file,
        content-word (decimal n) "\n" (decimal-Word n),
        first_field-word (decimal n) (decimal-Word n),
        not_max n h.0,
        atoi-decimal n h.0,
      )
      refl

module _ (machine : Machine) (path : String) (fs : FileSystem) (limits : CgroupLimits) where
  -- The files of the version that the machine has hold the limits, within the range of an int.
  pub data Holds : Type 0 where
    v1 :
        machine.is_cgroup_v1 ≡ true
        → fs (join "/sys/fs/cgroup/cpu,cpuacct" path "cpu.cfs_quota_us")
          ≡ some (line (number_or "-1" limits.quota))
        → fs (join "/sys/fs/cgroup/cpu,cpuacct" path "cpu.cfs_period_us")
          ≡ some (line (decimal limits.period))
        → fs (join "/sys/fs/cgroup/memory" path "memory.limit_in_bytes")
          ≡ some (line (number_or (decimal (page_limit machine.page_size)) limits.memory))
        → MemoryInRange (cgroup_v1_mem_unlimited machine.page_size) limits.memory
        → Holds
    v2 :
        machine.is_cgroup_v1 ≡ false
        → fs (join "/sys/fs/cgroup" path "cpu.max")
          ≡ some (cpu_max_line (number_or "max" limits.quota) (decimal limits.period))
        → fs (join "/sys/fs/cgroup" path "memory.max") ≡ some (line (number_or "max" limits.memory))
        → MemoryInRange no_limit limits.memory
        → Holds

-- The options are adapted to the limits that the kernel has written, in either version of its files:
-- to the quota's share of the period in thousandths of a CPU and to the bytes of memory, or to -1 where
-- there is no limit. The numbers are within the range of an int, the quota with a thousandfold, and a
-- limit of memory in the first version is not the number that stands for none.
pub limits_taken :
    (machine : Machine) (fs : FileSystem) (p : LinuxProcessInfo) (opts : StressOpts)
    (limits : CgroupLimits)
    → Holds machine p.cgroup_path fs limits
    → QuotaInRange limits.quota
    → 0 < limits.period
    → limits.period < 2 ^ 63
    → read_and_adapt_to_container_limits machine fs p opts
      ≡ adapt_mem machine
          (bytes limits.memory)
          (adapt_cpu machine p (millis limits.quota limits.period) opts opts.cpu_workers)
          opts.vm_workers
unfolding read_and_adapt_to_container_limits
limits_taken machine fs p opts limits (v1 one q t m ok_mem) small h k =
    rw
      (
        one,
        cpu_v1 p.cgroup_path fs limits.quota limits.period q t small h k,
        mem_v1 machine.page_size p.cgroup_path fs limits.memory m ok_mem,
      )
      refl
limits_taken machine fs p opts limits (v2 two c m ok_mem) small h k =
    rw
      (
        two,
        cpu_v2 p.cgroup_path fs limits.quota limits.period c small h k,
        mem_v2 p.cgroup_path fs limits.memory m ok_mem,
      )
      refl
