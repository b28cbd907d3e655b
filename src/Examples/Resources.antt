-- ===== src/Examples/Resources.antt =====
-- Runs of extcontainer/action_stress_limit_helpers.go.
use extension_container.Common.{
  LinuxProcessInfo, ◌<◌, true, ℕ, ◌+◌, ◌*◌, ◌/◌, ◌≤◌, ◌<>◌, false, none, some, ◌≡◌, refl, arith, ok,
  decimal, ◌==◌, if◌then◌else◌, join,
}
use extension_container.Common.Int.{ℤ, pos}
use extension_container.Limits.{FileSystem, no_limit}
use extension_container.Limits.Adapt.{
  Machine, StressOpts, adapt_cpu, adapt_mem, read_and_adapt_to_container_limits,
  adapt_to_cpu_container_limits, adapt_to_mem_container_limits, kilobytes_per_worker,
}
use extension_container.Limits.Loads.{RoundsUp, Meets, requested, adapt-Meets, adapt_no_share}
use extension_container.Limits.Memory.{share, adapt-share, share_bounds}
use extension_container.Limits.Written.{CgroupLimits, Holds, limits_taken}
use extension_container.Limits.Written.Holds.{v1}
use extension_container.Examples.Data.{process}
use extension_container.Stress.Options.{empty_opts}

abbrev rounded_up : ℤ → ℤ
rounded_up (pos n) = pos ((n + 999) / 1000)
rounded_up n = n

abbrev pub machine : Machine
machine = record {
  round_up_thousandths = rounded_up;
  is_cgroup_v1 = false;
  cpus_allowed_count = λ _. some (pos 4);
  page_size = 4096;
  int_of_nan = pos 0;
}

machine-RoundsUp : RoundsUp machine
machine-RoundsUp n = ((n + 999) / 1000, refl, omega arith, omega arith)

abbrev pub cpu_opts : ℕ → StressOpts
cpu_opts load = record empty_opts { cpu_workers = some (pos 0); cpu_load = pos load }

adapt-Meets_example :
    let adapted = adapt_to_cpu_container_limits machine (pos 2500) (cpu_opts 80) (pos 0) in
    (w c : ℕ) × (adapted.cpu_workers ≡ some (pos w))
    × (adapted.cpu_load ≡ pos c)
    × Meets (requested 2500 80) w c
adapt-Meets_example =
    adapt-Meets machine (cpu_opts 80) 2500 80 machine-RoundsUp refl (omega arith) (omega arith)

adapt_no_share_example :
    let adapted = adapt_to_cpu_container_limits machine (pos 10) (cpu_opts 5) (pos 0) in
    (adapted.cpu_workers ≡ some (pos 0)) × (adapted.cpu_load ≡ machine.int_of_nan)
adapt_no_share_example =
    adapt_no_share machine (cpu_opts 5) 10 5 machine-RoundsUp refl (omega arith)

abbrev mem_opts : StressOpts
mem_opts = record empty_opts { vm_workers = some (pos 2); vm_bytes = "50%" }

adapt-share_example :
    adapt_to_mem_container_limits machine (pos 1048576) mem_opts (pos 2)
    ≡ ok (record mem_opts { vm_bytes = decimal (share 1048576 50 2) <> "K" })
unfolding decimal
adapt-share_example =
    adapt-share machine mem_opts 1048576 50 2 refl (omega arith) (omega arith) (omega arith)

share_bounds_example :
    (k : ℕ) × (kilobytes_per_worker machine (pos 1048576) (pos 50) (pos 2) ≡ ok (pos k))
    × (adapt_to_mem_container_limits machine (pos 1048576) mem_opts (pos 2)
        ≡ ok (record mem_opts { vm_bytes = decimal k <> "K" }))
    × (100 * (2 * (k * 1024)) ≤ 1048576 * 50)
    × (2 * (k * 1024) ≤ 1048576)
    × (1048576 * 50 < 100 * (2 * ((k + 1) * 1024)))
unfolding decimal
share_bounds_example =
    share_bounds machine mem_opts 1048576 50 2 refl (omega arith) (omega arith) (omega arith)
      (omega arith)

-- A cgroup of the first version with a quota and without a limit of memory.
abbrev files : FileSystem
files path =
    if path == "/sys/fs/cgroup/cpu,cpuacct/app/cpu.cfs_quota_us"
    then some "250000\n"
    else if path == "/sys/fs/cgroup/cpu,cpuacct/app/cpu.cfs_period_us"
    then some "100000\n"
    else if path == "/sys/fs/cgroup/memory/app/memory.limit_in_bytes"
    then some "9223372036854771712\n"
    else none

abbrev app_limits : CgroupLimits
app_limits = record { quota = some 250000; period = 100000; memory = none }

abbrev v1_machine : Machine
v1_machine = record machine { is_cgroup_v1 = true }

abbrev app_process : LinuxProcessInfo
app_process = record process { cgroup_path = "/app" }

app_files : Holds v1_machine "/app" files app_limits
unfolding decimal join
app_files = v1 refl refl refl refl tt

limits_taken_example :
    read_and_adapt_to_container_limits v1_machine files app_process (cpu_opts 80)
    ≡ adapt_mem v1_machine no_limit
        (adapt_cpu v1_machine app_process
          (pos (250000 * 1000 / 100000))
          (cpu_opts 80)
          (some (pos 0)))
        none
limits_taken_example =
    limits_taken v1_machine files app_process (cpu_opts 80) app_limits app_files (omega arith)
      (omega arith) (omega arith)
