-- ===== src/Limits.antt =====
-- extcontainer/action_stress_limit_helpers.go: the limits of the container's cgroup, and the options
-- of a stress attack made to fit them. -1 stands for no limit that could be read. Ints have 64 bits
-- and wrap around; the files are what `readFile` answers, `none` for an error.
pub mod Adapt
pub mod Loads
pub mod Memory
pub mod Formats
pub mod CpuFiles
pub mod Written
use extension_container.Common.{
  ℕ, ◌*◌, ◌/◌, String, Bool, true, false, Option, none, some, List, [], ◌∷◌, ◌==◌, if◌then◌else◌,
  Result, ok, err, panic, ◌>>=◌, eqb, length, fields, atoi, join,
}
use extension_container.Common.Int.{ℤ, pos, negsuc, wrap, ◌*ℤ◌, quot, eqb_ℤ}

-- The interface `fileSystem`.
abbrev pub FileSystem : Type 0
FileSystem = String → Option String

-- -1.
abbrev pub no_limit : ℤ
no_limit = negsuc 0

-- `fields(...)[0]`; Go panics where there is no field.
abbrev pub first_field : String → Result String
first_field raw = elim (fields raw) [ [] ↦ panic | f ∷ _ ↦ ok f ]

-- `err != nil || len(raw) == 0`.
abbrev pub content : Option String → Option String
content none = none
content (some raw) = if raw == "" then none else some raw

-- `a * 1000 / b` on ints; Go panics on the divisor zero.
unfoldable pub per_mille : ℤ → ℤ → Result ℤ
unfolding wrap ◌*ℤ◌ quot
per_mille a b = if eqb_ℤ b (pos 0) then panic else ok (wrap (quot (wrap (a *ℤ pos 1000)) b))

-- The number in the first field of a file, `none` where the file or the number cannot be read.
unfoldable pub first_number : Option String → Result (Option ℤ)
unfolding fields atoi
first_number none = ok none
first_number (some raw) = first_field raw >>= λ f. ok (atoi f)

period_limit : ℤ → Option ℤ → Result ℤ
unfolding per_mille
period_limit quota none = ok no_limit
period_limit quota (some period) = per_mille quota period

quota_limit : Option String → Option ℤ → Result ℤ
unfolding period_limit first_number
quota_limit period none = ok no_limit
quota_limit period (some quota) =
    if eqb_ℤ quota no_limit
    then ok no_limit
    else (first_number (content period) >>= period_limit quota)

unfoldable pub read_cgroup_v1_cpu_limit : String → FileSystem → Result ℤ
unfolding quota_limit join
read_cgroup_v1_cpu_limit cgroup_path fs =
    first_number (content (fs (join "/sys/fs/cgroup/cpu,cpuacct" cgroup_path "cpu.cfs_quota_us")))
    >>= quota_limit (fs (join "/sys/fs/cgroup/cpu,cpuacct" cgroup_path "cpu.cfs_period_us"))

unfoldable pub ratio : Option ℤ → Option ℤ → Result ℤ
unfolding per_mille
ratio none period = ok no_limit
ratio (some quota) none = ok no_limit
ratio (some quota) (some period) = per_mille quota period

-- The fields of `cpu.max`, which must be two.
unfoldable pub cpu_max : List String → Result ℤ
unfolding ratio atoi
cpu_max (quota ∷ period ∷ []) =
    if quota == "max" then ok no_limit else ratio (atoi quota) (atoi period)
cpu_max _ = ok no_limit

unfoldable pub of_cpu_max : Option String → Result ℤ
unfolding cpu_max fields
of_cpu_max none = ok no_limit
of_cpu_max (some raw) = cpu_max (fields raw)

unfoldable pub read_cgroup_v2_cpu_limit : String → FileSystem → Result ℤ
unfolding of_cpu_max join
read_cgroup_v2_cpu_limit cgroup_path fs =
    of_cpu_max (content (fs (join "/sys/fs/cgroup" cgroup_path "cpu.max")))

v1_limit : ℤ → Option ℤ → ℤ
v1_limit unlimited none = no_limit
v1_limit unlimited (some n) = if eqb_ℤ n unlimited then no_limit else n

-- `(math.MaxInt64 / os.Getpagesize()) * os.Getpagesize()`.
unfoldable pub cgroup_v1_mem_unlimited : ℕ → ℤ
cgroup_v1_mem_unlimited page_size = pos (9223372036854775807 / page_size * page_size)

unfoldable pub read_cgroup_v1_mem_limit : ℕ → String → FileSystem → Result ℤ
unfolding v1_limit first_number join cgroup_v1_mem_unlimited
read_cgroup_v1_mem_limit page_size cgroup_path fs =
    first_number (content (fs (join "/sys/fs/cgroup/memory" cgroup_path "memory.limit_in_bytes")))
    >>= λ n. ok (v1_limit (cgroup_v1_mem_unlimited page_size) n)

or_no_limit : Option ℤ → ℤ
or_no_limit none = no_limit
or_no_limit (some n) = n

of_memory_max : Option String → Result ℤ
unfolding or_no_limit fields atoi
of_memory_max none = ok no_limit
of_memory_max (some raw) =
    first_field raw >>= λ f. ok (if f == "max" then no_limit else or_no_limit (atoi f))

unfoldable pub read_cgroup_v2_mem_limit : String → FileSystem → Result ℤ
unfolding of_memory_max join
read_cgroup_v2_mem_limit cgroup_path fs =
    of_memory_max (content (fs (join "/sys/fs/cgroup" cgroup_path "memory.max")))
