-- ===== src/Limits/CpuFiles.antt =====
-- The files of either cgroup version with the limit of the CPU, as the kernel writes them and
-- extcontainer/action_stress_limit_helpers.go reads them.
use extension_container.Common.{
  ℕ, ◌*◌, ◌/◌, ◌^◌, ◌<◌, String, ◌<>◌, false, Option, none, some, [], ◌∷◌, ◌≡◌, refl, ap, ◌∙◌,
  arith, ok, ◌>>=◌, fields, atoi, join, decimal,
}
use extension_container.Common.Int.{ℤ, pos, eqb_ℤ}
use extension_container.Common.Numerals.{atoi-decimal}
use extension_container.Common.Words.{Word, word, solid, fields_from-word, decimal-Word}
use extension_container.Limits.{
  FileSystem, content, no_limit, first_field, first_number, of_cpu_max, cpu_max,
  read_cgroup_v1_cpu_limit, read_cgroup_v2_cpu_limit,
}
use extension_container.Limits.Formats.{
  cpu_max_line, fields-line, content-word, per_mille_small, read_cgroup_v2_cpu_limit-line,
}

-- A line with one word.
abbrev pub line : String → String
line w = w <> "\n"

fields-word : (w : String) → Word w → fields (line w) ≡ w ∷ []
unfolding fields
fields-word w h = fields_from-word w "\n" "" h refl

pub first_field-word : (w : String) → Word w → first_field (line w) ≡ ok w
first_field-word w h = rw (first_field, fields-word w h) refl

first_number-word : (w : String) → Word w → first_number (content (some (line w))) ≡ ok (atoi w)
unfolding first_number
first_number-word w h =
    ap first_number (content-word w "\n" h)
    ∙ ap (λ r. r >>= λ f. ok (atoi f)) (first_field-word w h)

pub max_Word : Word "max"
unfolding solid
max_Word = word "m" "ax" refl

-- A number, or the word for none.
abbrev pub number_or : String → Option ℕ → String
number_or unlimited none = unlimited
number_or unlimited (some n) = decimal n

-- A quota of each period as thousandths of a CPU.
abbrev pub millis : Option ℕ → ℕ → ℤ
millis none period = no_limit
millis (some quota) period = pos (quota * 1000 / period)

abbrev pub QuotaInRange : Option ℕ → Type 0
QuotaInRange none = Unit
QuotaInRange (some quota) = quota * 1000 < 2 ^ 63

pub first_number-decimal :
    (n : ℕ) → n < 2 ^ 63 → first_number (content (some (line (decimal n)))) ≡ ok (some (pos n))
first_number-decimal n h = first_number-word (decimal n) (decimal-Word n) ∙ ap ok (atoi-decimal n h)

limited : (n : ℕ) → eqb_ℤ (pos n) no_limit ≡ false
limited n = ground arith

pub cpu_v1 :
    (path : String) (fs : FileSystem) (quota : Option ℕ) (period : ℕ)
    → fs (join "/sys/fs/cgroup/cpu,cpuacct" path "cpu.cfs_quota_us")
      ≡ some (line (number_or "-1" quota))
    → fs (join "/sys/fs/cgroup/cpu,cpuacct" path "cpu.cfs_period_us") ≡ some (line (decimal period))
    → QuotaInRange quota
    → 0 < period
    → period < 2 ^ 63
    → read_cgroup_v1_cpu_limit path fs ≡ ok (millis quota period)
unfolding read_cgroup_v1_cpu_limit
cpu_v1 path fs none period q p small h k = rw (q) refl
cpu_v1 path fs (some quota) period q p small h k =
    rw
      (
        q,
        first_number-decimal quota (omega (arith, small)),
        p,
        first_number-decimal period k,
        limited quota,
      )
      (per_mille_small quota period small h)

pub cpu_v2 :
    (path : String) (fs : FileSystem) (quota : Option ℕ) (period : ℕ)
    → fs (join "/sys/fs/cgroup" path "cpu.max")
      ≡ some (cpu_max_line (number_or "max" quota) (decimal period))
    → QuotaInRange quota
    → 0 < period
    → period < 2 ^ 63
    → read_cgroup_v2_cpu_limit path fs ≡ ok (millis quota period)
unfolding read_cgroup_v2_cpu_limit of_cpu_max cpu_max
cpu_v2 path fs none period file small h k =
    ap (λ o. of_cpu_max (content o)) file
    ∙ ap of_cpu_max (content-word "max" (" " <> (decimal period <> "\n")) max_Word)
    ∙ ap cpu_max (fields-line "max" (decimal period) max_Word (decimal-Word period))
cpu_v2 path fs (some quota) period file small h k =
    read_cgroup_v2_cpu_limit-line path fs quota period file small h k
