-- ===== src/Limits/Formats.antt =====
-- The files of the kernel that extcontainer/action_stress_limit_helpers.go reads, as the kernel
-- writes them.
use text.Mathlib.TextLemmas.{cons-append, nil-append}
use extension_container.Common.{
  ℕ, ◌*◌, ◌/◌, ◌^◌, ◌<◌, String, ◌<>◌, false, none, some, [], ◌∷◌, ◌==◌, ◌≡◌, ◌≢◌, refl, sym, ap,
  ◌∙◌, arith, ok, fields, fields_from, atoi, join, decimal, ==-false,
}
use extension_container.Common.Int.{pos, ◌*ℤ◌, quot, wrap_small}
use extension_container.Common.Numerals.{atoi-decimal}
use extension_container.Common.Words.{Word, word, fields_from-word, decimal-Word}
use extension_container.Limits.{
  FileSystem, content, per_mille, ratio, cpu_max, of_cpu_max, read_cgroup_v2_cpu_limit,
}

-- A line of `cpu.max`.
abbrev pub cpu_max_line : String → String → String
cpu_max_line quota period = quota <> (" " <> (period <> "\n"))

space : (s : String) → " " <> s ≡ String.◌∷◌ " " s
space s = cons-append " " "" s ∙ ap (String.◌∷◌ " ") (nil-append s)

pub fields-line :
    (quota period : String)
    → Word quota
    → Word period
    → fields (cpu_max_line quota period) ≡ quota ∷ period ∷ []
unfolding fields
fields-line quota period q p =
    ap (λ s. fields_from false (quota <> s)) (space (period <> "\n"))
    ∙ fields_from-word quota " " (period <> "\n") q refl
    ∙ ap (λ fs. quota ∷ fs) (fields_from-word period "\n" "" p refl)

Word-ne : (w s : String) → Word w → w <> s ≢ ""
Word-ne w s (word c t h) e = absurd (cc (sym (cons-append c t s) ∙ e))

pub content-word : (w s : String) → Word w → content (some (w <> s)) ≡ some (w <> s)
content-word w s h = rw (==-false (w <> s) "" (Word-ne w s h)) refl

pub not_max : (n : ℕ) → n < 2 ^ 63 → (decimal n == "max") ≡ false
unfolding atoi
not_max n h =
    ==-false (decimal n) "max"
      (λ e. let read : none ≡ some (pos n) = sym (ap atoi e) ∙ atoi-decimal n h in absurd (cc read))

pub per_mille_small :
    (quota period : ℕ)
    → quota * 1000 < 2 ^ 63
    → 0 < period
    → per_mille (pos quota) (pos period) ≡ ok (pos (quota * 1000 / period))
unfolding per_mille ◌*ℤ◌ quot
per_mille_small quota period small h =
    let bound : quota * 1000 / period < 2 ^ 63 = grind (arith, small, h) in
    rw (wrap_small (quota * 1000) small, wrap_small (quota * 1000 / period) bound)
      (ground (arith, h))

-- The limit that is read from a line with a quota and a period is the quota's share of the period
-- in thousandths of a CPU, for any quota and period within the range of an int.
pub read_cgroup_v2_cpu_limit-line :
    (path : String) (fs : FileSystem) (quota period : ℕ)
    → fs (join "/sys/fs/cgroup" path "cpu.max")
      ≡ some (cpu_max_line (decimal quota) (decimal period))
    → quota * 1000 < 2 ^ 63
    → 0 < period
    → period < 2 ^ 63
    → read_cgroup_v2_cpu_limit path fs ≡ ok (pos (quota * 1000 / period))
unfolding read_cgroup_v2_cpu_limit of_cpu_max cpu_max ratio
read_cgroup_v2_cpu_limit-line path fs quota period file small h p =
    let line = cpu_max_line (decimal quota) (decimal period) in
    ap (λ o. of_cpu_max (content o)) file
    ∙ ap of_cpu_max
        (content-word (decimal quota) (" " <> (decimal period <> "\n")) (decimal-Word quota))
    ∙ ap cpu_max
        (fields-line (decimal quota) (decimal period) (decimal-Word quota) (decimal-Word period))
    ∙ rw
        (
          not_max quota (omega (arith, small)),
          atoi-decimal quota (omega (arith, small)),
          atoi-decimal period p,
        )
        (per_mille_small quota period small h)
