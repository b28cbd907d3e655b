-- ===== src/Describe/Fitting.antt =====
-- Requests whose values are of the kinds that the descriptions declare, for the attacks on resources:
-- the stress attacks and the fill attacks.
pub mod Taken
use mathlib.Core.List.{Memᴰ}
use mathlib.Core.List.Memᴰ.{head, tail}
use extension_container.Common.{
  String, Bool, true, false, Option, none, some, List, [], ◌∷◌, map, ◌≡◌, refl, sym, ap, subst, ◌∙◌,
  ◌==◌, arith, eq_iff, eq_refl, if◌then◌else◌, Result, ok, err, panic, ◌>>=◌, Bool-cases, inl, inr,
}
use extension_container.Common.Int.{ℤ}
use extension_container.Common.Dicts.{Dict, lookup}
use extension_container.ActionKit.{Request, Values}
use extension_container.Limits.Adapt.{StressOpts}
use extension_container.Stress.Options.{stress_cpu, stress_memory, stress_io}
use extension_container.FillMemory.{MemfillOpts}
use extension_container.FillMemory.Prepare.{fill_memory_opts}
use extension_container.FillDisk.{
  DiskfillOpts, Mode, Method, percentage, mb_to_fill, mb_left, over_time, at_once,
}
use extension_container.FillDisk.Options.{Names, fill_disk_opts, parse_mode, parse_method, is_text}
use extension_container.Describe.{
  ActionParameter, ParameterKind, ParameterOption, integer, string, percentage as percentage_kind,
  duration, boolean, string_array, stressng_workers, bitrate,
}
use extension_container.Describe.Stress.{
  stress_cpu_parameters, stress_memory_parameters, stress_io_parameters,
}
use extension_container.Describe.Fill.{MemfillNames, fill_memory_parameters, fill_disk_parameters}

abbrev pub Succeeds {ℓ} : {A : Type ℓ} → Result A → Type 0
Succeeds (ok _) = Unit {0}
Succeeds (err _) = ⊥
Succeeds panic = ⊥

-- The attacks on resources.
pub data Resource : Type 0 where
  stresses_cpu stresses_memory stresses_io fills_memory fills_disk : Resource

unfoldable pub parameters_of : MemfillNames → Names → Resource → List ActionParameter
unfolding stress_cpu_parameters stress_memory_parameters stress_io_parameters fill_memory_parameters
    fill_disk_parameters
parameters_of mem disk stresses_cpu = stress_cpu_parameters
parameters_of mem disk stresses_memory = stress_memory_parameters
parameters_of mem disk stresses_io = stress_io_parameters
parameters_of mem disk fills_memory = fill_memory_parameters mem
parameters_of mem disk fills_disk = fill_disk_parameters disk

module _ (values : Values) where
  -- A text that a parameter with options takes is the value of one.
  abbrev pub IsOffered : List ParameterOption → String → Type 0
  IsOffered [] s = Unit {0}
  IsOffered (o ∷ os) s = Memᴰ s (map (λ (p : ParameterOption). p.value) (o ∷ os))

  -- Numbers and texts are what Go's assertions take; the other kinds are converted and not asserted.
  abbrev pub IsOfKind : List ParameterOption → ParameterKind → values.Value → Type 0
  IsOfKind options integer v = (n : ℤ) × (values.assert_float_as_int (some v) ≡ some n)
  IsOfKind options percentage_kind v = (n : ℤ) × (values.assert_float_as_int (some v) ≡ some n)
  IsOfKind options string v =
      (s : String) × (values.assert_string (some v) ≡ some s) × IsOffered options s
  IsOfKind options duration v = Unit {0}
  IsOfKind options boolean v = Unit {0}
  IsOfKind options string_array v = Unit {0}
  IsOfKind options stressng_workers v = Unit {0}
  IsOfKind options bitrate v = Unit {0}

  abbrev pub IsGiven :
      List ParameterOption → ParameterKind → Option Bool → Option values.Value → Type 0
  IsGiven options kind (some true) (some v) = IsOfKind options kind v
  IsGiven options kind (some true) none = ⊥
  IsGiven options kind (some false) o = Unit {0}
  IsGiven options kind none o = Unit {0}

  -- Each required parameter has a value of its kind.
  abbrev pub Fits : List ActionParameter → Dict values.Value → Type 0
  Fits [] config = Unit {0}
  Fits (p ∷ ps) config = IsGiven p.options p.kind p.required (lookup p.name config) × Fits ps config

  -- What the assertions of the options take.
  abbrev pub AssertsNumber : Option values.Value → Type 0
  AssertsNumber o = (n : ℤ) × (values.assert_float_as_int o ≡ some n)

  abbrev pub AssertsText : List ParameterOption → Option values.Value → Type 0
  AssertsText options o = (s : String) × (values.assert_string o ≡ some s) × IsOffered options s

  pub integer_given :
      (options : List ParameterOption) (o : Option values.Value)
      → IsGiven options integer (some true) o
      → AssertsNumber o
  integer_given options none h = elim h [ ]
  integer_given options (some v) h = h

  pub percentage_given :
      (options : List ParameterOption) (o : Option values.Value)
      → IsGiven options percentage_kind (some true) o
      → AssertsNumber o
  percentage_given options none h = elim h [ ]
  percentage_given options (some v) h = h

  pub text_given :
      (options : List ParameterOption) (o : Option values.Value)
      → IsGiven options string (some true) o
      → AssertsText options o
  text_given options none h = elim h [ ]
  text_given options (some v) h = h

  unfoldable pub Accepts : MemfillNames → Names → Resource → Request values.Value → Type 0
  unfolding stress_cpu stress_memory stress_io fill_memory_opts fill_disk_opts
  Accepts mem disk stresses_cpu request = Succeeds (stress_cpu values request)
  Accepts mem disk stresses_memory request = Succeeds (stress_memory values request)
  Accepts mem disk stresses_io request = Succeeds (stress_io values request)
  Accepts mem disk fills_memory request = Succeeds (fill_memory_opts values request)
  Accepts mem disk fills_disk request = Succeeds (fill_disk_opts disk values request)
