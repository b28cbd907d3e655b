-- ===== src/Describe/Fitting/Taken.antt =====
-- What the options of the attacks on resources take.
use mathlib.Core.List.{Memᴰ}
use mathlib.Core.List.Memᴰ.{head, tail}
use extension_container.Common.{
  String, Bool, true, false, some, List, [], ◌∷◌, ◌≡◌, ◌==◌, eq_iff, if◌then◌else◌, failure, ◌<>◌,
  Result, ok, err, panic, ◌>>=◌,
}
use extension_container.Common.Dicts.{lookup}
use extension_container.ActionKit.{Request, Values}
use extension_container.Stress.Options.{stress_cpu, stress_memory, stress_io}
use extension_container.FillMemory.Prepare.{fill_memory_opts}
use extension_container.FillDisk.{percentage, mb_to_fill, mb_left, over_time, at_once}
use extension_container.FillDisk.Options.{Names, fill_disk_opts, parse_mode, parse_method}
use extension_container.Describe.{ParameterOption}
use extension_container.Describe.Fill.{MemfillNames}
use extension_container.Describe.Fitting.{
  Succeeds, Resource, stresses_cpu, stresses_memory, stresses_io, fills_memory, fills_disk,
  parameters_of, AssertsNumber, AssertsText, Fits, Accepts, integer_given, percentage_given,
  text_given,
}

-- One case of a switch on a text, whose last case succeeds.
other_case :
    {A : Type 0} (b : Bool) (a : A) (rest : Result A)
    → Succeeds rest
    → Succeeds (if b then ok a else rest)
other_case true a rest h = tt
other_case false a rest h = h

this_case :
    {A : Type 0} (b : Bool) (a : A) (rest : Result A)
    → b ≡ true
    → Succeeds (if b then ok a else rest)
this_case b a rest h = rw (h) tt

mode_offered :
    (names : Names) (s shown : String)
    → Memᴰ s (names.of_mode percentage ∷ names.of_mode mb_to_fill ∷ names.of_mode mb_left ∷ [])
    → Succeeds (parse_mode names (some s) shown)
unfolding parse_mode
mode_offered names s shown (head e) = this_case _ percentage _ ((eq_iff s _).1 e)
mode_offered names s shown (tail (head e)) =
    other_case _ percentage _ (this_case _ mb_to_fill _ ((eq_iff s _).1 e))
mode_offered names s shown (tail (tail (head e))) =
    let last =
      if s == names.of_mode mb_left then ok mb_left else err (failure ("invalid mode " <> shown)) in
    let others = if s == names.of_mode mb_to_fill then ok mb_to_fill else last in
    other_case (s == names.of_mode percentage) percentage others (
      other_case (s == names.of_mode mb_to_fill) mb_to_fill last
        (this_case (s == names.of_mode mb_left) mb_left _ ((eq_iff s _).1 e)))
mode_offered names s shown (tail (tail (tail m))) = elim m [ ]

method_offered :
    (names : Names) (s shown : String)
    → Memᴰ s (names.of_method at_once ∷ names.of_method over_time ∷ [])
    → Succeeds (parse_method names (some s) shown)
unfolding parse_method
method_offered names s shown (head e) =
    other_case _ over_time _ (this_case _ at_once _ ((eq_iff s _).1 e))
method_offered names s shown (tail (head e)) = this_case _ over_time _ ((eq_iff s _).1 e)
method_offered names s shown (tail (tail m)) = elim m [ ]

>>=-Succeeds :
    {A B : Type 0} (r : Result A) (next : A → Result B)
    → Succeeds r
    → ((a : A) → Succeeds (next a))
    → Succeeds (r >>= next)
>>=-Succeeds (ok a) next h k = k a
>>=-Succeeds (err e) next h k = elim h [ ]
>>=-Succeeds panic next h k = elim h [ ]

-- The options of the parameters with options.
abbrev option : String → String → ParameterOption
option label value = record { label = label; value = value }

abbrev modes : MemfillNames → List ParameterOption
modes mem =
    option "Fill and meet specified usage" mem.mode_usage
    ∷ option "Fill the specified amount" mem.mode_absolute
    ∷ []

abbrev units : MemfillNames → List ParameterOption
units mem = option "Megabytes" mem.unit_megabyte ∷ option "% of total memory" mem.unit_percent ∷ []

abbrev disk_modes : Names → List ParameterOption
disk_modes disk =
    option "Fill up to specified usage (in %)" (disk.of_mode percentage)
    ∷ option "Megabytes to write" (disk.of_mode mb_to_fill)
    ∷ option "Megabytes to leave free on disk" (disk.of_mode mb_left)
    ∷ []

abbrev disk_methods : Names → List ParameterOption
disk_methods disk =
    option "At once (fallocate)" (disk.of_method at_once)
    ∷ option "Over time (dd)" (disk.of_method over_time)
    ∷ []

module _ (values : Values) where
  memory-Succeeds :
      (request : Request values.Value)
      → AssertsNumber values (lookup "percentage" request.config)
      → Succeeds (stress_memory values request)
  unfolding stress_memory
  memory-Succeeds request (n, e) = rw (stress_memory, e) tt

  fill_memory-Succeeds :
      (request : Request values.Value) (modes units : List ParameterOption)
      → AssertsText values modes (lookup "mode" request.config)
      → AssertsText values units (lookup "unit" request.config)
      → Succeeds (fill_memory_opts values request)
  unfolding fill_memory_opts
  fill_memory-Succeeds request modes units (mode, e, _) (unit, e', _) =
      rw (fill_memory_opts, e, e') tt

  fill_disk-Succeeds :
      (names : Names) (request : Request values.Value) (mode method : String)
      → AssertsNumber values (lookup "blocksize" request.config)
      → AssertsNumber values (lookup "size" request.config)
      → values.assert_string (lookup "mode" request.config) ≡ some mode
      → values.assert_string (lookup "method" request.config) ≡ some method
      → Memᴰ mode (names.of_mode percentage ∷ names.of_mode mb_to_fill ∷ names.of_mode mb_left ∷ [])
      → Memᴰ method (names.of_method at_once ∷ names.of_method over_time ∷ [])
      → Succeeds (fill_disk_opts names values request)
  unfolding fill_disk_opts
  fill_disk-Succeeds names request mode method (b, eb) (n, en) em ed m d =
      rw (fill_disk_opts, eb, en, em, ed)
        (>>=-Succeeds (parse_mode names (some mode) _) _ (mode_offered names mode _ m) (λ chosen.
          >>=-Succeeds (parse_method names (some method) _) _ (method_offered names method _ d)
            (λ _. tt)))

  -- A request that fits its description, in that each required parameter has a value of the declared
  -- kind, one of the options where it has options, gives options: no assertion on a value panics, and
  -- no mode or method is refused.
  pub fitting_accepted :
      (mem : MemfillNames) (disk : Names) (kind : Resource) (request : Request values.Value)
      → Fits values (parameters_of mem disk kind) request.config
      → Accepts values mem disk kind request
  unfolding parameters_of Accepts stress_cpu stress_io
  fitting_accepted mem disk stresses_cpu request fits = tt
  fitting_accepted mem disk stresses_memory request (p, _) =
      memory-Succeeds request (percentage_given values [] _ p)
  fitting_accepted mem disk stresses_io request fits = tt
  fitting_accepted mem disk fills_memory request (_, (mode, (_, (unit, _)))) =
      fill_memory-Succeeds request (modes mem) (units mem) (text_given values (modes mem) _ mode)
        (text_given values (units mem) _ unit)
  fitting_accepted mem disk fills_disk request (_, (mode, (size, (_, (method, (block, _)))))) =
      let (m, em, offered) = text_given values (disk_modes disk) _ mode in
      let (d, ed, offered_method) = text_given values (disk_methods disk) _ method in
      fill_disk-Succeeds disk request m d (integer_given values [] _ block)
        (integer_given values [] _ size) em ed offered offered_method
