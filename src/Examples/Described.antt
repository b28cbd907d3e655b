-- ===== src/Examples/Described.antt =====
-- Runs of the options against the descriptions of the actions.
use mathlib.Core.List.Memᴰ.{head, tail}
use extension_container.Common.{ℕ, ok, String, true, none, [], ◌∷◌, refl}
use extension_container.Common.Int.{pos}
use extension_container.Common.Dicts.{Dict, lookup}
use extension_container.ActionKit.{Request}
use extension_container.Faults.Kinds.{delays, description}
use extension_container.FillDisk.Prepare as FillDiskPrepare
use extension_container.Describe.Reads.{network_attack, ReadsSame, declared_only, parameters_of}
use extension_container.Describe.Surroundings.{Surroundings}
use extension_container.Examples.Resources.{machine}
use extension_container.FillDisk.{Mode, Method, percentage, mb_to_fill, mb_left, over_time, at_once}
use extension_container.FillDisk.Options.{Names}
use extension_container.Describe.Declared.{with_config}
use extension_container.Describe.Fill.{MemfillNames}
use extension_container.Describe.Fitting.{fills_disk, Accepts, parameters_of as resource_parameters}
use extension_container.Describe.Fitting.Taken.{fitting_accepted}
use extension_container.Examples.Data.{
  Given, flag, number, text, values, request_of, cfg, info, runtime, nf, answers,
}
use extension_container.Examples.Requests.{lib, runner, delay_request}

-- A key that the description of the delay does not name.
abbrev more : Dict Given
more =
    ("workers", number (pos 4))
    ∷ (("networkDelay", number (pos 500)) ∷ (("networkDelayJitter", flag true) ∷ []))

abbrev mode_name : Mode → String
mode_name percentage = "PERCENTAGE"
mode_name mb_to_fill = "MB_TO_FILL"
mode_name mb_left = "MB_LEFT"

abbrev method_name : Method → String
method_name over_time = "OVER_TIME"
method_name at_once = "AT_ONCE"

abbrev pub disk_names : Names
disk_names = record { of_mode = mode_name; of_method = method_name }

abbrev pub mem_names : MemfillNames
mem_names = record {
  mode_usage = "usage";
  mode_absolute = "absolute";
  unit_megabyte = "megabyte";
  unit_percent = "percent";
}

abbrev writable : FillDiskPrepare.WritableCheck
writable _ _ = none

abbrev surroundings : Surroundings values
surroundings = record {
  cfg = cfg;
  info = info;
  runtime = runtime;
  lib = lib;
  runner = λ _. runner;
  nf = nf;
  answers = answers;
  opts = λ _. "delay";
  machine = machine;
  fs = λ _. none;
  mem = mem_names;
  disk = disk_names;
  check_path_writable = writable;
  Handle = ℕ;
  new_process = λ _ _ _. ok 1;
}

declared_only_example :
    ReadsSame values surroundings
      (network_attack delays)
      (with_config delay_request more)
      delay_request
unfolding parameters_of description lookup
declared_only_example =
    declared_only values surroundings delay_request more (network_attack delays)
      (refl, (refl, (refl, (refl, (refl, (refl, (refl, (refl, (refl, (refl, (refl, tt))))))))))) tt

abbrev disk_request : Request Given
disk_request = request_of (
    ("duration", number (pos 30000))
    ∷ (("mode", text "MB_LEFT")
        ∷ (("size", number (pos 100))
            ∷ (("path", text "/tmp")
                ∷ (("method", text "AT_ONCE") ∷ (("blocksize", number (pos 5)) ∷ []))))))

fitting_accepted_example : Accepts values mem_names disk_names fills_disk disk_request
unfolding resource_parameters lookup
fitting_accepted_example = fitting_accepted values mem_names disk_names fills_disk disk_request (
  tt,
  (
    ("MB_LEFT", refl, tail (tail (head refl))),
    (
      (pos 100, refl),
      (("/tmp", refl, tt), (("AT_ONCE", refl, head refl), ((pos 5, refl), (tt, tt)))),
    ),
  ),
)
