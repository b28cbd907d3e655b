-- ===== src/Examples/Running.antt =====
-- Runs of the actions on processes, of the stop and of the pause.
use extension_container.Common.{
  ℕ, true, false, none, some, [], ◌∷◌, ◌≡◌, ◌↔◌, refl, ok, strip_prefix,
}
use extension_container.Common.Int.{pos}
use extension_container.Common.Dicts.{lookup}
use extension_container.ActionKit.{Request}
use extension_container.Targets.{has_disallowed_k8s_namespace_label}
use extension_container.Limits.{FileSystem}
use extension_container.Processes.{stops, exit_error, ExitError}
use extension_container.Processes.Kept.Others.{nothing}
use extension_container.Stress.{StressActionState, Stress}
use extension_container.Stress as Stress
use extension_container.Stress.Options.{empty_opts, stress_cpu}
use extension_container.Stress.Prepare.{prepare}
use extension_container.Stress.Prepare.Ignored.{oom_kill}
use extension_container.Stress.Kept.{stress_stops_once}
use extension_container.Stress.Endings as StressEndings
use extension_container.Examples.Data.{
  Given, flag, number, values, cfg, info, runtime, sidecar, request_of,
}
use extension_container.Examples.Resources.{machine}

abbrev killed : ExitError
killed = record { exit_code = pos 137; text = "exit status 137"; stderr = "" }

-- Processes are numbers; each was killed.
abbrev stress : Stress ℕ
stress = record {
  new_stress_runc = λ _ _. ok 1;
  run = λ _. ok tt;
  exited = λ _. (true, some (exit_error "exit status 137" killed));
  arguments = λ _. "--cpu 1";
}

abbrev stress_state : StressActionState
stress_state = record {
  sidecar = sidecar;
  container_id = "containerd://0123456789";
  target_label = "app";
  stress_opts = empty_opts;
  execution_id = "e";
  ignore_exit_codes = [];
}

stress_stops_once_example :
    ((Stress.stop stress_state (Stress.start stress stress_state []).running).calls ≡ stops 1 ∷ [])
    × ((Stress.stop stress_state
          (Stress.stop stress_state (Stress.start stress stress_state []).running).running).calls
        ≡ [])
unfolding Stress.start
stress_stops_once_example =
    stress_stops_once stress stress stress stress_state [] 1 refl nothing nothing

abbrev no_files : FileSystem
no_files _ = none

abbrev stress_request : Request Given
stress_request = request_of (("cpuLoad", number (pos 80)) ∷ ("failOnOomKill", flag true) ∷ [])

prepared :
    let result =
      prepare cfg values machine no_files info runtime
        (stress_cpu values)
        stress_state
        stress_request in
    result ≡ (result.0, ok tt)
unfolding prepare strip_prefix has_disallowed_k8s_namespace_label stress_cpu
prepared = refl

oom_kill_example :
    let s =
      (prepare cfg values machine no_files info runtime
        (stress_cpu values)
        stress_state
        stress_request).0 in
    ((Stress.status stress runtime s ((stress_request.execution_id, 1) ∷ [])).completed ≡ true)
    × (((Stress.status stress runtime s ((stress_request.execution_id, 1) ∷ [])).error ≡ none)
        ↔ (values.to_bool (lookup "failOnOomKill" stress_request.config) ≡ false))
unfolding lookup
oom_kill_example =
    oom_kill cfg values machine no_files info runtime (stress_cpu values) stress stress_state
      stress_request ((stress_request.execution_id, 1) ∷ []) 1 "exit status 137" killed refl
      prepared refl refl refl
