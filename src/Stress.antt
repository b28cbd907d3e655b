-- ===== src/Stress.antt =====
-- extcontainer/action_stress.go: `stressAction`. The library stress is called: what its calls answer
-- is an argument of each step.
pub mod Options
pub mod Prepare
pub mod Endings
pub mod Kept
use extension_container.Common.{
  String, ◌<>◌, Bool, true, false, Option, none, some, List, [], ◌∷◌, if◌then◌else◌, Result, ok,
  err, panic, ◌>>=◌, context, wrap, pid, LinuxProcessInfo,
}
use extension_container.Common.Int.{ℤ}
use extension_container.Common.Dicts.{Dict, lookup, insert, erase}
use extension_container.ActionKit.{StatusResult, Messages, info_message}
use extension_container.Targets.{OciRuntime, get_process_info_for_container, remove_prefix}
use extension_container.Network.{SidecarOpts}
use extension_container.Limits.Adapt.{StressOpts}
use extension_container.Processes.{
  Outcome, starts, stops, idle, Exited, ProcessError, not_completed, failed_status, is_error,
}

pub record StressActionState : Type 0 where
  pub sidecar : SidecarOpts
  pub container_id : String
  pub target_label : String
  pub stress_opts : StressOpts
  pub execution_id : String
  pub ignore_exit_codes : List ℤ

-- `NewStressRunc`, `Start` and `Exited` of the library, and `Args` of the options.
pub record Stress (P : Type 0) : Type 0 where
  pub new_stress_runc : SidecarOpts → StressOpts → Result P
  pub run : P → Result (Unit {0})
  pub exited : P → Exited
  pub arguments : StressOpts → String

module _ {P : Type 0} (stress : Stress P) where
  -- `Start`, from what the creation of the process answers on.
  unfoldable pub launched : StressActionState → Dict P → Result P → Outcome P
  unfolding insert
  launched state running (err e) = idle running (err (wrap "Failed to stess container" e))
  launched state running panic = idle running panic
  launched state running (ok s) = record {
    running = insert state.execution_id s running;
    calls = starts s ∷ [];
    result = context "Failed to stress container" (
        stress.run s >>= λ _. ok (
          info_message (
            "Starting stress container "
            <> (state.target_label <> (" with args " <> stress.arguments state.stress_opts)))
          ∷ []));
  }

  unfoldable pub start : StressActionState → Dict P → Outcome P
  unfolding launched
  start state running =
      launched state running (stress.new_stress_runc state.sidecar state.stress_opts)

  unfoldable pub stress_exited : Option P → Exited
  stress_exited none = (true, none)
  stress_exited (some s) = stress.exited s

  unfoldable pub reported : OciRuntime → StressActionState → Exited → StatusResult
  unfolding failed_status get_process_info_for_container remove_prefix
  reported runtime state (false, _) = not_completed
  reported runtime state (true, none) = record {
    completed = true;
    messages = info_message ("Stressing container " <> (state.target_label <> " stopped")) ∷ [];
    error = none;
    summary = none;
  }
  reported runtime state (true, some e) =
      failed_status "stress-ng" "Failed to stress container"
        (is_error
          (get_process_info_for_container runtime (remove_prefix state.container_id) (pid ∷ [])))
        state.ignore_exit_codes e

  unfoldable pub status : OciRuntime → StressActionState → Dict P → StatusResult
  unfolding reported stress_exited lookup
  status runtime state running =
      reported runtime state (stress_exited (lookup state.execution_id running))

-- `Stop`, from what the map of processes holds on.
unfoldable pub halted : {P : Type 0} → StressActionState → Dict P → Option P → Outcome P
unfolding erase
halted state running none = idle running (ok [])
halted state running (some s) = record {
  running = erase state.execution_id running;
  calls = stops s ∷ [];
  result = ok (info_message ("Canceled stress container " <> state.target_label) ∷ []);
}

unfoldable pub stop : {P : Type 0} → StressActionState → Dict P → Outcome P
unfolding halted lookup
stop state running = halted state running (lookup state.execution_id running)
