-- ===== src/FillMemory.antt =====
-- extcontainer/action_fill_mem.go: `fillMemoryAction`. The library memfill is called: what its calls
-- answer is an argument of each step.
pub mod Prepare
pub mod Endings
pub mod Kept
use extension_container.Common.{
  String, ◌<>◌, Bool, true, false, Option, none, some, List, [], ◌∷◌, if◌then◌else◌, Result, ok,
  err, panic, ◌>>=◌, context, wrap, pid, LinuxProcessInfo,
}
use extension_container.Common.Int.{ℤ}
use extension_container.Common.Dicts.{Dict, lookup, insert, erase}
use extension_container.ActionKit.{StatusResult, Messages, info_message}
use extension_container.Targets.{OciRuntime, get_process_info_for_container, remove_prefix}
use extension_container.Processes.{
  Outcome, starts, stops, idle, Exited, ProcessError, not_completed, failed_status, is_error,
}

-- `memfill.Opts`.
pub record MemfillOpts : Type 0 where
  pub size : ℤ
  pub mode : String
  pub unit : String
  pub duration : ℤ

pub record FillMemoryActionState : Type 0 where
  pub execution_id : String
  pub container_id : String
  pub target_label : String
  pub target_process : LinuxProcessInfo
  pub fill_memory_opts : MemfillOpts
  pub ignore_exit_codes : List ℤ

-- `NewMemfillProcess`, and `Start`, `Args`, `Exited` and `Stop` of the library's process.
pub record Memfill (P : Type 0) : Type 0 where
  pub new_memfill_process : LinuxProcessInfo → MemfillOpts → Result P
  pub run : P → Result (Unit {0})
  pub arguments : P → String
  pub exited : P → Exited
  pub halt : P → Result (Unit {0})

module _ {P : Type 0} (memfill : Memfill P) where
  -- `Start`, from what the creation of the process answers on.
  unfoldable pub launched : FillMemoryActionState → Dict P → Result P → Outcome P
  unfolding insert
  launched state running (err e) = idle running (err (wrap "Failed to fill memory in container" e))
  launched state running panic = idle running panic
  launched state running (ok m) = record {
    running = insert state.execution_id m running;
    calls = starts m ∷ [];
    result = context "Failed to fill memory in container" (
        memfill.run m >>= λ _. ok (
          info_message (
            "Starting fill memory in container "
            <> (state.target_label <> (" with args " <> memfill.arguments m)))
          ∷ []));
  }

  unfoldable pub start : FillMemoryActionState → Dict P → Outcome P
  unfolding launched
  start state running =
      launched state running
        (memfill.new_memfill_process state.target_process state.fill_memory_opts)

  unfoldable pub fill_memory_exited : Option P → Exited
  fill_memory_exited none = (true, none)
  fill_memory_exited (some m) = memfill.exited m

  unfoldable pub reported : OciRuntime → FillMemoryActionState → Exited → StatusResult
  unfolding failed_status get_process_info_for_container remove_prefix
  reported runtime state (false, _) = not_completed
  reported runtime state (true, none) = record {
    completed = true;
    messages =
        info_message ("fill memory for container " <> (state.target_label <> " stopped")) ∷ [];
    error = none;
    summary = none;
  }
  reported runtime state (true, some e) =
      failed_status "memfill" "Failed to fill memory for container"
        (is_error
          (get_process_info_for_container runtime (remove_prefix state.container_id) (pid ∷ [])))
        state.ignore_exit_codes e

  unfoldable pub status : OciRuntime → FillMemoryActionState → Dict P → StatusResult
  unfolding reported fill_memory_exited lookup
  status runtime state running =
      reported runtime state (fill_memory_exited (lookup state.execution_id running))

  -- An error of the process's `Stop` shows in the missing message only.
  stop_result : FillMemoryActionState → Result (Unit {0}) → Result Messages
  stop_result state (ok _) =
      ok (info_message ("Canceled fill memory in container " <> state.target_label) ∷ [])
  stop_result state (err _) = ok []
  stop_result state panic = panic

  -- `Stop`, from what the map of processes holds on.
  unfoldable pub halted : FillMemoryActionState → Dict P → Option P → Outcome P
  unfolding erase stop_result
  halted state running none = idle running (ok [])
  halted state running (some m) = record {
    running = erase state.execution_id running;
    calls = stops m ∷ [];
    result = stop_result state (memfill.halt m);
  }

  unfoldable pub stop : FillMemoryActionState → Dict P → Outcome P
  unfolding halted lookup
  stop state running = halted state running (lookup state.execution_id running)
