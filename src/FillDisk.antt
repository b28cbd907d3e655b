-- ===== src/FillDisk.antt =====
-- extcontainer/action_fill_disk.go: `fillDiskAction`. The library diskfill is called: what its calls
-- answer is an argument of each step.
pub mod Options
pub mod Prepare
pub mod Endings
pub mod Kept
use extension_container.Common.{
  String, ◌<>◌, Bool, true, false, Option, none, some, List, [], ◌∷◌, if◌then◌else◌, Result, ok,
  err, panic, ◌>>=◌, context, failure, wrap, pid,
}
use extension_container.Common.Int.{ℤ}
use extension_container.Common.Dicts.{Dict, lookup, insert, erase}
use extension_container.ActionKit.{StatusResult, Messages, Message, info_message}
use extension_container.Targets.{OciRuntime, get_process_info_for_container, remove_prefix}
use extension_container.Network.{SidecarOpts}
use extension_container.Processes.{
  Outcome, starts, stops, idle, Exited, ProcessError, not_completed, failed_status, is_error,
}

pub data Mode : Type 0 where
  percentage mb_to_fill mb_left : Mode

pub data Method : Type 0 where
  over_time at_once : Method

-- `diskfill.Opts`.
pub record DiskfillOpts : Type 0 where
  pub temp_path : String
  pub block_size : ℤ
  pub size : ℤ
  pub mode : Mode
  pub method : Method

pub record FillDiskActionState : Type 0 where
  pub execution_id : String
  pub container_id : String
  pub target_label : String
  pub sidecar : SidecarOpts
  pub fill_disk_opts : DiskfillOpts
  pub ignore_exit_codes : List ℤ

-- `NewDiskfillRunc`, and `Start`, `Args`, `Noop`, `Exited` and `Stop` of the library's process.
pub record Diskfill (P : Type 0) : Type 0 where
  pub new_diskfill_runc : SidecarOpts → DiskfillOpts → Result P
  pub run : P → Result (Unit {0})
  pub arguments : P → String
  pub noop : P → Bool
  pub exited : P → Exited
  pub halt : P → Result (Unit {0})

abbrev noop_message : Message
noop_message =
    info_message
      "Noop mode is enabled. No disk will be filled, because the disk is already filled enough."

module _ {P : Type 0} (diskfill : Diskfill P) where
  start_messages : FillDiskActionState → P → Messages
  start_messages state d =
      info_message (
        "Starting fill disk in container "
        <> (state.target_label <> (" with args " <> diskfill.arguments d)))
      ∷ (if diskfill.noop d then noop_message ∷ [] else [])

  -- `Start`, from what the creation of the process answers on.
  unfoldable pub launched : FillDiskActionState → Dict P → Result P → Outcome P
  unfolding insert start_messages
  launched state running (err e) = idle running (err (wrap "Failed to fill disk in container" e))
  launched state running panic = idle running panic
  launched state running (ok d) = record {
    running = insert state.execution_id d running;
    calls = starts d ∷ [];
    result =
        context "Failed to fill disk in container"
          (diskfill.run d >>= λ _. ok (start_messages state d));
  }

  unfoldable pub start : FillDiskActionState → Dict P → Outcome P
  unfolding launched
  start state running =
      launched state running (diskfill.new_diskfill_runc state.sidecar state.fill_disk_opts)

  unfoldable pub fill_disk_container_exited : Option P → Exited
  fill_disk_container_exited none = (true, none)
  fill_disk_container_exited (some d) = diskfill.exited d

  unfoldable pub reported : OciRuntime → FillDiskActionState → Option ProcessError → StatusResult
  unfolding failed_status get_process_info_for_container remove_prefix
  reported runtime state none = not_completed
  reported runtime state (some e) =
      failed_status "fill disk" "Failed to fill disk on container"
        (is_error
          (get_process_info_for_container runtime (remove_prefix state.container_id) (pid ∷ [])))
        state.ignore_exit_codes e

  -- Whether the process has exited is not looked at, only its error.
  unfoldable pub status : OciRuntime → FillDiskActionState → Dict P → StatusResult
  unfolding reported fill_disk_container_exited lookup
  status runtime state running =
      reported runtime state (fill_disk_container_exited (lookup state.execution_id running)).1

  -- `Stop`, from what the map of processes holds on.
  unfoldable pub halted : FillDiskActionState → Dict P → Option P → Outcome P
  unfolding erase
  halted state running none =
      idle running
        (err (wrap "Failed to stop fill disk on container" (failure "no diskfill container found")))
  halted state running (some d) = record {
    running = erase state.execution_id running;
    calls = stops d ∷ [];
    result =
        context "Failed to stop fill disk on container"
          (diskfill.halt d >>= λ _. ok (info_message "Canceled fill disk on container" ∷ []));
  }

  unfoldable pub stop : FillDiskActionState → Dict P → Outcome P
  unfolding halted lookup
  stop state running = halted state running (lookup state.execution_id running)
