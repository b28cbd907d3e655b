-- ===== src/FillDisk/Endings.antt =====
-- The `Status` of `fillDiskAction` in extcontainer/action_fill_disk.go.
use extension_container.Common.{Bool, false, Option, none, [], ◌∷◌, ◌≡◌, ◌↔◌, pid}
use extension_container.ActionKit.{StatusResult}
use extension_container.Targets.{OciRuntime, get_process_info_for_container, remove_prefix}
use extension_container.Processes.{ProcessError, is_error}
use extension_container.Processes.Endings.{NoFault}
use extension_container.FillDisk.{FillDiskActionState}

-- The target's process cannot be read.
abbrev pub target_gone : OciRuntime → FillDiskActionState → Bool
target_gone runtime s =
    is_error (get_process_info_for_container runtime (remove_prefix s.container_id) (pid ∷ []))

-- What a status says of the error that the process answered.
abbrev pub Decided : OciRuntime → FillDiskActionState → Option ProcessError → StatusResult → Type 0
Decided runtime s problem result =
    ((result.completed ≡ false) ↔ (problem ≡ none))
    × ((result.error ≡ none) ↔ NoFault (target_gone runtime s) s.ignore_exit_codes problem)
