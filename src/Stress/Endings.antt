-- ===== src/Stress/Endings.antt =====
-- The `Status` of `stressAction` in extcontainer/action_stress.go.
use extension_container.Common.{Bool, true, none, [], ◌∷◌, ◌≡◌, ◌↔◌, pid, if◌then◌else◌}
use extension_container.ActionKit.{StatusResult}
use extension_container.Targets.{OciRuntime, get_process_info_for_container, remove_prefix}
use extension_container.Processes.{Exited, is_error}
use extension_container.Processes.Endings.{NoFault}
use extension_container.Stress.{StressActionState, Stress}

-- The target's process cannot be read.
abbrev pub target_gone : OciRuntime → StressActionState → Bool
target_gone runtime s =
    is_error (get_process_info_for_container runtime (remove_prefix s.container_id) (pid ∷ []))

-- What a status says of what the process answered.
abbrev pub Decided : OciRuntime → StressActionState → Exited → StatusResult → Type 0
Decided runtime s x result =
    ((result.completed ≡ true) ↔ (x.0 ≡ true))
    × ((result.error ≡ none)
        ↔ NoFault (target_gone runtime s) s.ignore_exit_codes (if x.0 then x.1 else none))
