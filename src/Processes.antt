-- ===== src/Processes.antt =====
-- What extcontainer/action_stress.go, action_fill_mem.go and action_fill_disk.go share: a map from
-- executions to the processes that were created for them, and the reading of a process's end.
pub mod Endings
pub mod Kept
use extension_container.Common.{
  ℕ, String, ◌<>◌, Bool, true, false, Option, none, some, List, [], ◌∷◌, ◌==◌, if◌then◌else◌,
  Result, ok, err, panic, Error,
}
use extension_container.Common.Int.{ℤ, pos, negsuc, eqb_ℤ, contains}
use extension_container.Common.Dicts.{Dict}
use extension_container.ActionKit.{Messages, StatusResult, warn, errored}

-- Calls on the processes of the libraries stress, memfill and diskfill.
pub data Call (P : Type 0) : Type 0 where
  starts : P → Call P
  stops : P → Call P

pub record Outcome (P : Type 0) : Type 0 where
  pub running : Dict P
  pub calls : List (Call P)
  pub result : Result Messages

-- A step that changes nothing.
abbrev pub idle : {P : Type 0} → Dict P → Result Messages → Outcome P
idle running result = record { running = running; calls = []; result = result }

-- `exec.ExitError`; the code is -1 where the process was ended by a signal.
pub record ExitError : Type 0 where
  pub exit_code : ℤ
  pub text : String
  pub stderr : String

-- How a process failed: an error, with its text, in whose chain `errors.As` finds an `ExitError` or
-- does not.
pub data ProcessError : Type 0 where
  exit_error : String → ExitError → ProcessError
  other_error : String → ProcessError

-- `Exited` of a process: whether it has, and its error.
abbrev pub Exited : Type 0
Exited = Bool × Option ProcessError

abbrev pub not_completed : StatusResult
not_completed = record { completed = false; messages = []; error = none; summary = none }

abbrev pub error_message : String → ExitError → String
error_message text e = if e.stderr == "" then text else e.text <> ("\n" <> e.stderr)

warning_status : String → String → StatusResult
warning_status what message = record {
  completed = true;
  messages = record { level = warn; message = what <> (": " <> message) } ∷ [];
  error = none;
  summary = some what;
}

errored_status : String → String → StatusResult
errored_status title message = record {
  completed = true;
  messages = [];
  error = some (record { title = title; status = errored; detail = some message });
  summary = none;
}

-- -1.
abbrev pub by_signal : ℤ
by_signal = negsuc 0

-- The end of the `Status` of a process by the name `name` that failed. `target_gone` says that
-- `getProcessInfoForContainer` fails for the target.
unfoldable pub failed_status : String → String → Bool → List ℤ → ProcessError → StatusResult
unfolding errored_status warning_status contains
failed_status name title target_gone ignored (other_error text) = errored_status title text
failed_status name title target_gone ignored (exit_error text e) =
    let message = error_message text e in
    let otherwise =
      if contains ignored e.exit_code
      then warning_status (name <> " exited unexpectedly") message
      else errored_status title message in
    if eqb_ℤ e.exit_code by_signal
    then (if target_gone
        then warning_status (name <> " exited unexpectedly, target container stopped") message
        else otherwise)
    else otherwise

abbrev pub is_error {ℓ} : {A : Type ℓ} → Result A → Bool
is_error (ok _) = false
is_error (err _) = true
is_error panic = false

-- `if !extutil.ToBool(request.Config["failOnOomKill"]) { state.IgnoreExitCodes = []int{137} }`.
abbrev pub ignored_codes : Bool → List ℤ → List ℤ
ignored_codes fail_on_oom_kill codes = if fail_on_oom_kill then codes else pos 137 ∷ []
