-- ===== src/Pause.antt =====
-- extcontainer/action_pause.go: `pauseAction`, over the client as it answers at the time of a step.
pub mod Balance
use extension_container.Common.{
  String, ◌<>◌, Bool, true, false, Option, none, some, List, [], ◌∷◌, Result, ok, err, panic, ◌>>=◌,
  context, attempt,
}
use extension_container.Common.Int.{ℤ}
use extension_container.Engines.{Client}
use extension_container.ActionKit.{StatusResult, Messages, Message, warn, info_message, Request}
use extension_container.Config.{Specification}
use extension_container.Targets.{Container, get_container_target, remove_prefix}

pub record PauseActionState : Type 0 where
  pub container_id : String
  pub target_label : String

pub data Call : Type 0 where
  pauses : String → Call
  unpauses : String → Call

pub record Outcome : Type 0 where
  pub calls : List Call
  pub result : Result Messages

not_running_message : PauseActionState → Message
not_running_message state = record {
  level = warn;
  message = "Container " <> (state.target_label <> " is not running anymore");
}

unfoldable pub prepare :
    {V : Type 0}
    → Specification
    → (String → Result Container)
    → PauseActionState
    → Request V
    → PauseActionState × Result (Unit {0})
unfolding get_container_target
prepare cfg info state request =
    attempt
      (context "Failed to get target container"
        (get_container_target cfg info request.target_attributes))
      state
      (λ target. (record state { container_id = target.0.id; target_label = target.1 }, ok tt))

module _ (client : Client) where
  unfoldable pub start : PauseActionState → Outcome
  unfolding remove_prefix
  start state =
      let id = remove_prefix state.container_id in
      record {
        calls = pauses id ∷ [];
        result = context "Failed to pause container" (client.pause id) >>= λ _.
            ok (info_message ("Pausing container " <> state.target_label) ∷ []);
      }

  -- From what `GetPid` answers on.
  unfoldable pub status_of : PauseActionState → Result ℤ → Result StatusResult
  unfolding not_running_message
  status_of state (ok _) =
      ok (record { completed = false; messages = []; error = none; summary = none })
  status_of state (err _) = ok (record {
    completed = true;
    messages = not_running_message state ∷ [];
    error = none;
    summary = none;
  })
  status_of state panic = panic

  unfoldable pub status : PauseActionState → Result StatusResult
  unfolding status_of remove_prefix
  status state = status_of state (client.get_pid (remove_prefix state.container_id))

  unfoldable pub stop_of : PauseActionState → Result ℤ → Outcome
  unfolding not_running_message remove_prefix
  stop_of state (ok _) =
      let id = remove_prefix state.container_id in
      record {
        calls = unpauses id ∷ [];
        result = context "Failed to unpause container" (client.unpause id) >>= λ _.
            ok (info_message ("Unpaused container " <> state.target_label) ∷ []);
      }
  stop_of state (err _) = record { calls = []; result = ok (not_running_message state ∷ []) }
  stop_of state panic = record { calls = []; result = panic }

  unfoldable pub stop : PauseActionState → Outcome
  unfolding stop_of remove_prefix
  stop state = stop_of state (client.get_pid (remove_prefix state.container_id))
