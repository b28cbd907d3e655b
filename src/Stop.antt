-- ===== src/Stop.antt =====
-- extcontainer/action_stop.go: `stopAction`. The client's `Stop` runs in a goroutine, which offers its
-- answer on a channel and then closes it; a completer is that channel.
pub mod Prepare
pub mod Told
pub mod Ending
use extension_container.Common.{
  String, ◌<>◌, Bool, true, false, Option, none, some, List, [], ◌∷◌, if◌then◌else◌, Result, ok,
  err, Error, wrap,
}
use extension_container.Common.Dicts.{Dict, lookup, insert, erase}
use extension_container.ActionKit.{StatusResult, Messages, Message, error, info_message}
use extension_container.Targets.{remove_prefix}

-- The goroutine waits for the client, waits for a receiver of the client's answer, has handed it
-- over, or has closed the channel.
pub data Channel : Type 0 where
  calling : Channel
  offering : Option Error → Channel
  delivered : Channel
  closed : Channel

pub record StopActionState : Type 0 where
  pub container_id : String
  pub target_label : String
  pub graceful : Bool
  pub execution_id : String

-- The calls of the client's `Stop`, and of its context's cancellation.
pub data Call : Type 0 where
  stops : String → Bool → Call
  cancels : String → Call

pub record Outcome : Type 0 where
  pub completers : Dict Channel
  pub calls : List Call
  pub result : Result Messages

-- What a receiver that does not wait gets, with the channel after it; a closed channel gives nil.
unfoldable pub receive : Channel → Option (Option Error × Channel)
receive calling = none
receive (offering answer) = some (answer, delivered)
receive delivered = none
receive closed = some (none, closed)

-- `stopContainer`. `received` is what it receives within one second.
unfoldable pub stop_container :
    String → Option (Option Error) → Dict Channel → Dict Channel × Option Error
unfolding insert
stop_container execution_id none completers = (insert execution_id calling completers, none)
stop_container execution_id (some answer) completers =
    (insert execution_id delivered completers, answer)

unfoldable pub completed_of :
    String → Dict Channel → Option (Option Error × Channel) → Dict Channel × (Bool × Option Error)
unfolding erase
completed_of execution_id completers none = (completers, (false, none))
completed_of execution_id completers (some (answer, _)) =
    (erase execution_id completers, (true, answer))

unfoldable pub polled :
    String → Dict Channel → Option Channel → Dict Channel × (Bool × Option Error)
unfolding completed_of receive
polled execution_id completers none = (completers, (true, none))
polled execution_id completers (some channel) =
    completed_of execution_id completers (receive channel)

unfoldable pub is_stop_container_completed :
    String → Dict Channel → Dict Channel × (Bool × Option Error)
unfolding polled lookup
is_stop_container_completed execution_id completers =
    polled execution_id completers (lookup execution_id completers)

-- A receiver that waits: the channel after it, once the client's `Stop` has returned.
unfoldable pub drained : Channel → Channel
drained calling = delivered
drained (offering answer) = delivered
drained delivered = closed
drained closed = closed

unfoldable pub canceled : String → Dict Channel → Option Channel → Dict Channel × Bool
unfolding insert drained
canceled execution_id completers none = (completers, false)
canceled execution_id completers (some channel) =
    (insert execution_id (drained channel) completers, true)

-- `cancelStopContainer`. The channel is shared with the map, where it stays.
unfoldable pub cancel_stop_container : String → Dict Channel → Dict Channel × Bool
unfolding lookup canceled
cancel_stop_container execution_id completers =
    canceled execution_id completers (lookup execution_id completers)

-- The verb %t of `fmt`.
abbrev truth : Bool → String
truth true = "true"
truth false = "false"

start_result : StopActionState → Option Error → Result Messages
start_result state (some e) = err (wrap "Failed to stop container" e)
start_result state none = ok (
    info_message (
      "Stopping container "
      <> (state.target_label <> (" (graceful=" <> (truth state.graceful <> ")"))))
    ∷ [])

unfoldable pub start : Option (Option Error) → StopActionState → Dict Channel → Outcome
unfolding stop_container start_result remove_prefix
start received state completers =
    let (completers', problem) = stop_container state.execution_id received completers in
    record {
      completers = completers';
      calls = stops (remove_prefix state.container_id) state.graceful ∷ [];
      result = start_result state problem;
    }

-- `text` is the error's `Error()`.
status_messages : (Error → String) → StopActionState → Bool × Option Error → Messages
status_messages text state (completed, some e) =
    record {
      level = error;
      message = "Failed to stop container " <> (state.target_label <> (": " <> text e));
    }
    ∷ []
status_messages text state (true, none) =
    info_message ("Container " <> (state.target_label <> " stopped")) ∷ []
status_messages text state (false, none) = []

unfoldable pub status :
    (Error → String) → StopActionState → Dict Channel → Dict Channel × StatusResult
unfolding is_stop_container_completed status_messages
status text state completers =
    let (completers', told) = is_stop_container_completed state.execution_id completers in
    (
      completers',
      record {
        completed = told.0;
        messages = status_messages text state told;
        error = none;
        summary = none;
      },
    )

unfoldable pub stop : StopActionState → Dict Channel → Outcome
unfolding cancel_stop_container
stop state completers =
    let (completers', stopped) = cancel_stop_container state.execution_id completers in
    record {
      completers = completers';
      calls = if stopped then cancels state.execution_id ∷ [] else [];
      result = ok (
          if stopped
          then info_message ("Canceled stop container " <> state.target_label) ∷ []
          else []);
    }
