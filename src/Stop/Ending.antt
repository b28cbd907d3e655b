-- ===== src/Stop/Ending.antt =====
-- extcontainer/action_stop.go over the client of extcontainer/container/containerd/client.go: what has
-- become of the container when the action says that it has stopped.
use extension_container.Common.{
  String, true, Option, none, some, List, [], ◌∷◌, ◌++◌, ◌≡◌, refl, sym, ◌∙◌, ◌⊎◌, Result, ok, err,
  Error,
}
use extension_container.Common.Dicts.{Dict}
use extension_container.Targets.{remove_prefix}
use extension_container.Engines.Containerd.{Api, Task}
use extension_container.Engines.Containerd.Tasks.{load_task, stop}
use extension_container.Engines.Containerd.Stopping.{ExitedInGrace, Killed, stop_ends}
use extension_container.Stop.{Channel, StopActionState, is_stop_container_completed, status}
use extension_container.Stop.Told.{Reached, errors, errors_of, told_once}

-- What the goroutine offers for what the client's `Stop` has returned, which is a nil error or another.
pub data Answers : Result (Unit {0}) → Option Error → Type 0 where
  succeeds : Answers (ok tt) none
  fails : (e : Error) → Answers (err e) (some e)

Answers-ok :
    {r : Result (Unit {0})} {answer : Option Error}
    → Answers r answer
    → errors_of answer ≡ []
    → r ≡ ok tt
Answers-ok succeeds h = refl
Answers-ok (fails e) h = absurd (cc h)

-- When `Status` says that the stop is completed, and no error has been told by `Start` and `Status` or
-- dropped by `Stop` of the action, in whatever order they and the goroutine went, then containerd has
-- ended the container that the action was prepared for: a graceful stop has either seen it exit after
-- the signal to terminate, or has killed it after that; another has sent the signal to kill.
pub completed_ended :
    (api : Api) (text : Error → String) (state : StopActionState) (answer : Option Error)
    → Answers (stop api (remove_prefix state.container_id) state.graceful).result answer
    → {m : Dict Channel} {told gone : List (Option Error)}
    → Reached state.execution_id answer m told gone
    → (status text state m).1.completed ≡ true
    → errors ((is_stop_container_completed state.execution_id m).1.1 ∷ told) ++ errors gone ≡ []
    → let id = remove_prefix state.container_id in
      (task : Task) × (load_task api "stop" id ≡ ok task)
      × (ExitedInGrace state.graceful task (stop api id state.graceful).signals
          ⊎ Killed state.graceful task (stop api id state.graceful).signals)
unfolding status
completed_ended api text state answer a h completed quiet =
    stop_ends api (remove_prefix state.container_id) state.graceful
      (Answers-ok a (sym (told_once state.execution_id answer h completed) ∙ quiet))
