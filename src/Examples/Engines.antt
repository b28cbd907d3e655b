-- ===== src/Examples/Engines.antt =====
-- Runs of the clients of the container engines.
use extension_container.Common.{
  ℕ, true, false, none, some, [], ◌∷◌, ◌==◌, ◌≡◌, refl, ◌⊎◌, cut, strip_prefix, if◌then◌else◌, ok,
  err, failure, eqb,
}
use extension_container.Common.Int.{pos}
use extension_container.Engines.Containerd.{
  Api, ApiContainer, Received, received, ended, running, stopped, status, Task, list_rounds,
  new_container,
}
use extension_container.Engines.Containerd.Tasks.{load_task, stop}
use extension_container.Engines.Containerd.Stopping.{ExitedInGrace, Killed}
use extension_container.Targets.{remove_prefix}
use extension_container.Common.Dicts.{lookup, insert}
use extension_container.Stop.{
  StopActionState, stop_container, is_stop_container_completed, offering,
}
use extension_container.Stop as Stop
use extension_container.Stop.Told.{Reached, returns}
use extension_container.Stop.Told.Reached.{too_late, goes}
use extension_container.Stop.Ending.{Answers, succeeds, completed_ended}

-- A container that runs and one that has stopped.
abbrev web : ApiContainer
web = record { id = "web"; image = "web:1"; labels = [] }

abbrev job : ApiContainer
job = record { id = "job"; image = "job:1"; labels = [] }

abbrev stream : ℕ → Received
stream n = if eqb n 0 then received job else if eqb n 1 then received web else ended

-- A task that ignores the signal to terminate.
abbrev stubborn : Task
stubborn = record { pid = pos 12; pause = ok tt; resume = ok tt; kill = λ _. ok tt; wait = ok none }

abbrev api : Api
api = record {
  list_stream = ok stream;
  task_status = λ _ id. status (if id == "web" then running else stopped);
  done = λ _. none;
  get_container = λ _. err (failure "not found");
  load_container = λ _. ok (ok stubborn);
  get_version = ok "2.0";
  close = ok tt;
  target = "/run/containerd/containerd.sock";
  is_unimplemented = λ _. false;
  is_not_found = λ _. false;
  to_native = λ e. e;
  text = λ _. "";
}

listed : list_rounds api 3 ≡ some (ok (new_container web ∷ []))
unfolding list_rounds
listed = refl

-- The stop action waits for containerd, and `Status` then receives its answer.
abbrev stop_state : StopActionState
stop_state = record {
  container_id = "containerd://web";
  target_label = "web";
  graceful = true;
  execution_id = "e";
}

accepted :
    Answers (stop api (remove_prefix stop_state.container_id) stop_state.graceful).result none
unfolding stop remove_prefix strip_prefix cut
accepted = succeeds

late : Reached "e" none (("e", offering none) ∷ []) [] []
unfolding stop_container lookup insert
late = goes (too_late []) refl returns

finished : (is_stop_container_completed "e" (("e", offering none) ∷ [])).1 ≡ (true, none)
unfolding is_stop_container_completed lookup
finished = refl

completed_ended_example :
    let id = remove_prefix stop_state.container_id in
    (task : Task) × (load_task api "stop" id ≡ ok task)
    × (ExitedInGrace true task (stop api id true).signals
        ⊎ Killed true task (stop api id true).signals)
unfolding Stop.status is_stop_container_completed lookup
completed_ended_example = completed_ended api (λ _. "") stop_state none accepted late refl refl
