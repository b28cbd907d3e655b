-- ===== src/Engines/Containerd/Tasks.antt =====
-- What extcontainer/container/containerd/client.go does to the task of a container: its process, the
-- pause and its end, and the stop.
use extension_container.Common.{
  String, ◌<>◌, Bool, Option, none, some, List, [], ◌∷◌, ◌++◌, if◌then◌else◌, Result, ok, err,
  panic, ◌>>=◌, context, Error, wrap, contains_text,
}
use extension_container.Common.Int.{ℤ}
use extension_container.Engines.Containerd.{Api, Task, Signal, sigterm, sigkill}

unfoldable pub get_pid : Api → String → Result ℤ
get_pid api id = do
  container ← context "failed to load container" (api.load_container id)
  task ← context "failed to load task for container" container
  ok task.pid

-- The error where a container has no task, for what was to be done with it.
unfoldable pub task_error : Api → String → String → Error → Error
unfolding contains_text
task_error api verb id e =
    if contains_text "no running task found" (api.text e)
    then wrap ("couldn't " <> (verb <> (" container as container " <> (id <> " wasn't running")))) e
    else wrap ("failed to load task for container " <> id) e

unfoldable pub loaded_task : Api → String → String → Result Task → Result Task
unfolding task_error
loaded_task api verb id (ok task) = ok task
loaded_task api verb id (err e) = err (task_error api verb id e)
loaded_task api verb id panic = panic

-- The first half of `Pause`, `Unpause` and `Stop`.
unfoldable pub load_task : Api → String → String → Result Task
unfolding loaded_task
load_task api verb id =
    context ("failed to load container " <> id) (api.load_container id) >>= λ container.
    loaded_task api verb id container

unfoldable pub pause : Api → String → Result (Unit {0})
unfolding load_task
pause api id = load_task api "pause" id >>= λ task. task.pause

unfoldable pub unpause : Api → String → Result (Unit {0})
unfolding load_task
unpause api id = load_task api "unpause" id >>= λ task. task.resume

-- The signals that a stop sends, and what it returns.
pub record Stopped : Type 0 where
  pub signals : List Signal
  pub result : Result (Unit {0})

-- The end of `Stop`, after the signals sent so far.
unfoldable pub kill : String → Task → List Signal → Stopped
kill id task sent = record {
  signals = sent ++ sigkill ∷ [];
  result = context ("failed to kill container " <> id) (task.kill sigkill);
}

-- What the select receives: an exit, with or without an error, or the end of the grace period.
unfoldable pub grace : String → Task → Result (Option (Option Error)) → Stopped
unfolding kill
grace id task (ok (some none)) = record { signals = sigterm ∷ []; result = ok tt }
grace id task (ok (some (some e))) = record {
  signals = sigterm ∷ [];
  result = err (wrap ("failed to stop container " <> (id <> " during grace period ")) e);
}
grace id task (ok none) = kill id task (sigterm ∷ [])
grace id task (err e) = record {
  signals = sigterm ∷ [];
  result = err (wrap ("failed to wait for container stop " <> id) e);
}
grace id task panic = record { signals = sigterm ∷ []; result = panic }

unfoldable pub terminated : String → Task → Result (Unit {0}) → Stopped
unfolding grace
terminated id task (ok _) = grace id task task.wait
terminated id task (err e) = record {
  signals = sigterm ∷ [];
  result = err (wrap ("failed to stop container " <> id) e);
}
terminated id task panic = record { signals = sigterm ∷ []; result = panic }

unfoldable pub stop_task : String → Bool → Task → Stopped
unfolding terminated kill
stop_task id graceful task =
    if graceful then terminated id task (task.kill sigterm) else kill id task []

unfoldable pub stop_loaded : String → Bool → Result Task → Stopped
unfolding stop_task
stop_loaded id graceful (ok task) = stop_task id graceful task
stop_loaded id graceful (err e) = record { signals = []; result = err e }
stop_loaded id graceful panic = record { signals = []; result = panic }

unfoldable pub stop : Api → String → Bool → Stopped
unfolding stop_loaded load_task
stop api id graceful = stop_loaded id graceful (load_task api "stop" id)
