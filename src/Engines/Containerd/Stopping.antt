-- ===== src/Engines/Containerd/Stopping.antt =====
-- How `Stop` in extcontainer/container/containerd/client.go ends a container.
use extension_container.Common.{
  String, Bool, true, false, Option, none, some, List, [], ◌∷◌, ◌≡◌, refl, ◌⊎◌, inl, inr, Result,
  ok, err, panic, context-eq-ok, Error,
}
use extension_container.Engines.Containerd.{Api, Task, Signal, sigterm, sigkill}
use extension_container.Engines.Containerd.Tasks.{
  kill, grace, terminated, stop_task, stop_loaded, load_task, stop,
}

-- The container has taken the signal to terminate and has exited without an error in the grace period.
abbrev pub ExitedInGrace : Bool → Task → List Signal → Type 0
ExitedInGrace graceful task signals =
    (graceful ≡ true)
    × (signals ≡ sigterm ∷ [])
    × (task.kill sigterm ≡ ok tt)
    × (task.wait ≡ ok (some none))

-- The container has been killed: at once, or because it has not exited in the grace period.
abbrev pub Killed : Bool → Task → List Signal → Type 0
Killed graceful task signals =
    (task.kill sigkill ≡ ok tt)
    × (((graceful ≡ false) × (signals ≡ sigkill ∷ []))
        ⊎ ((graceful ≡ true) × (signals ≡ sigterm ∷ sigkill ∷ []) × (task.wait ≡ ok none)))

grace-ends :
    (id : String) (task : Task) (w : Result (Option (Option Error)))
    → task.wait ≡ w
    → task.kill sigterm ≡ ok tt
    → (grace id task w).result ≡ ok tt
    → ExitedInGrace true task (grace id task w).signals ⊎ Killed true task (grace id task w).signals
unfolding grace kill
grace-ends id task (ok (some none)) e k h = inl (refl, refl, k, e)
grace-ends id task (ok (some (some p))) e k h = absurd (cc h)
grace-ends id task (ok none) e k h = inr (context-eq-ok _ _ h, inr (refl, refl, e))
grace-ends id task (err p) e k h = absurd (cc h)
grace-ends id task panic e k h = absurd (cc h)

terminated-ends :
    (id : String) (task : Task) (k : Result (Unit {0}))
    → task.kill sigterm ≡ k
    → (terminated id task k).result ≡ ok tt
    → ExitedInGrace true task (terminated id task k).signals
      ⊎ Killed true task (terminated id task k).signals
unfolding terminated
terminated-ends id task (ok u) k h = grace-ends id task task.wait refl k h
terminated-ends id task (err p) k h = absurd (cc h)
terminated-ends id task panic k h = absurd (cc h)

stop_task-ends :
    (id : String) (graceful : Bool) (task : Task)
    → (stop_task id graceful task).result ≡ ok tt
    → ExitedInGrace graceful task (stop_task id graceful task).signals
      ⊎ Killed graceful task (stop_task id graceful task).signals
unfolding stop_task kill
stop_task-ends id true task h = terminated-ends id task (task.kill sigterm) refl h
stop_task-ends id false task h = inr (context-eq-ok _ _ h, inl (refl, refl))

stop_loaded-ends :
    (id : String) (graceful : Bool) (r : Result Task)
    → (stop_loaded id graceful r).result ≡ ok tt
    → (task : Task) × (r ≡ ok task)
      × (ExitedInGrace graceful task (stop_loaded id graceful r).signals
          ⊎ Killed graceful task (stop_loaded id graceful r).signals)
unfolding stop_loaded
stop_loaded-ends id graceful (ok task) h = (task, refl, stop_task-ends id graceful task h)
stop_loaded-ends id graceful (err p) h = absurd (cc h)
stop_loaded-ends id graceful panic h = absurd (cc h)

-- A stop of a container that returns without an error has ended it: a graceful one has either seen it
-- exit in the grace period after the signal to terminate, or has killed it after that; one that is not
-- graceful has sent the signal to kill, and no other.
pub stop_ends :
    (api : Api) (id : String) (graceful : Bool)
    → (stop api id graceful).result ≡ ok tt
    → (task : Task) × (load_task api "stop" id ≡ ok task)
      × (ExitedInGrace graceful task (stop api id graceful).signals
          ⊎ Killed graceful task (stop api id graceful).signals)
unfolding stop
stop_ends api id graceful h = stop_loaded-ends id graceful (load_task api "stop" id) h
