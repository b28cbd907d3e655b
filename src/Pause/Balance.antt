-- ===== src/Pause/Balance.antt =====
-- What `Stop` of extcontainer/action_pause.go undoes of `Start`, and when `Status` completes.
use extension_container.Common.{
  String, Bool, true, false, List, [], ◌∷◌, ◌≡◌, refl, Result, ok, err, panic, ◌>>=◌, ◌≢◌,
}
use extension_container.Common.Int.{ℤ}
use extension_container.Engines.{Client}
use extension_container.Targets.{remove_prefix}
use extension_container.Pause.{
  PauseActionState, Call, pauses, unpauses, start, status, status_of, stop, stop_of,
}

-- The id of a container whose pause a call reverts.
pub data Undoes : List Call → List Call → Type 0 where
  undoes : (id : String) → Undoes (pauses id ∷ []) (unpauses id ∷ [])

-- Whether `GetPid` answers, which is what counts as a container that runs.
abbrev pub runs : Result ℤ → Bool
runs (ok _) = true
runs _ = false

-- What the later steps do on a container that counts as running, or does not.
pub data Ended (a b : Client) (s : PauseActionState) : Bool → Type 0 where
  running :
      Undoes (start a s).calls (stop b s).calls
      → (status b s >>= λ r. ok r.completed) ≡ ok false
      → Ended a b s true
  gone : (stop b s).calls ≡ [] → (status b s >>= λ r. ok r.completed) ≡ ok true → Ended a b s false

ends :
    (a b : Client) (s : PauseActionState) (pid : Result ℤ)
    → b.get_pid (remove_prefix s.container_id) ≡ pid
    → pid ≢ panic
    → Ended a b s (runs pid)
unfolding start stop stop_of status status_of
ends a b s (ok n) e total =
    running (rw (stop, e) (undoes (remove_prefix s.container_id))) (rw (status, e) refl)
ends a b s (err x) e total = gone (rw (stop, e) refl) (rw (status, e) refl)
ends a b s panic e total = absurd (total refl)

-- As long as `GetPid` of the client answers without an error, `Stop` unpauses the very container that
-- `Start` has paused, and `Status` does not complete; once it answers an error, `Stop` calls nothing
-- and `Status` completes. `GetPid` does not panic.
pub pause_undone :
    (a b : Client) (s : PauseActionState)
    → b.get_pid (remove_prefix s.container_id) ≢ panic
    → Ended a b s (runs (b.get_pid (remove_prefix s.container_id)))
pause_undone a b s total = ends a b s (b.get_pid (remove_prefix s.container_id)) refl total
