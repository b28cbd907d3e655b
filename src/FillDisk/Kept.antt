-- ===== src/FillDisk/Kept.antt =====
-- `fillDiskAction` of extcontainer/action_fill_disk.go keeps its processes apart.
use extension_container.Common.{
  String, Option, none, some, [], ◌∷◌, ◌≡◌, ◌≢◌, refl, ap, ok, err, panic, Result, ==-false,
  eq_refl,
}
use extension_container.Common.Dicts.{Dict, lookup, lookup-insert, lookup-erase}
use extension_container.Processes.{starts, stops}
use extension_container.Processes.Kept.{ProcessAction, Others, stop_once, starts_inj}
use extension_container.FillDisk.{FillDiskActionState, Diskfill, start, launched, stop, halted}

module _ {P : Type 0} (a : Diskfill P) (s : FillDiskActionState) (m : Dict P) where
  launched_keeps :
      (r : Result P) (id : String)
      → s.execution_id ≢ id
      → lookup id (launched a s m r).running ≡ lookup id m
  unfolding launched
  launched_keeps (ok p) id other =
      rw (lookup-insert id s.execution_id p m, ==-false s.execution_id id other) refl
  launched_keeps (err _) id other = refl
  launched_keeps panic id other = refl

  launched_stores :
      (r : Result P) (p : P)
      → (launched a s m r).calls ≡ starts p ∷ []
      → lookup s.execution_id (launched a s m r).running ≡ some p
  unfolding launched
  launched_stores (ok q) p h =
      rw (lookup-insert s.execution_id s.execution_id q m, eq_refl s.execution_id)
        (ap some (starts_inj h))
  launched_stores (err _) p h = absurd (cc h)
  launched_stores panic p h = absurd (cc h)

  halted_keeps :
      (o : Option P) (id : String)
      → s.execution_id ≢ id
      → lookup id (halted a s m o).running ≡ lookup id m
  unfolding halted
  halted_keeps (some p) id other =
      rw (lookup-erase id s.execution_id m, ==-false s.execution_id id other) refl
  halted_keeps none id other = refl

  pub stop_stops :
      (p : P)
      → lookup s.execution_id m ≡ some p
      → ((stop a s m).calls ≡ stops p ∷ []) × (lookup s.execution_id (stop a s m).running ≡ none)
  unfolding stop halted
  stop_stops p h = (
    rw (stop, h) refl,
    rw (stop, h, lookup-erase s.execution_id s.execution_id m, eq_refl s.execution_id) refl,
  )

  pub stop_idle : lookup s.execution_id m ≡ none → (stop a s m).calls ≡ []
  unfolding stop halted
  stop_idle h = rw (stop, h) refl

  pub start_keeps :
      (id : String) → s.execution_id ≢ id → lookup id (start a s m).running ≡ lookup id m
  unfolding start
  start_keeps = launched_keeps (a.new_diskfill_runc s.sidecar s.fill_disk_opts)

  pub start_stores :
      (p : P)
      → (start a s m).calls ≡ starts p ∷ []
      → lookup s.execution_id (start a s m).running ≡ some p
  unfolding start
  start_stores = launched_stores (a.new_diskfill_runc s.sidecar s.fill_disk_opts)

  pub stop_keeps :
      (id : String) → s.execution_id ≢ id → lookup id (stop a s m).running ≡ lookup id m
  unfolding stop
  stop_keeps = halted_keeps (lookup s.execution_id m)

-- The action as one on processes.
unfoldable pub action : {P : Type 0} → ProcessAction P
action {P} = record {
  State = FillDiskActionState;
  Answers = Diskfill P;
  execution = λ s. s.execution_id;
  start = start;
  stop = stop;
  start_keeps = start_keeps;
  stop_keeps = stop_keeps;
  start_stores = start_stores;
  stop_stops = stop_stops;
  stop_idle = stop_idle;
}

-- Fill disk: `Stop` of an execution stops exactly the process that its `Start` has started, whatever
-- steps of other executions came in between, and a later `Stop` of it stops nothing.
pub fill_disk_stops_once :
    {P : Type 0} (a b c : Diskfill P) (s : FillDiskActionState) (m : Dict P) (p : P)
    → (start a s m).calls ≡ starts p ∷ []
    → {n : Dict P} → Others action s.execution_id (start a s m).running n
    → {k : Dict P} → Others action s.execution_id (stop b s n).running k
    → ((stop b s n).calls ≡ stops p ∷ []) × ((stop c s k).calls ≡ [])
unfolding action
fill_disk_stops_once a b c s m p started between after =
    stop_once action a b c s m p started between after
