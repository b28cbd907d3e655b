-- ===== src/Processes/Kept.antt =====
-- What the actions on processes promise of their map of processes, as an interface, and what follows
-- for an execution whose steps interleave with those of others.
use extension_container.Common.{String, none, some, [], ◌∷◌, ◌≡◌, ◌≢◌, refl, ◌∙◌}
use extension_container.Common.Dicts.{Dict, lookup}
use extension_container.Processes.{Outcome, starts, stops}

pub record ProcessAction (P : Type 0) : Type 1 where
  pub State : Type 0
  pub Answers : Type 0
  pub execution : State → String
  pub start : Answers → State → Dict P → Outcome P
  pub stop : Answers → State → Dict P → Outcome P
  -- A step leaves the processes of other executions alone.
  pub start_keeps :
      (a : Answers) (s : State) (m : Dict P) (id : String)
      → execution s ≢ id
      → lookup id (start a s m).running ≡ lookup id m
  pub stop_keeps :
      (a : Answers) (s : State) (m : Dict P) (id : String)
      → execution s ≢ id
      → lookup id (stop a s m).running ≡ lookup id m
  -- The process that is started is stored, and the one that is stored is stopped and forgotten.
  pub start_stores :
      (a : Answers) (s : State) (m : Dict P) (p : P)
      → (start a s m).calls ≡ starts p ∷ []
      → lookup (execution s) (start a s m).running ≡ some p
  pub stop_stops :
      (a : Answers) (s : State) (m : Dict P) (p : P)
      → lookup (execution s) m ≡ some p
      → ((stop a s m).calls ≡ stops p ∷ []) × (lookup (execution s) (stop a s m).running ≡ none)
  pub stop_idle :
      (a : Answers) (s : State) (m : Dict P)
      → lookup (execution s) m ≡ none
      → (stop a s m).calls ≡ []

pub starts_inj : {P : Type 0} {p q : P} → starts p ∷ [] ≡ starts q ∷ [] → p ≡ q
starts_inj h = cc h

module _ {P : Type 0} (action : ProcessAction P) where
  -- Any sequence of steps of executions other than `id`.
  pub data Others (id : String) (m : Dict P) : Dict P → Type 0 where
    nothing : Others id m m
    then_start :
        {n : Dict P}
        → Others id m n
        → (a : action.Answers) (s : action.State) → action.execution s ≢ id
        → Others id m (action.start a s n).running
    then_stop :
        {n : Dict P}
        → Others id m n
        → (a : action.Answers) (s : action.State) → action.execution s ≢ id
        → Others id m (action.stop a s n).running

  Others-keeps : {id : String} {m n : Dict P} → Others id m n → lookup id n ≡ lookup id m
  Others-keeps nothing = refl
  Others-keeps {id} (then_start {n} h a s other) =
      action.start_keeps a s n id other ∙ Others-keeps h
  Others-keeps {id} (then_stop {n} h a s other) = action.stop_keeps a s n id other ∙ Others-keeps h

  -- The execution's `Stop` stops the process that its `Start` has started, whatever others did in
  -- between, and a later `Stop` stops nothing.
  pub stop_once :
      (a b c : action.Answers) (s : action.State) (m : Dict P) (p : P)
      → (action.start a s m).calls ≡ starts p ∷ []
      → {n : Dict P} → Others (action.execution s) (action.start a s m).running n
      → {k : Dict P} → Others (action.execution s) (action.stop b s n).running k
      → ((action.stop b s n).calls ≡ stops p ∷ []) × ((action.stop c s k).calls ≡ [])
  stop_once a b c s m p started {n} between {k} after =
      let stored = Others-keeps between ∙ action.start_stores a s m p started in
      let (stopped, forgotten) = action.stop_stops b s n p stored in
      (stopped, action.stop_idle c s k (Others-keeps after ∙ forgotten))
