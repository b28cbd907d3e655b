-- ===== src/Faults/Context.antt =====
-- The execution context that `mapToExecutionContext` of extcontainer/action_network.go makes.
use extension_container.Common.{
  Option, none, some, ◌≡◌, refl, sym, subst, ◌∙◌, Result, ok, ok_inj, Option-cases, inl, inr,
}
use extension_container.ActionKit.{Request, ExecutionContext}
use extension_container.Filters.{AttackContext, or_zero, map_to_execution_context}

-- The value that is given, or the zero value without one.
abbrev pub GivenOr : {A : Type 0} → Option A → A → A → Type 0
GivenOr none zero_value a = a ≡ zero_value
GivenOr (some given) zero_value a = a ≡ given

-- The experiment is the one of the request's context, and the target's execution that of the request.
abbrev pub IsContextOf : {V : Type 0} → Request V → AttackContext → Type 0
IsContextOf request e =
    (c : ExecutionContext) × (request.execution_context ≡ some c)
    × GivenOr c.experiment_key "" e.experiment_key
    × GivenOr c.execution_id 0 e.experiment_execution_id
    × (e.target_execution_id ≡ request.execution_id)

GivenOr-or_zero :
    {A : Type 0} (o : Option A) (zero_value : A) → GivenOr o zero_value (or_zero o zero_value)
GivenOr-or_zero none zero_value = refl
GivenOr-or_zero (some given) zero_value = refl

pub map_to_execution_context-IsContextOf :
    {V : Type 0} (request : Request V) {e : AttackContext}
    → map_to_execution_context request ≡ ok e
    → IsContextOf request e
unfolding map_to_execution_context
map_to_execution_context-IsContextOf request {e} h = elim (Option-cases request.execution_context) [
  | inl missing ↦
      let panics : Result.panic ≡ map_to_execution_context request =
        rw (map_to_execution_context, missing) refl in
      absurd (cc (panics ∙ h))
  | inr (c, found) ↦
      let made : AttackContext = record {
        experiment_key = or_zero c.experiment_key "";
        experiment_execution_id = or_zero c.execution_id 0;
        target_execution_id = request.execution_id;
      } in
      let returned : map_to_execution_context request ≡ ok made =
        rw (map_to_execution_context, found) refl in
      subst (λ (k : AttackContext). IsContextOf request k) (ok_inj (sym returned ∙ h))
        (c, found, GivenOr-or_zero c.experiment_key "", GivenOr-or_zero c.execution_id 0, refl)
]
