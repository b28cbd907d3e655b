-- ===== src/Discovery/Schedule.antt =====
-- `schedule` of extcontainer/discovery_utils.go: what a goroutine fetches in an interval, and what is
-- read of it in between. The lock makes each store and each read one step.
use extension_container.Common.{
  Bool, true, false, Option, none, some, List, [], ◌∷◌, ◌++◌, ◌≡◌, refl, ap, ◌∙◌, if◌then◌else◌,
  arith, Result, ok,
}

-- `scheduledResult`: nothing is stored before the first fetch returns.
pub record ScheduledResult (A : Type 0) : Type 0 where
  pub stored : Option (Result A)

-- What happens: a fetch returns, or the context is done.
pub data Event (A : Type 0) : Type 0 where
  fetches : Result A → Event A
  is_done : Event A

pub record Schedule (A : Type 0) : Type 0 where
  pub results : ScheduledResult A
  pub returned : Bool

module _ {A : Type 0} where
  unfoldable pub store : Result A → ScheduledResult A → ScheduledResult A
  store fetched r = record r { stored = some fetched }

  -- Before the first store, `zero_value` without an error.
  unfoldable pub get : A → ScheduledResult A → Result A
  get zero_value r = elim r.stored [ none ↦ ok zero_value | some fetched ↦ fetched ]

  unfoldable pub started : Schedule A
  started = record { results = record { stored = none }; returned = false }

  -- One round of the goroutine's loop, which ends once the context is done.
  unfoldable pub on_event : Schedule A → Event A → Schedule A
  unfolding store
  on_event s (fetches fetched) =
      if s.returned then s else record s { results = store fetched s.results }
  on_event s is_done = record s { returned = true }

  unfoldable pub after : Schedule A → List (Event A) → Schedule A
  unfolding on_event
  after s [] = s
  after s (e ∷ es) = after (on_event s e) es

  abbrev pub Live : List (Event A) → Type 0
  Live [] = Unit {0}
  Live (fetches fetched ∷ es) = Live es
  Live (is_done ∷ es) = ⊥

  live :
      (es : List (Event A))
      → Live es
      → (s : Schedule A) → s.returned ≡ false
      → (after s es).returned ≡ false
  unfolding after on_event
  live [] l s h = h
  live (fetches fetched ∷ es) l s h = live es l (on_event s (fetches fetched)) (ground arith)
  live (is_done ∷ es) l s h = elim l [ ]

  append-after :
      (es fs : List (Event A)) (s : Schedule A) → after s (es ++ fs) ≡ after (after s es) fs
  unfolding after
  append-after [] fs s = refl
  append-after (e ∷ es) fs s = append-after es fs (on_event s e)

  idle :
      (fs : List (Event A)) (s : Schedule A) → s.returned ≡ true → (after s fs).results ≡ s.results
  unfolding after on_event
  idle [] s h = refl
  idle (fetches fetched ∷ fs) s h =
      idle fs (on_event s (fetches fetched)) (ground arith) ∙ ground arith
  idle (is_done ∷ fs) s h = idle fs (on_event s is_done) refl

  read :
      (zero_value : A) (s : Schedule A) (fetched : Result A)
      → s.returned ≡ false
      → get zero_value (on_event (on_event s (fetches fetched)) is_done).results ≡ fetched
  unfolding get on_event store
  read zero_value s fetched h = rw (h) refl

  -- What is read is the last result that was fetched before the context was done, its error included,
  -- whatever happens afterwards.
  pub get_last :
      (zero_value : A) (es fs : List (Event A)) (fetched : Result A)
      → Live es
      → get zero_value (after started (es ++ (fetches fetched ∷ (is_done ∷ fs)))).results ≡ fetched
  unfolding get after on_event store started
  get_last zero_value es fs fetched l =
      ap (λ (s : Schedule A). get zero_value s.results)
        (append-after es (fetches fetched ∷ (is_done ∷ fs)) started)
      ∙ ap (get zero_value)
          (idle fs (on_event (on_event (after started es) (fetches fetched)) is_done) refl)
      ∙ read zero_value (after started es) fetched (live es l started refl)
