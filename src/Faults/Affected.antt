-- ===== src/Faults/Affected.antt =====
-- What the options of the network attacks in extcontainer/action_network_*.go hold: the interfaces
-- that are affected, and the times of a delay.
use extension_container.Common.{
  ℕ, ◌*◌, ◌≤◌, String, Bool, true, false, List, [], ◌∷◌, ◌≡◌, refl, sym, ap, subst, ◌∙◌, arith,
  if◌then◌else◌, Result, ok, ◌>>=◌, >>=-ok, ok_inj, is_empty,
}
use extension_container.Common.Int.{pos, ◌*ℤ◌, quot, wrap_small}
use extension_container.ActionKit.{Messages, Request, Values}
use extension_container.Stress.Options.{milliseconds}
use extension_container.Filters.{Networks, Filter, AttackContext, map_to_execution_context}
use extension_container.Faults.{
  Runner, affected_interfaces, some_interface, request_filter, jitter_of, value,
}

-- The interfaces of an attack, at least one: those configured, or without any those listed.
pub data Chosen (configured : List String) (listed : Result (List String))
    : List String → Type 0 where
  as_configured :
      (i : String) (is : List String) → configured ≡ i ∷ is → Chosen configured listed (i ∷ is)
  as_listed :
      (i : String) (is : List String)
      → configured ≡ []
      → listed ≡ ok (i ∷ is)
      → Chosen configured listed (i ∷ is)

some_interface_inv :
    (xs is : List String)
    → some_interface xs ≡ ok is
    → (i : String) × (rest : List String) × (xs ≡ i ∷ rest) × (is ≡ i ∷ rest)
unfolding some_interface
some_interface_inv [] is h = absurd (cc h)
some_interface_inv (i ∷ xs) is h = (i, xs, refl, cc h)

chosen :
    (configured : List String) (listed : Result (List String)) (is : List String)
    → ((if is_empty configured then listed else ok configured) >>= some_interface) ≡ ok is
    → Chosen configured listed is
chosen [] listed is h =
    let (xs, listed_is, h1) = >>=-ok listed some_interface h in
    let (i, rest, e, e') = some_interface_inv xs is h1 in
    subst (λ ys. Chosen [] listed ys) (sym e') (as_listed i rest refl (listed_is ∙ ap ok e))
chosen (c ∷ cs) listed is h =
    let (i, rest, e, e') = some_interface_inv (c ∷ cs) is h in
    subst (λ ys. Chosen (c ∷ cs) listed ys) (sym e') (as_configured i rest e)

nanoseconds : (ms : ℕ) → ms ≤ 4294967 → milliseconds (pos ms) ≡ pos (ms * 1000000)
unfolding milliseconds ◌*ℤ◌
nanoseconds ms h = wrap_small (ms * 1000000) (omega arith)

jitter-exact :
    (has_jitter : Bool) (ms : ℕ)
    → ms ≤ 4294967
    → jitter_of has_jitter (pos (ms * 1000000)) ≡ pos (if has_jitter then ms * 300000 else 0)
unfolding jitter_of ◌*ℤ◌ quot
jitter-exact true ms h =
    rw (wrap_small (ms * 1000000 * 30) (omega (arith, h))) (ap pos (omega arith))
jitter-exact false ms h = refl

-- The time of a delay in nanoseconds, and its jitter of 30%, are exact up to the largest delay that
-- the attack's description allows (4294967 ms): nothing wraps around.
pub delay_times :
    (has_jitter : Bool) (ms : ℕ)
    → ms ≤ 4294967
    → (milliseconds (pos ms) ≡ pos (ms * 1000000))
      × (jitter_of has_jitter (milliseconds (pos ms)) ≡ pos (if has_jitter then ms * 300000 else 0))
delay_times has_jitter ms h = rw (nanoseconds ms h) (refl, jitter-exact has_jitter ms h)

module _ (lib : Networks) (values : Values) (runner : Runner) (request : Request values.Value) where
  abbrev pub Affects : List String → Type 0
  Affects =
      Chosen (values.to_string_array (value lib values runner request "networkInterface"))
        runner.list_non_loopback_interface_names

  affected_interfaces-Chosen :
      (is : List String) → affected_interfaces lib values runner request ≡ ok is → Affects is
  unfolding affected_interfaces
  affected_interfaces-Chosen is h = chosen _ runner.list_non_loopback_interface_names is h

  -- The steps that the providers share: what they give is made of the filter, the interfaces and the
  -- context of the request.
  pub provider-ok {ℓ} :
      {A : Type ℓ} (make : Filter lib.Net × Messages → List String → AttackContext → A) {a : A}
      → (request_filter lib values runner request >>= λ filtered.
          affected_interfaces lib values runner request >>= λ is.
          map_to_execution_context request >>= λ e_ctx. ok (make filtered is e_ctx))
        ≡ ok a
      → (filtered : Filter lib.Net × Messages) × ((is : List String) × ((e_ctx : AttackContext)
            × ((request_filter lib values runner request ≡ ok filtered)
                × (Affects is
                    × ((map_to_execution_context request ≡ ok e_ctx)
                        × (make filtered is e_ctx ≡ a))))))
  provider-ok make h =
      let (f, ef, h1) = >>=-ok (request_filter lib values runner request) _ h in
      let (is, ei, h2) = >>=-ok (affected_interfaces lib values runner request) _ h1 in
      let (c, ec, h3) = >>=-ok (map_to_execution_context request) _ h2 in
      (f, (is, (c, (ef, (affected_interfaces-Chosen is ei, (ec, ok_inj h3))))))
