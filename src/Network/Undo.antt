-- ===== src/Network/Undo.antt =====
-- `Stop` of extcontainer/action_network.go against the `Start` before it.
use extension_container.Common.{
  true, false, Option, none, some, List, [], ◌∷◌, ◌≡◌, refl, sym, ◌∙◌, subst, ap, arith, ok,
}
use extension_container.ActionKit.{Message}
use extension_container.Netns.{Tracker, ClaimResult, claim_primary, claim_shadow, claim_passthrough}
use extension_container.Netns.Normalize.{Json}
use extension_container.Network.{
  SidecarOpts, Netfault, Answers, Call, applies, reverts, NetworkActionState, Outcome, ApplyError,
  start, stop, apply_attack, after_apply, on_claim, claimed_state, stop_attack,
}
use extension_container.Network.Calls.{
  Follows, start-Follows, apply_attack-calls, start-on_claim, verdict_of,
}

module _ (nf : Netfault) where
  stop-calls_shadow :
      (answers : Answers nf) (state : NetworkActionState nf) (active : Tracker)
      → state.is_shadow ≡ true
      → (stop nf answers state active).calls ≡ []
  unfolding stop
  stop-calls_shadow answers state active h = rw (h, stop, stop_attack) refl

  stop-calls_owner :
      (answers : Answers nf) (state : NetworkActionState nf) (active : Tracker) (opts : nf.Opts)
      → state.is_shadow ≡ false
      → nf.decode state.network_opts ≡ ok opts
      → answers.namespace_gone state.sidecar.target_process.namespaces ≡ none
      → (stop nf answers state active).calls ≡ reverts state.sidecar opts state.qdisc_snapshot ∷ []
  unfolding stop
  stop-calls_owner answers state active opts h e g = ground arith

  -- What `Start` leaves on the state of an action that is no shadow.
  record Installed (before after : NetworkActionState nf) (snap : nf.Snapshot) : Type 0 where
    same_shadow : after.is_shadow ≡ before.is_shadow
    same_opts : after.network_opts ≡ before.network_opts
    same_sidecar : after.sidecar ≡ before.sidecar
    snapshot : after.qdisc_snapshot ≡ snap

  after_apply-Installed :
      (answers : Answers nf) (described : Message) (opts : nf.Opts) (state : NetworkActionState nf)
      (active : Tracker) (problem : Option ApplyError)
      → Installed state
          (after_apply nf answers described opts state active problem).state
          state.qdisc_snapshot
  unfolding after_apply
  after_apply-Installed answers described opts state active none = record {
    same_shadow = refl;
    same_opts = refl;
    same_sidecar = refl;
    snapshot = refl;
  }
  after_apply-Installed answers described opts state active (some e) = ground arith

  apply_attack-Installed :
      (answers : Answers nf) (described : Message) (opts : nf.Opts) (state : NetworkActionState nf)
      (active : Tracker)
      → Installed state
          (apply_attack nf answers described opts state active).state
          (answers.apply state.sidecar opts).0
  unfolding apply_attack
  apply_attack-Installed answers described opts state active =
      let i =
        after_apply-Installed answers described opts
          (record state { qdisc_snapshot = (answers.apply state.sidecar opts).0 }) active
          (answers.apply state.sidecar opts).1 in
      record {
        same_shadow = i.same_shadow;
        same_opts = i.same_opts;
        same_sidecar = i.same_sidecar;
        snapshot = i.snapshot;
      }

  -- `Stop` undoes what `Start` did, whatever it answered: an attack that was called is reverted on
  -- the same target with the same options and the snapshot that the call returned, and an attack
  -- that was left to a sibling is not. The options still decode, and the namespace still exists.
  abbrev pub Undoes :
      NetworkActionState nf → nf.Opts → nf.Snapshot → List (Call nf) → List (Call nf) → Type 0
  Undoes state opts snap started stopped =
      (started ≡ [] → stopped ≡ [])
      × (started ≡ applies state.sidecar opts ∷ [] → stopped ≡ reverts state.sidecar opts snap ∷ [])

  owner-Undoes :
      (later : Answers nf) (state after : NetworkActionState nf) (opts : nf.Opts)
      (snap : nf.Snapshot) (started : List (Call nf)) (active : Tracker)
      → Installed state after snap
      → started ≡ applies state.sidecar opts ∷ []
      → state.is_shadow ≡ false
      → nf.decode state.network_opts ≡ ok opts
      → later.namespace_gone state.sidecar.target_process.namespaces ≡ none
      → Undoes state opts snap started (stop nf later after active).calls
  owner-Undoes later state after opts snap started active i c h e g = (
    (λ none. cc),
    (λ _.
        subst (λ (t : SidecarOpts). (stop nf later after active).calls ≡ reverts t opts snap ∷ [])
          i.same_sidecar
          (subst (λ s. (stop nf later after active).calls ≡ reverts after.sidecar opts s ∷ [])
            i.snapshot
            (stop-calls_owner later after active opts (i.same_shadow ∙ h)
              (ap nf.decode i.same_opts ∙ e)
              (ap (λ (t : SidecarOpts). later.namespace_gone t.target_process.namespaces)
                  i.same_sidecar
                ∙ g)))),
  )

  on_claim-Undoes :
      (answers later : Answers nf) (state : NetworkActionState nf) (opts : nf.Opts)
      (active active' : Tracker) (v : ClaimResult)
      → state.is_shadow ≡ false
      → nf.decode state.network_opts ≡ ok opts
      → later.namespace_gone state.sidecar.target_process.namespaces ≡ none
      → let out = on_claim nf answers opts state active v in
        Undoes state opts
          (answers.apply state.sidecar opts).0
          out.calls
          (stop nf later out.state active').calls
  unfolding on_claim
  on_claim-Undoes answers later state opts active active' claim_shadow h e g =
      ((λ _. stop-calls_shadow later _ active' refl), (λ c. cc))
  on_claim-Undoes answers later state opts active active' claim_primary h e g =
      owner-Undoes later (claimed_state claim_primary state) _ opts _ _ active'
        (apply_attack-Installed answers _ opts (claimed_state claim_primary state) active)
        (apply_attack-calls nf answers _ opts (claimed_state claim_primary state) active) h e g
  on_claim-Undoes answers later state opts active active' claim_passthrough h e g =
      owner-Undoes later state _ opts _ _ active'
        (apply_attack-Installed answers _ opts state active)
        (apply_attack-calls nf answers _ opts state active) h e g

module _ (json : Json) (nf : Netfault) where
  pub stop-Undoes :
      (answers later : Answers nf) (state : NetworkActionState nf) (opts : nf.Opts)
      (active active' : Tracker)
      → state.is_shadow ≡ false
      → nf.decode state.network_opts ≡ ok opts
      → later.namespace_gone state.sidecar.target_process.namespaces ≡ none
      → let out = start nf answers json state active in
        Undoes nf state opts
          (answers.apply state.sidecar opts).0
          out.calls
          (stop nf later out.state active').calls
  stop-Undoes answers later state opts active active' h e g =
      subst
        (λ (out : Outcome nf).
          Undoes nf state opts (answers.apply state.sidecar opts).0 out.calls
            (stop nf later out.state active').calls)
        (sym (start-on_claim json nf answers state active opts e))
        (on_claim-Undoes nf answers later state opts _ active' (verdict_of json nf state active) h e
          g)

  -- What the calls of `Stop` are for those of `Start`.
  pub data Undone (state : NetworkActionState nf) (opts : nf.Opts) (snap : nf.Snapshot)
      (started stopped : List (Call nf)) : Type 0 where
    nothing_to_undo : started ≡ [] → stopped ≡ [] → Undone state opts snap started stopped
    reverted :
        started ≡ applies state.sidecar opts ∷ []
        → stopped ≡ reverts state.sidecar opts snap ∷ []
        → Undone state opts snap started stopped

  Undone-by :
      (answers : Answers nf) (state : NetworkActionState nf) (opts : nf.Opts) (snap : nf.Snapshot)
      (out : Outcome nf) (stopped : List (Call nf)) (v : ClaimResult)
      → Follows json nf answers v opts state out
      → Undoes nf state opts snap out.calls stopped
      → Undone state opts snap out.calls stopped
  Undone-by answers state opts snap out stopped claim_shadow f u = nothing_to_undo f.0 (u.0 f.0)
  Undone-by answers state opts snap out stopped claim_primary f u = reverted f (u.1 f)
  Undone-by answers state opts snap out stopped claim_passthrough f u = reverted f (u.1 f)

  -- `Stop` undoes what `Start` did, whatever the calls answered and whatever happened to the tracker
  -- in between: an attack that `Start` called is reverted once, on the same target, with the same
  -- options and the snapshot that the call returned; if `Start` left the attack to a sibling, `Stop`
  -- calls nothing. The options decode, and the namespace still exists when the action stops.
  pub stop-Undone :
      (answers later : Answers nf) (state : NetworkActionState nf) (opts : nf.Opts)
      (active active' : Tracker)
      → state.is_shadow ≡ false
      → nf.decode state.network_opts ≡ ok opts
      → later.namespace_gone state.sidecar.target_process.namespaces ≡ none
      → let out = start nf answers json state active in
        Undone state opts
          (answers.apply state.sidecar opts).0
          out.calls
          (stop nf later out.state active').calls
  stop-Undone answers later state opts active active' h e g =
      Undone-by answers state opts (answers.apply state.sidecar opts).0
        (start nf answers json state active) _ (verdict_of json nf state active)
        (start-Follows json nf answers state opts active e)
        (stop-Undoes answers later state opts active active' h e g)
