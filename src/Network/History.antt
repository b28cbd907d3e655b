-- ===== src/Network/History.antt =====
-- Histories of network attacks: what the tracker holds after any interleaving of the steps.
use extension_container.Common.{
  false, Option, none, some, List, [], ◌∷◌, ◌++◌, ◌≡◌, refl, sym, subst, arith, Bool-cases, inl,
  inr,
}
use extension_container.ActionKit.{Message}
use extension_container.Netns.{Tracker, claim_netns_for_attack}
use extension_container.Netns.Normalize.{Json}
use extension_container.Netns.Claims.{Claim, Tracks}
use extension_container.Netns.Releases.{Tracks-empty}
use extension_container.Network.{
  Netfault, Answers, NetworkActionState, ApplyError, stop, apply_attack, after_apply, give_back,
  claimed_state,
}
use extension_container.Network.Siblings.{
  claims, claims_front, freed, held, ns_of, freed-Tracks, claimed_state-Tracks,
}

module _ (json : Json) (nf : Netfault) where
  give_back_tracker :
      (answers : Answers nf) (state : NetworkActionState nf) (active : Tracker)
      → (give_back nf answers state active).1 ≡ freed json nf state active
  unfolding give_back
  give_back_tracker answers state active = elim (Bool-cases state.netns_claimed) [
    | inl claimed ↦ rw (claimed, give_back) refl
    | inr free ↦ rw (free, give_back) refl
  ]

  held-give_back :
      (answers : Answers nf) (state : NetworkActionState nf) (active : Tracker) (rest : List Claim)
      → held json nf (give_back nf answers state active).0 rest ≡ rest
  unfolding give_back
  held-give_back answers state active rest = ground arith

  after_apply-Tracks :
      (answers : Answers nf) (described : Message) (opts : nf.Opts) (active : Tracker)
      (before after : List (NetworkActionState nf)) (state : NetworkActionState nf)
      (problem : Option ApplyError)
      → Tracks active (claims json nf (before ++ state ∷ after))
      → let out = after_apply nf answers described opts state active problem in
        Tracks out.tracker (claims json nf (before ++ out.state ∷ after))
  unfolding after_apply
  after_apply-Tracks answers described opts active before after state none t = t
  after_apply-Tracks answers described opts active before after state (some e) t =
      let back = give_back nf answers state active in
      subst (λ a. Tracks a (claims json nf (before ++ back.0 ∷ after)))
        (sym (give_back_tracker answers state active))
        (subst (Tracks (freed json nf state active))
          (sym (
            claims_front json nf before (back.0 ∷ after) after
              (held-give_back answers state active (claims json nf after))))
          (freed-Tracks json nf active before after state t))

  -- Every outcome of `netfault.Apply` keeps the tracker in step: a failure gives the claim back.
  apply_attack-Tracks :
      (answers : Answers nf) (described : Message) (opts : nf.Opts) (active : Tracker)
      (before after : List (NetworkActionState nf)) (state : NetworkActionState nf)
      → Tracks active (claims json nf (before ++ state ∷ after))
      → let out = apply_attack nf answers described opts state active in
        Tracks out.tracker (claims json nf (before ++ out.state ∷ after))
  unfolding apply_attack
  apply_attack-Tracks answers described opts active before after state t =
      let (snap, problem) = answers.apply state.sidecar opts in
      let noted = record state { qdisc_snapshot = snap } in
      after_apply-Tracks answers described opts active before after noted problem
        (subst (Tracks active) (claims_front json nf before (state ∷ after) (noted ∷ after) refl) t)

  stop-freed :
      (answers : Answers nf) (state : NetworkActionState nf) (active : Tracker)
      → (stop nf answers state active).tracker ≡ freed json nf state active
  unfolding stop
  stop-freed answers state active = ground arith

  -- The trackers that the steps of any number of actions lead to, with the actions between their
  -- `Start` and their `Stop`. Each step is for any answers of the calls that it makes.
  pub data Reached : Tracker → List (NetworkActionState nf) → Type 0 where
    idle : Reached [] []
    claims_first :
        (state : NetworkActionState nf) {active : Tracker} {live : List (NetworkActionState nf)}
        → state.netns_claimed ≡ false
        → Reached active live
        → Reached (claim_netns_for_attack json (ns_of json nf state) state.network_opts active).0 (
            claimed_state
              (claim_netns_for_attack json (ns_of json nf state) state.network_opts active).1
              state
            ∷ live)
    applies_later :
        (answers : Answers nf) (described : Message) (opts : nf.Opts)
        (before after : List (NetworkActionState nf)) (state : NetworkActionState nf)
        {active : Tracker}
        → Reached active (before ++ state ∷ after)
        → Reached
            (apply_attack nf answers described opts state active).tracker
            (before ++ (apply_attack nf answers described opts state active).state ∷ after)
    stops :
        (answers : Answers nf) (before after : List (NetworkActionState nf))
        (state : NetworkActionState nf) {active : Tracker}
        → Reached active (before ++ state ∷ after)
        → Reached (stop nf answers state active).tracker (before ++ after)

  -- Whatever the interleaving of claims, attacks that succeed or fail, and stops, the tracker counts
  -- for every namespace exactly the actions that hold a claim on it, and these are all under the
  -- options that it keeps.
  pub history-Tracks :
      {active : Tracker} {live : List (NetworkActionState nf)}
      → Reached active live
      → Tracks active (claims json nf live)
  history-Tracks idle = Tracks-empty
  history-Tracks (claims_first state {active} {live} fresh r) =
      claimed_state-Tracks json nf active live state fresh (history-Tracks r)
  history-Tracks (applies_later answers described opts before after state {active} r) =
      apply_attack-Tracks answers described opts active before after state (history-Tracks r)
  history-Tracks (stops answers before after state {active} r) =
      subst (λ a. Tracks a (claims json nf (before ++ after)))
        (sym (stop-freed answers state active))
        (freed-Tracks json nf active before after state (history-Tracks r))
