-- ===== src/Network/Leaving.antt =====
-- The primary of extcontainer/netns_dedup.go leaves before its shadows.
use extension_container.Common.{
  ◌<◌, String, true, false, none, List, [], ◌∷◌, ◌≡◌, ◌≢◌, refl, sym, ◌∙◌, subst, arith, ok, eq_iff,
}
use extension_container.Netns.{Tracker, ClaimResult, claim_primary, claim_shadow, claim_passthrough}
use extension_container.Netns.Normalize.{Json, normalize_opts_for_dedup}
use extension_container.Netns.Claims.{
  Claim, claims_on, AllUnder, AllUnder-none, Decides, claim-Tracks,
}
use extension_container.Network.{
  Netfault, Answers, reverts, NetworkActionState, start, stop, apply_attack, after_apply, on_claim,
  claimed_state,
}
use extension_container.Network.Siblings.{claims, ns_of, held_some}
use extension_container.Network.History.{Reached, history-Tracks, stops}
use extension_container.Network.Calls.{
  start-on_claim, verdict_of, SameIsLive, start-calls, start-Reached,
}
use extension_container.Network.Undo.{stop-Undoes}

module _ (json : Json) (nf : Netfault) where
  abbrev pub norm : NetworkActionState nf → String
  norm state = normalize_opts_for_dedup json state.network_opts

  SameIsLive-head :
      (s x : NetworkActionState nf) (live : List (NetworkActionState nf))
      → x.netns_claimed ≡ true
      → ns_of json nf s ≢ ""
      → ns_of json nf x ≡ ns_of json nf s
      → norm x ≡ norm s
      → claims_on (ns_of json nf s) (claims json nf live) ≡ 0
      → SameIsLive json nf s (x ∷ live)
  SameIsLive-head s x live claimed known same alike free =
      subst (λ l. (0 < claims_on (ns_of json nf s) l) × AllUnder (ns_of json nf s) (norm s) l)
        (sym (
          held_some json nf x (claims json nf live)
            (ground (arith, eq_iff (ns_of json nf x) "", same, known))))
        (
          ground (arith, eq_iff (ns_of json nf x) (ns_of json nf s)),
          ((λ _. alike), AllUnder-none (ns_of json nf s) (norm s) (claims json nf live) free),
        )

  verdict_free :
      (id opts : String) (live : List Claim) (v : ClaimResult)
      → claims_on id live ≡ 0
      → Decides v id opts live
      → v ≡ claim_primary
  verdict_free id opts live claim_primary z d = refl
  verdict_free id opts live claim_shadow z d = absurd (omega (arith, d.0, z))
  verdict_free id opts live claim_passthrough z d = absurd (omega (arith, d.0, z))

  -- A first `Start` whose attack is installed holds the claim.
  start_first_state :
      (answers : Answers nf) (state : NetworkActionState nf) (opts : nf.Opts) {active : Tracker}
      {live : List (NetworkActionState nf)}
      → nf.decode state.network_opts ≡ ok opts
      → ns_of json nf state ≢ ""
      → Reached json nf active live
      → claims_on (ns_of json nf state) (claims json nf live) ≡ 0
      → (answers.apply state.sidecar opts).1 ≡ none
      → (start nf answers json state active).state ≡ record state {
        netns_claimed = true;
        qdisc_snapshot = (answers.apply state.sidecar opts).0;
      }
  unfolding on_claim apply_attack after_apply claimed_state
  start_first_state answers state opts {active} {live} e known r free installed =
      let v = verdict_of json nf state active in
      let primary : v ≡ claim_primary =
        verdict_free (ns_of json nf state) (norm state) (claims json nf live) v free
          (claim-Tracks json (ns_of json nf state) state.network_opts active (claims json nf live)
            known (history-Tracks json nf r)).0 in
      rw (start-on_claim json nf answers state active opts e, primary)
        (rw (installed, apply_attack, after_apply) refl)

  verdict_same :
      (id opts : String) (live : List Claim) (v : ClaimResult)
      → (0 < claims_on id live) × AllUnder id opts live
      → Decides v id opts live
      → v ≡ claim_shadow
  verdict_same id opts live claim_primary s d = absurd (omega (arith, s.0, d))
  verdict_same id opts live claim_shadow s d = refl
  verdict_same id opts live claim_passthrough s d = absurd (d.1 s.1)

  -- A later `Start` of the same attack holds a claim as a shadow.
  start_shadow_state :
      (answers : Answers nf) (state : NetworkActionState nf) (opts : nf.Opts) {active : Tracker}
      {live : List (NetworkActionState nf)}
      → nf.decode state.network_opts ≡ ok opts
      → ns_of json nf state ≢ ""
      → Reached json nf active live
      → SameIsLive json nf state live
      → (start nf answers json state active).state
        ≡ record state { is_shadow = true; netns_claimed = true }
  unfolding on_claim claimed_state
  start_shadow_state answers state opts {active} {live} e known r same =
      let v = verdict_of json nf state active in
      let shadow : v ≡ claim_shadow =
        verdict_same (ns_of json nf state) (norm state) (claims json nf live) v same
          (claim-Tracks json (ns_of json nf state) state.network_opts active (claims json nf live)
            known (history-Tracks json nf r)).0 in
      rw (start-on_claim json nf answers state active opts e, shadow) refl

  -- When the primary stops while a shadow is still in flight, the attack is reverted, and a further
  -- `Start` of the same attack calls nothing: three actions on one namespace that no claim was held
  -- on, with the same options up to the ids of their executions, the first of which installed the
  -- attack. (The shadow's action then runs with no attack on the namespace.)
  pub primary_leaves_first :
      (answers later : Answers nf) (a b c : NetworkActionState nf) (oa ob oc : nf.Opts)
      {active : Tracker} {live : List (NetworkActionState nf)}
      → (a.is_shadow ≡ false) × (a.netns_claimed ≡ false) × (b.netns_claimed ≡ false)
      → (nf.decode a.network_opts ≡ ok oa)
        × (nf.decode b.network_opts ≡ ok ob)
        × (nf.decode c.network_opts ≡ ok oc)
      → ns_of json nf a ≢ ""
      → (ns_of json nf b ≡ ns_of json nf a) × (ns_of json nf c ≡ ns_of json nf a)
      → (norm b ≡ norm a) × (norm c ≡ norm a)
      → Reached json nf active live
      → claims_on (ns_of json nf a) (claims json nf live) ≡ 0
      → (answers.apply a.sidecar oa).1 ≡ none
      → later.namespace_gone a.sidecar.target_process.namespaces ≡ none
      → let first = start nf answers json a active in
        let second = start nf answers json b first.tracker in
        let left = stop nf later first.state second.tracker in
        (left.calls ≡ reverts a.sidecar oa (answers.apply a.sidecar oa).0 ∷ [])
        × ((start nf answers json c left.tracker).calls ≡ [])
  primary_leaves_first answers later a b c oa ob oc {active} {live} fresh dec known ns alike r free
        installed gone =
      (
        (stop-Undoes json nf answers later a oa active _ fresh.0 dec.0 gone).1 (
            (start-calls json nf answers a oa dec.0 known r).1
              (λ s. absurd (omega (arith, s.0, free)))),
        ((start-calls json nf answers c oc dec.2 (λ z. known (sym ns.1 ∙ z)) after_stop).0 (
            SameIsLive-head c shadow live refl (λ z. known (sym ns.1 ∙ z)) (ns.0 ∙ sym ns.1)
              (alike.0 ∙ sym alike.1)
              (subst (λ id. claims_on id (claims json nf live) ≡ 0) (sym ns.1) free))).0,
      )
    where
      primary : NetworkActionState nf
      primary = record a { netns_claimed = true; qdisc_snapshot = (answers.apply a.sidecar oa).0 }

      shadow : NetworkActionState nf
      shadow = record b { is_shadow = true; netns_claimed = true }

      after_first : Reached json nf (start nf answers json a active).tracker (primary ∷ live)
      after_first =
          subst
            (λ (s : NetworkActionState nf).
              Reached json nf (start nf answers json a active).tracker (s ∷ live))
            (start_first_state answers a oa dec.0 known r free installed)
            (start-Reached json nf answers a oa dec.0 fresh.1 r)

      same_b : SameIsLive json nf b (primary ∷ live)
      same_b =
          SameIsLive-head b primary live refl (λ z. known (sym ns.0 ∙ z)) (sym ns.0) (sym alike.0)
            (subst (λ id. claims_on id (claims json nf live) ≡ 0) (sym ns.0) free)

      after_second :
          Reached json nf
            (start nf answers json b (start nf answers json a active).tracker).tracker
            (shadow ∷ primary ∷ live)
      after_second =
          subst
            (λ (s : NetworkActionState nf).
              Reached json nf
                (start nf answers json b (start nf answers json a active).tracker).tracker
                (s ∷ primary ∷ live))
            (start_shadow_state answers b ob dec.1 (λ z. known (sym ns.0 ∙ z)) after_first same_b)
            (start-Reached json nf answers b ob dec.1 fresh.2 after_first)

      after_stop :
          Reached json nf
            (stop nf later
              (start nf answers json a active).state
              (start nf answers json b (start nf answers json a active).tracker).tracker).tracker
            (shadow ∷ live)
      after_stop =
          subst
            (λ (s : NetworkActionState nf).
              Reached json nf
                (stop nf later s
                  (start nf answers json b
                    (start nf answers json a active).tracker).tracker).tracker
                (shadow ∷ live))
            (sym (start_first_state answers a oa dec.0 known r free installed))
            (stops later (shadow ∷ []) live primary after_second)
