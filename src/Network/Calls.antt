-- ===== src/Network/Calls.antt =====
-- Which calls to netfault `Start` and `Stop` of extcontainer/action_network.go make.
use extension_container.Common.{
  ◌<◌, true, false, Option, none, some, List, [], ◌∷◌, ◌≡◌, ◌≢◌, refl, sym, subst, arith, ok,
}
use extension_container.ActionKit.{Message}
use extension_container.Netns.{
  Tracker, ClaimResult, claim_primary, claim_shadow, claim_passthrough, claim_netns_for_attack,
}
use extension_container.Netns.Normalize.{Json, normalize_opts_for_dedup}
use extension_container.Netns.Claims.{claims_on, AllUnder, Decides, claim-Tracks}
use extension_container.Network.{
  Netfault, Answers, applies, NetworkActionState, Outcome, ApplyError, start, apply_attack,
  after_apply, on_claim, claimed_state,
}
use extension_container.Network.Siblings.{claims, ns_of}
use extension_container.Network.History.{Reached, history-Tracks, claims_first, applies_later}

module _ (nf : Netfault) (answers : Answers nf) where
  pub apply_attack-calls :
      (described : Message) (opts : nf.Opts) (state : NetworkActionState nf) (active : Tracker)
      → (apply_attack nf answers described opts state active).calls
        ≡ applies state.sidecar opts ∷ []
  unfolding apply_attack
  apply_attack-calls described opts state active = by_problem (answers.apply state.sidecar opts).1
    where
      by_problem :
          (problem : Option ApplyError)
          → (after_apply nf answers described opts
              (record state { qdisc_snapshot = (answers.apply state.sidecar opts).0 })
              active
              problem).calls
            ≡ applies state.sidecar opts ∷ []
      by_problem none = refl
      by_problem (some e) = refl

module _ (json : Json) (nf : Netfault) where
  abbrev pub verdict_of : NetworkActionState nf → Tracker → ClaimResult
  verdict_of state active =
      (claim_netns_for_attack json (ns_of json nf state) state.network_opts active).1

  -- The same attack is live: an action on the namespace holds a claim, and every such action has the
  -- options of this one, but for the id of its own execution.
  abbrev pub SameIsLive : NetworkActionState nf → List (NetworkActionState nf) → Type 0
  SameIsLive state live =
      (0 < claims_on (ns_of json nf state) (claims json nf live))
      × AllUnder (ns_of json nf state) (normalize_opts_for_dedup json state.network_opts)
          (claims json nf live)

module _ (json : Json) (nf : Netfault) (answers : Answers nf) where
  -- The calls and the shadow flag that each verdict leads to.
  abbrev pub Follows : ClaimResult → nf.Opts → NetworkActionState nf → Outcome nf → Type 0
  Follows claim_shadow opts state out =
      (out.calls ≡ []) × (out.state.is_shadow ≡ true) × (out.state.netns_claimed ≡ true)
  Follows claim_primary opts state out = out.calls ≡ applies state.sidecar opts ∷ []
  Follows claim_passthrough opts state out = out.calls ≡ applies state.sidecar opts ∷ []

  pub on_claim-Follows :
      (opts : nf.Opts) (state : NetworkActionState nf) (active : Tracker) (v : ClaimResult)
      → Follows v opts state (on_claim nf answers opts state active v)
  unfolding on_claim
  on_claim-Follows opts state active claim_shadow = (refl, refl, refl)
  on_claim-Follows opts state active claim_primary =
      apply_attack-calls nf answers _ opts (claimed_state claim_primary state) active
  on_claim-Follows opts state active claim_passthrough =
      apply_attack-calls nf answers _ opts state active

  pub start-on_claim :
      (state : NetworkActionState nf) (active : Tracker) (opts : nf.Opts)
      → nf.decode state.network_opts ≡ ok opts
      → let r = claim_netns_for_attack json (ns_of json nf state) state.network_opts active in
        start nf answers json state active ≡ on_claim nf answers opts state r.0 r.1
  unfolding start
  start-on_claim state active opts e = rw (e, start) refl

  on_claim-Reached :
      (opts : nf.Opts) (state : NetworkActionState nf) (active : Tracker)
      (live : List (NetworkActionState nf)) (v : ClaimResult)
      → Reached json nf active (claimed_state v state ∷ live)
      → let out = on_claim nf answers opts state active v in
        Reached json nf out.tracker (out.state ∷ live)
  unfolding on_claim
  on_claim-Reached opts state active live claim_shadow r = r
  on_claim-Reached opts state active live claim_primary r =
      applies_later answers _ opts [] live (claimed_state claim_primary state) r
  on_claim-Reached opts state active live claim_passthrough r =
      applies_later answers _ opts [] live state r

  -- The handler takes the two steps of a history, so what holds of histories holds of `Start`.
  pub start-Reached :
      (state : NetworkActionState nf) (opts : nf.Opts) {active : Tracker}
      {live : List (NetworkActionState nf)}
      → nf.decode state.network_opts ≡ ok opts
      → state.netns_claimed ≡ false
      → Reached json nf active live
      → let out = start nf answers json state active in
        Reached json nf out.tracker (out.state ∷ live)
  start-Reached state opts {active} {live} e fresh r =
      subst (λ (out : Outcome nf). Reached json nf out.tracker (out.state ∷ live))
        (sym (start-on_claim state active opts e))
        (on_claim-Reached opts state _ live (verdict_of json nf state active)
          (claims_first state fresh r))

  -- What `Start` does: it leaves the attack to a sibling where the same attack is live, without a
  -- call and as a shadow with a claim, and else installs it with one call.
  pub data Started (opts : nf.Opts) (state : NetworkActionState nf)
      (live : List (NetworkActionState nf)) (out : Outcome nf) : Type 0 where
    left_to_sibling :
        SameIsLive json nf state live
        → out.calls ≡ []
        → out.state.is_shadow ≡ true
        → out.state.netns_claimed ≡ true
        → Started opts state live out
    installed :
        ¬ SameIsLive json nf state live
        → out.calls ≡ applies state.sidecar opts ∷ []
        → Started opts state live out

  by_verdict :
      (opts : nf.Opts) (state : NetworkActionState nf) (live : List (NetworkActionState nf))
      (out : Outcome nf) (v : ClaimResult)
      → Follows v opts state out
      → Decides v
          (ns_of json nf state)
          (normalize_opts_for_dedup json state.network_opts)
          (claims json nf live)
      → Started opts state live out
  by_verdict opts state live out claim_primary f d =
      installed (λ s. absurd (omega (arith, s.0, d))) f
  by_verdict opts state live out claim_shadow f d = left_to_sibling d f.0 f.1 f.2
  by_verdict opts state live out claim_passthrough f d = installed (λ s. absurd (d.1 s.1)) f

  pub start-Follows :
      (state : NetworkActionState nf) (opts : nf.Opts) (active : Tracker)
      → nf.decode state.network_opts ≡ ok opts
      → Follows (verdict_of json nf state active) opts state (start nf answers json state active)
  start-Follows state opts active e =
      subst (Follows (verdict_of json nf state active) opts state)
        (sym (start-on_claim state active opts e))
        (on_claim-Follows opts state _ (verdict_of json nf state active))

  -- After any history, `Start` on a known namespace installs the attack, with one call, unless the
  -- same attack is live there; then it makes no call and notes that it is a shadow with a claim.
  -- The options decode.
  pub start-Started :
      (state : NetworkActionState nf) (opts : nf.Opts) {active : Tracker}
      {live : List (NetworkActionState nf)}
      → nf.decode state.network_opts ≡ ok opts
      → ns_of json nf state ≢ ""
      → Reached json nf active live
      → Started opts state live (start nf answers json state active)
  start-Started state opts {active} {live} e known r =
      by_verdict opts state live (start nf answers json state active)
        (verdict_of json nf state active) (start-Follows state opts active e)
        (claim-Tracks json (ns_of json nf state) state.network_opts active (claims json nf live)
          known (history-Tracks json nf r)).0

  of_Started :
      {opts : nf.Opts} {state : NetworkActionState nf} {live : List (NetworkActionState nf)}
      {out : Outcome nf}
      → Started opts state live out
      → (SameIsLive json nf state live
          → (out.calls ≡ []) × (out.state.is_shadow ≡ true) × (out.state.netns_claimed ≡ true))
        × (¬ SameIsLive json nf state live → out.calls ≡ applies state.sidecar opts ∷ [])
  of_Started (left_to_sibling same c s n) = ((λ _. (c, s, n)), (λ other. absurd (other same)))
  of_Started (installed other c) = ((λ same. absurd (other same)), (λ _. c))

  pub start-calls :
      (state : NetworkActionState nf) (opts : nf.Opts) {active : Tracker}
      {live : List (NetworkActionState nf)}
      → nf.decode state.network_opts ≡ ok opts
      → ns_of json nf state ≢ ""
      → Reached json nf active live
      → let out = start nf answers json state active in
        (SameIsLive json nf state live
          → (out.calls ≡ []) × (out.state.is_shadow ≡ true) × (out.state.netns_claimed ≡ true))
        × (¬ SameIsLive json nf state live → out.calls ≡ applies state.sidecar opts ∷ [])
  start-calls state opts e known r = of_Started (start-Started state opts e known r)
