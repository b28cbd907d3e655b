-- ===== src/Network/Siblings.antt =====
-- Any number of network attacks in flight, in every interleaving: `Start` claims the namespace under
-- the tracker's lock and applies the attack later, so the two are steps of their own here.
use extension_container.Common.{
  suc, String, true, false, not, ◌&&◌, List, [], ◌∷◌, ◌++◌, ◌==◌, ◌≡◌, refl, sym, subst, ap, arith,
  if◌then◌else◌, eq_refl, Bool-cases, inl, inr, ne_of_==-false,
}
use extension_container.Netns.{
  Tracker, ClaimResult, claim_primary, claim_shadow, claim_passthrough, net_ns_id,
  claim_netns_for_attack, release_netns_for_attack,
}
use extension_container.Netns.Normalize.{Json, normalize_opts_for_dedup}
use extension_container.Netns.Claims.{Claim, claims_on, AllUnder, Tracks, taken, claim-Tracks}
use extension_container.Netns.Releases.{OneLess, release-Tracks, release_unknown, claim_unknown}
use extension_container.Network.{Netfault, NetworkActionState, claimed_state}

record Removed (id : String) (live left : List Claim) : Type 0 where
  fewer : claims_on id live ≡ suc (claims_on id left)
  others : (j : String) → (id == j) ≡ false → claims_on j left ≡ claims_on j live
  under : (j opts : String) → AllUnder j opts live → AllUnder j opts left

Removed-OneLess :
    {id : String} {live left : List Claim} → Removed id live left → OneLess id live left
Removed-OneLess r = record { fewer = omega (arith, r.fewer); others = r.others; under = r.under }

Removed-head : (c : Claim) (live : List Claim) → Removed c.id (c ∷ live) live
Removed-head c live = record {
  fewer = rw (eq_refl c.id) refl;
  others = λ j h. rw h refl;
  under = λ j opts a. a.1;
}

Removed-cons :
    (id : String) (c : Claim) (live left : List Claim)
    → Removed id live left
    → Removed id (c ∷ live) (c ∷ left)
Removed-cons id c live left r = record {
  fewer = ground (arith, r.fewer);
  others = λ j h. ground (arith, r.others j h);
  under = λ j opts a. (a.0, r.under j opts a.1);
}

module _ (json : Json) (nf : Netfault) where
  abbrev pub ns_of : NetworkActionState nf → String
  ns_of state = net_ns_id state.sidecar.target_process

  abbrev pub claim_of : NetworkActionState nf → Claim
  claim_of state = record {
    id = ns_of state;
    opts = normalize_opts_for_dedup json state.network_opts;
  }

  -- The claim that an action holds on a known namespace, in front of those of the others.
  abbrev pub held : NetworkActionState nf → List Claim → List Claim
  held state rest =
      if state.netns_claimed && not (ns_of state == "") then claim_of state ∷ rest else rest

  abbrev pub claims : List (NetworkActionState nf) → List Claim
  claims [] = []
  claims (state ∷ states) = held state (claims states)

  pub claims_front :
      (before xs ys : List (NetworkActionState nf))
      → claims xs ≡ claims ys
      → claims (before ++ xs) ≡ claims (before ++ ys)
  claims_front [] xs ys e = e
  claims_front (b ∷ before) xs ys e = ap (held b) (claims_front before xs ys e)

  pub held_none :
      (state : NetworkActionState nf) (rest : List Claim)
      → (state.netns_claimed && not (ns_of state == "")) ≡ false
      → held state rest ≡ rest
  held_none state rest h =
      subst (λ b. (if b then claim_of state ∷ rest else rest) ≡ rest) (sym h) refl

  pub held_some :
      (state : NetworkActionState nf) (rest : List Claim)
      → (state.netns_claimed && not (ns_of state == "")) ≡ true
      → held state rest ≡ claim_of state ∷ rest
  held_some state rest h =
      subst (λ b. (if b then claim_of state ∷ rest else rest) ≡ claim_of state ∷ rest) (sym h) refl

  Removed-front :
      (id : String) (before xs ys : List (NetworkActionState nf))
      → Removed id (claims xs) (claims ys)
      → Removed id (claims (before ++ xs)) (claims (before ++ ys))
  Removed-front id [] xs ys r = r
  Removed-front id (b ∷ before) xs ys r =
      elim (Bool-cases (b.netns_claimed && not (ns_of b == ""))) [
        | inl claimed ↦ rw claimed (
            Removed-cons id (claim_of b) (claims (before ++ xs)) (claims (before ++ ys))
              (Removed-front id before xs ys r))
        | inr free ↦ rw free (Removed-front id before xs ys r)
      ]

  -- `if state.NetnsClaimed { releaseNetnsForAttack(...) }`, as `Stop` and a failed `Start` have it.
  abbrev pub freed : NetworkActionState nf → Tracker → Tracker
  freed state active =
      if state.netns_claimed then release_netns_for_attack (ns_of state) active else active

  -- It takes the action's own claim away and leaves those of all others.
  pub freed-Tracks :
      (active : Tracker) (before after : List (NetworkActionState nf))
      (state : NetworkActionState nf)
      → Tracks active (claims (before ++ state ∷ after))
      → Tracks (freed state active) (claims (before ++ after))
  freed-Tracks active before after state t = elim (Bool-cases state.netns_claimed) [
    | inl claimed ↦
        subst
          (λ b.
            Tracks (if b then release_netns_for_attack (ns_of state) active else active)
              (claims (before ++ after)))
          (sym claimed)
          (elim (Bool-cases (ns_of state == "")) [
            | inl unknown ↦
                subst (λ a. Tracks a (claims (before ++ after)))
                  (sym (release_unknown (ns_of state) active unknown)) (unheld (ground arith))
            | inr known ↦
                release-Tracks (ns_of state) active (claims (before ++ state ∷ after))
                  (claims (before ++ after)) (ne_of_==-false (ns_of state) "" known)
                  (Removed-OneLess (
                    Removed-front (ns_of state) before (state ∷ after) after (
                      subst (λ l. Removed (ns_of state) l (claims after))
                        (sym (held_some state (claims after) (ground arith)))
                        (Removed-head (claim_of state) (claims after)))))
                  t
          ])
    | inr free ↦
        subst
          (λ b.
            Tracks (if b then release_netns_for_attack (ns_of state) active else active)
              (claims (before ++ after)))
          (sym free) (unheld (ground arith))
  ]
    where
      unheld :
          (state.netns_claimed && not (ns_of state == "")) ≡ false
          → Tracks active (claims (before ++ after))
      unheld h =
          subst (Tracks active)
            (claims_front before (state ∷ after) after (held_none state (claims after) h)) t

  -- A claim, with what `Start` notes of it on a state that holds none yet.
  pub claimed_state-Tracks :
      (active : Tracker) (live : List (NetworkActionState nf)) (state : NetworkActionState nf)
      → state.netns_claimed ≡ false
      → Tracks active (claims live)
      → let (active', verdict) =
          claim_netns_for_attack json (ns_of state) state.network_opts active in
        Tracks active' (claims (claimed_state verdict state ∷ live))
  unfolding claimed_state
  claimed_state-Tracks active live state fresh t = elim (Bool-cases (ns_of state == "")) [
    | inl unknown ↦
        subst (λ (r : Tracker × ClaimResult). Tracks r.0 (claims (claimed_state r.1 state ∷ live)))
          (sym (claim_unknown json (ns_of state) state.network_opts active unknown))
          (subst (Tracks active)
            (sym (held_none (claimed_state claim_primary state) (claims live) (rw unknown refl))) t)
    | inr known ↦
        by_verdict (claim_netns_for_attack json (ns_of state) state.network_opts active).0
          (claim_netns_for_attack json (ns_of state) state.network_opts active).1 (ground arith)
          (claim-Tracks json (ns_of state) state.network_opts active (claims live)
            (ne_of_==-false (ns_of state) "" known) t).1
  ]
    where
      by_verdict :
          (active' : Tracker) (v : ClaimResult)
          → not (ns_of state == "") ≡ true
          → Tracks active' (taken v (claim_of state) (claims live))
          → Tracks active' (claims (claimed_state v state ∷ live))
      by_verdict a claim_primary k t' =
          subst (Tracks a) (sym (held_some (claimed_state claim_primary state) (claims live) k)) t'
      by_verdict a claim_shadow k t' =
          subst (Tracks a) (sym (held_some (claimed_state claim_shadow state) (claims live) k)) t'
      by_verdict a claim_passthrough k t' =
          subst (Tracks a) (sym (held_none state (claims live) (rw fresh refl))) t'
