-- ===== src/Netns/Releases.antt =====
-- Releases of extcontainer/netns_dedup.go against the same contract, and whole histories of claims
-- and releases.
use extension_container.Common.{
  true, ◌-◌, String, false, Option, none, some, List, [], ◌∷◌, ◌==◌, ◌≡◌, ◌≢◌, refl, arith, leb,
  eq_iff, Bool-cases, Option-cases, inl, inr, subst, eq_refl, ==-false,
}
use extension_container.Common.Dicts.{lookup, erase, lookup-insert, lookup-erase}
use extension_container.Netns.{
  Tracker, NetnsEntry, claim_primary, claim_netns_for_attack, release_netns_for_attack,
}
use extension_container.Netns.Normalize.{Json, normalize_opts_for_dedup}
use extension_container.Netns.Claims.{
  Claim, claims_on, AllUnder, Agrees, Tracks, give_up, taken, Tracks-update, claim-Tracks,
}

claims_on-give_up_self :
    (id : String) (live : List Claim) → claims_on id (give_up id live) ≡ claims_on id live - 1
claims_on-give_up_self id [] = refl
claims_on-give_up_self id (c ∷ live) = ground (arith, claims_on-give_up_self id live)

claims_on-give_up_other :
    (id j : String) (live : List Claim)
    → (id == j) ≡ false
    → claims_on j (give_up id live) ≡ claims_on j live
claims_on-give_up_other id j [] h = refl
claims_on-give_up_other id j (c ∷ live) h =
    ground (arith, claims_on-give_up_other id j live, eq_iff c.id id, eq_iff c.id j, eq_iff id j)

AllUnder-give_up :
    (id j opts : String) (live : List Claim)
    → AllUnder j opts live
    → AllUnder j opts (give_up id live)
AllUnder-give_up id j opts [] a = tt
AllUnder-give_up id j opts (c ∷ live) a = elim (Bool-cases (c.id == id)) [
  | inl same ↦ rw same a.1
  | inr other ↦ rw other (a.0, AllUnder-give_up id j opts live a.1)
]

-- `left` is `live` with one claim on the namespace less, if it had any.
pub record OneLess (id : String) (live left : List Claim) : Type 0 where
  pub fewer : claims_on id left ≡ claims_on id live - 1
  pub others : (j : String) → (id == j) ≡ false → claims_on j left ≡ claims_on j live
  pub under : (j opts : String) → AllUnder j opts live → AllUnder j opts left

pub give_up-OneLess : (id : String) (live : List Claim) → OneLess id live (give_up id live)
give_up-OneLess id live = record {
  fewer = claims_on-give_up_self id live;
  others = λ j h. claims_on-give_up_other id j live h;
  under = λ j opts a. AllUnder-give_up id j opts live a;
}

Agrees-others :
    (o : Option NetnsEntry) (id j : String) (live left : List Claim)
    → OneLess id live left
    → (id == j) ≡ false
    → Agrees o j live
    → Agrees o j left
Agrees-others none id j live left l h a = omega (arith, l.others j h, a)
Agrees-others (some e) id j live left l h a =
    (omega (arith, l.others j h, a.0), a.1, l.under j e.opts a.2)

-- A release on a known namespace keeps the tracker in step with the claims when one claim on that
-- namespace is given up, whichever it is; without a live claim it changes nothing.
pub release-Tracks :
    (id : String) (active : Tracker) (live left : List Claim)
    → id ≢ ""
    → OneLess id live left
    → Tracks active live
    → Tracks (release_netns_for_attack id active) left
unfolding release_netns_for_attack
release-Tracks id active live left h l t = elim (Option-cases (lookup id active)) [
  | inl free ↦
      let a = subst (λ o. Agrees o id live) free (t id) in
      rw (==-false id "" h, free, release_netns_for_attack)
        (Tracks-update id active active live left (rw free (omega (arith, l.fewer, a)))
          (λ j other. (refl, (λ o. Agrees-others o id j live left l other))) t)
  | inr (e, held) ↦
      let a = subst (λ o. Agrees o id live) held (t id) in
      elim (Bool-cases (leb e.count 1)) [
        | inl last ↦
            rw (==-false id "" h, held, release_netns_for_attack, last)
              (Tracks-update id active (erase id active) live left
                (rw (lookup-erase id id active, eq_refl id) (ground (arith, l.fewer, a.0)))
                (λ j other. (
                  (rw (lookup-erase j id active, other) refl),
                  (λ o. Agrees-others o id j live left l other),
                ))
                t)
        | inr more ↦
            rw (==-false id "" h, held, release_netns_for_attack, more)
              (Tracks-update id active _ live left
                (rw (lookup-insert id id _ active, eq_refl id)
                  (ground (arith, l.fewer, a.0), ground arith, l.under id e.opts a.2))
                (λ j other. (
                  (rw (lookup-insert j id _ active, other) refl),
                  (λ o. Agrees-others o id j live left l other),
                ))
                t)
      ]
]

-- The trackers that any history of claims and releases on known namespaces leads to, with the
-- claims that are live after it.
pub data Reached (json : Json) : Tracker → List Claim → Type 0 where
  fresh : Reached json [] []
  claimed :
      (id opts : String) {active : Tracker} {live : List Claim}
      → id ≢ ""
      → Reached json active live
      → Reached json (claim_netns_for_attack json id opts active).0 (
          taken
            (claim_netns_for_attack json id opts active).1
            (record { id = id; opts = normalize_opts_for_dedup json opts })
            live)
  released :
      (id : String) {active : Tracker} {live : List Claim}
      → id ≢ ""
      → Reached json active live
      → Reached json (release_netns_for_attack id active) (give_up id live)

pub Tracks-empty : Tracks [] []
unfolding lookup
Tracks-empty id = refl

-- Every history keeps the counters equal to the live claims, and all claims of a namespace under
-- the same options.
pub Reached-Tracks :
    (json : Json) {active : Tracker} {live : List Claim}
    → Reached json active live
    → Tracks active live
Reached-Tracks json fresh = Tracks-empty
Reached-Tracks json (claimed id opts {active} {live} h r) =
    (claim-Tracks json id opts active live h (Reached-Tracks json r)).1
Reached-Tracks json (released id {active} {live} h r) =
    release-Tracks id active live (give_up id live) h (give_up-OneLess id live)
      (Reached-Tracks json r)

pub none_of_Agrees :
    (o : Option NetnsEntry) (id : String) (live : List Claim)
    → claims_on id live ≡ 0
    → Agrees o id live
    → o ≡ none
none_of_Agrees none id live z a = refl
none_of_Agrees (some e) id live z a = absurd (omega (arith, a.0, a.1, z))

-- Once every claim of a namespace is given up, however claims and releases were interleaved, the
-- tracker has forgotten it.
pub fully_released_forgets :
    (json : Json) (id : String) {active : Tracker} {live : List Claim}
    → Reached json active live
    → claims_on id live ≡ 0
    → lookup id active ≡ none
fully_released_forgets json id {active} {live} r z =
    none_of_Agrees (lookup id active) id live z (Reached-Tracks json r id)

-- A target whose namespace is not known stays outside the tracker.
pub release_unknown :
    (id : String) (active : Tracker)
    → (id == "") ≡ true
    → release_netns_for_attack id active ≡ active
unfolding release_netns_for_attack
release_unknown id active h = rw h

pub claim_unknown :
    (json : Json) (id opts : String) (active : Tracker)
    → (id == "") ≡ true
    → claim_netns_for_attack json id opts active ≡ (active, claim_primary)
unfolding claim_netns_for_attack
claim_unknown json id opts active h = rw h
