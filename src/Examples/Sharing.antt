-- ===== src/Examples/Sharing.antt =====
-- Runs of the tracker of extcontainer/netns_dedup.go.
use extension_container.Common.{none, List, [], ◌≡◌, refl, ne_of_==-false}
use extension_container.Common.Dicts.{lookup}
use extension_container.Netns.{Tracker, claim_netns_for_attack, release_netns_for_attack}
use extension_container.Netns.Normalize.{normalize_opts_for_dedup}
use extension_container.Netns.Claims.{Claim, Tracks, Decides, taken, give_up, claim-Tracks}
use extension_container.Netns.Releases.{
  release-Tracks, give_up-OneLess, Tracks-empty, Reached, Reached-Tracks, fully_released_forgets,
}
use extension_container.Examples.Encoding.{json}

claim-Tracks_example :
    let (after, verdict) = claim_netns_for_attack json "4026" "first" [] in
    let c : Claim = record { id = "4026"; opts = normalize_opts_for_dedup json "first" } in
    Decides verdict "4026" (normalize_opts_for_dedup json "first") []
    × Tracks after (taken verdict c [])
claim-Tracks_example =
    claim-Tracks json "4026" "first" [] [] (ne_of_==-false "4026" "" refl) Tracks-empty

abbrev first_claim : Claim
first_claim = record { id = "4026"; opts = normalize_opts_for_dedup json "first" }

-- The tracker after one claim and the live claims, and after its release.
abbrev after_claim : Tracker
after_claim = (claim_netns_for_attack json "4026" "first" []).0

abbrev live_claims : List Claim
live_claims = taken (claim_netns_for_attack json "4026" "first" []).1 first_claim []

claimed : Reached json after_claim live_claims
claimed = Reached.claimed "4026" "first" (ne_of_==-false "4026" "" refl) Reached.fresh

release-Tracks_example :
    Tracks (release_netns_for_attack "4026" after_claim) (give_up "4026" live_claims)
release-Tracks_example =
    release-Tracks "4026" after_claim live_claims (give_up "4026" live_claims)
      (ne_of_==-false "4026" "" refl) (give_up-OneLess "4026" live_claims)
      (Reached-Tracks json claimed)

released : Reached json (release_netns_for_attack "4026" after_claim) (give_up "4026" live_claims)
released = Reached.released "4026" (ne_of_==-false "4026" "" refl) claimed

fully_released_forgets_example : lookup "4026" (release_netns_for_attack "4026" after_claim) ≡ none
unfolding claim_netns_for_attack lookup
fully_released_forgets_example = fully_released_forgets json "4026" released refl
