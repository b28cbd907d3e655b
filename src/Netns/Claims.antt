-- ===== src/Netns/Claims.antt =====
-- The tracker of extcontainer/netns_dedup.go against its contract: a list of the claims that are
-- live, in no particular order.
use extension_container.Common.{
  ℕ, suc, ◌+◌, ◌<◌, String, false, Option, none, some, List, [], ◌∷◌, ◌==◌, ◌≡◌, ◌≢◌, refl, arith,
  if◌then◌else◌, eq_iff, Bool-cases, Option-cases, inl, inr, sym, ◌∙◌, subst, eq_refl,
  ne_of_==-false, ==-false,
}
use extension_container.Common.Dicts.{lookup, insert, lookup-insert}
use extension_container.Netns.{
  Tracker, NetnsEntry, ClaimResult, claim_primary, claim_shadow, claim_passthrough,
  claim_netns_for_attack,
}
use extension_container.Netns.Normalize.{Json, normalize_opts_for_dedup}

-- A live claim: the namespace, and the normalised options under which it was claimed.
pub record Claim : Type 0 where
  pub id : String
  pub opts : String

abbrev pub claims_on : String → List Claim → ℕ
claims_on id [] = 0
claims_on id (c ∷ live) = let rest = claims_on id live in if c.id == id then suc rest else rest

abbrev pub AllUnder : String → String → List Claim → Type 0
AllUnder id opts [] = Unit {0}
AllUnder id opts (c ∷ live) = (c.id ≡ id → c.opts ≡ opts) × AllUnder id opts live

-- What the entry of a namespace says of the live claims.
abbrev pub Agrees : Option NetnsEntry → String → List Claim → Type 0
Agrees none id live = claims_on id live ≡ 0
Agrees (some e) id live = (e.count ≡ claims_on id live) × (0 < e.count) × AllUnder id e.opts live

abbrev pub Tracks : Tracker → List Claim → Type 0
Tracks active live = (id : String) → Agrees (lookup id active) id live

-- The claims that are left when one claim on the namespace is given up.
abbrev pub give_up : String → List Claim → List Claim
give_up id [] = []
give_up id (c ∷ live) = let rest = give_up id live in if c.id == id then live else c ∷ rest

-- The verdict of the contract.
abbrev pub Decides : ClaimResult → String → String → List Claim → Type 0
Decides claim_primary id opts live = claims_on id live ≡ 0
Decides claim_shadow id opts live = (0 < claims_on id live) × AllUnder id opts live
Decides claim_passthrough id opts live = (0 < claims_on id live) × ¬ AllUnder id opts live

abbrev pub taken : ClaimResult → Claim → List Claim → List Claim
taken claim_primary c live = c ∷ live
taken claim_shadow c live = c ∷ live
taken claim_passthrough c live = live

pub AllUnder-none :
    (id opts : String) (live : List Claim) → claims_on id live ≡ 0 → AllUnder id opts live
AllUnder-none id opts [] h = tt
AllUnder-none id opts (c ∷ live) h = ground (arith, eq_iff c.id id, AllUnder-none id opts live)

AllUnder-unique :
    (id a b : String) (live : List Claim)
    → 0 < claims_on id live
    → AllUnder id a live
    → AllUnder id b live
    → a ≡ b
AllUnder-unique id a b [] h p q = absurd (omega arith)
AllUnder-unique id a b (c ∷ live) h p q = elim (Bool-cases (c.id == id)) [
  | inl same ↦ let e = (eq_iff c.id id).0 same in sym (p.0 e) ∙ q.0 e
  | inr other ↦ AllUnder-unique id a b live (ground arith) p.1 q.1
]

Agrees-other :
    (o : Option NetnsEntry) (j : String) (c : Claim) (live : List Claim)
    → (c.id == j) ≡ false
    → Agrees o j live
    → Agrees o j (c ∷ live)
Agrees-other none j c live h a = ground arith
Agrees-other (some e) j c live h a =
    rw h (a.0, a.1, ((λ same. absurd (ne_of_==-false c.id j h same)), a.2))

-- A step that changes the entry of one namespace only.
pub Tracks-update :
    (id : String) (active after : Tracker) (live left : List Claim)
    → Agrees (lookup id after) id left
    → ((j : String)
        → (id == j) ≡ false
        → (lookup j after ≡ lookup j active)
          × ((o : Option NetnsEntry) → Agrees o j live → Agrees o j left))
    → Tracks active live
    → Tracks after left
Tracks-update id active after live left here there t j = elim (Bool-cases (id == j)) [
  | inl same ↦ subst (λ k. Agrees (lookup k after) k left) ((eq_iff id j).0 same) here
  | inr other ↦
      let (e, keep) = there j other in
      subst (λ o. Agrees o j left) (sym e) (keep (lookup j active) (t j))
]

Tracks-insert :
    (c : Claim) (e : NetnsEntry) (active : Tracker) (live : List Claim)
    → Tracks active live
    → Agrees (some e) c.id (c ∷ live)
    → Tracks (insert c.id e active) (c ∷ live)
Tracks-insert c e active live t a =
    Tracks-update c.id active (insert c.id e active) live (c ∷ live)
      (rw (lookup-insert c.id c.id e active, eq_refl c.id) a)
      (λ j other.
        ((rw (lookup-insert j c.id e active, other) refl), (λ o. Agrees-other o j c live other)))
      t

abbrev claim_of : String → String → Claim
claim_of id opts = record { id = id; opts = opts }

-- The three verdicts, each with the entry that it meets and the tracker that it leaves.
Tracks-primary :
    (id opts : String) (active : Tracker) (live : List Claim)
    → Agrees none id live
    → Tracks active live
    → Tracks (insert id (record { count = 1; opts = opts }) active) (claim_of id opts ∷ live)
Tracks-primary id opts active live a t =
    Tracks-insert (claim_of id opts) _ active live t
      (rw (eq_refl id) (omega (arith, a), omega arith, ((λ _. refl), AllUnder-none id opts live a)))

Tracks-shadow :
    (id : String) (e : NetnsEntry) (active : Tracker) (live : List Claim)
    → Agrees (some e) id live
    → Tracks active live
    → Tracks (insert id (record e { count = e.count + 1 }) active) (claim_of id e.opts ∷ live)
Tracks-shadow id e active live a t =
    Tracks-insert (claim_of id e.opts) _ active live t
      (rw (eq_refl id) (omega (arith, a.0), omega arith, ((λ _. refl), a.2)))

module _ (json : Json) where
  -- On a known namespace the verdict is what the live claims demand, whatever the order in which
  -- they were made: primary if there is none, shadow if all are under the same normalised options,
  -- passthrough otherwise. The tracker then stands for the live claims with the one just taken.
  pub claim-Tracks :
      (id opts : String) (active : Tracker) (live : List Claim)
      → id ≢ ""
      → Tracks active live
      → let (after, verdict) = claim_netns_for_attack json id opts active in
        let c : Claim = record { id = id; opts = normalize_opts_for_dedup json opts } in
        Decides verdict id (normalize_opts_for_dedup json opts) live
        × Tracks after (taken verdict c live)
  unfolding claim_netns_for_attack
  claim-Tracks id opts active live h t = elim (Option-cases (lookup id active)) [
    | inl free ↦
        let a = subst (λ o. Agrees o id live) free (t id) in
        rw (==-false id "" h, free, claim_netns_for_attack) (a, Tracks-primary id _ active live a t)
    | inr (e, held) ↦
        let a = subst (λ o. Agrees o id live) held (t id) in
        let new = normalize_opts_for_dedup json opts in
        elim (Bool-cases (e.opts == new)) [
          | inl same ↦
              let eq = (eq_iff e.opts new).0 same in
              rw (==-false id "" h, held, claim_netns_for_attack, same)
                (
                  (omega (arith, a.0, a.1), subst (λ o. AllUnder id o live) eq a.2),
                  subst
                      (λ o.
                        Tracks (insert id (record e { count = e.count + 1 }) active)
                          (claim_of id o ∷ live))
                      eq (Tracks-shadow id e active live a t),
                )
          | inr differs ↦
              rw (==-false id "" h, held, claim_netns_for_attack, differs)
                (
                  (
                    omega (arith, a.0, a.1),
                    λ under.
                        ne_of_==-false e.opts new differs
                          (AllUnder-unique id e.opts new live (omega (arith, a.0, a.1)) a.2 under),
                  ),
                  t,
                )
        ]
  ]
