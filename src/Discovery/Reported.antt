-- ===== src/Discovery/Reported.antt =====
-- What `DiscoverTargets` of extcontainer/discovery.go reports.
use mathlib.Core.List.{Memᴰ}
use mathlib.Core.List.Memᴰ.{head, tail}
use extension_container.Common.{
  String, Bool, true, false, List, [], ◌∷◌, ◌≡◌, refl, sym, ap, subst, ◌∙◌, if◌then◌else◌,
  Bool-cases, inl, inr, Result, ok, ◌>>=◌, context, ok_inj, contains_text, avoids,
}
use extension_container.Config.{Specification}
use extension_container.Targets.{Container, separator, get_container_target}
use extension_container.Discovery.{
  Target, Engine, ignore_container, map_target, targets_of, discover_targets,
}
use extension_container.Discovery.Hosts.{Resolver, get_hostname, name_of}
use extension_container.Discovery.Selectable.{map_target-selectable}

-- The container that a target is reported for.
abbrev pub Origin : Specification → Engine → String → String → List Container → Target → Type 0
Origin cfg engine hostname fqdn containers t =
    (c : Container) × Memᴰ c containers
    × (ignore_container cfg c ≡ false)
    × (t ≡ map_target engine c hostname fqdn (name_of engine.client.version))

later :
    (cfg : Specification) (engine : Engine) (hostname fqdn : String) (c : Container)
    (containers : List Container) (t : Target)
    → Origin cfg engine hostname fqdn containers t
    → Origin cfg engine hostname fqdn (c ∷ containers) t
later cfg engine hostname fqdn c containers t (d, listed, kept, e) = (d, tail listed, kept, e)

pub targets_of-origin :
    (cfg : Specification) (engine : Engine) (hostname fqdn : String) (containers : List Container)
    (t : Target)
    → Memᴰ t (targets_of cfg engine hostname fqdn containers)
    → Origin cfg engine hostname fqdn containers t
unfolding targets_of
targets_of-origin cfg engine hostname fqdn [] t m = elim m [ ]
targets_of-origin cfg engine hostname fqdn (c ∷ containers) t m =
    let rest = targets_of cfg engine hostname fqdn containers in
    let others = λ (n : Memᴰ t rest).
      later cfg engine hostname fqdn c containers t
        (targets_of-origin cfg engine hostname fqdn containers t n) in
    let target = map_target engine c hostname fqdn (name_of engine.client.version) in
    let split = λ (b : Bool). Memᴰ t (if b then rest else target ∷ rest) in
    elim (Bool-cases (ignore_container cfg c)) [
      | inl e ↦ others (subst split e m)
      | inr e ↦ elim (subst split e m) [ head same ↦ (c, head refl, e, same) | tail n ↦ others n ]
    ]

-- What the client reports under a container's id has this id and the same labels, and the id holds no
-- "://".
abbrev pub IsKnown : (String → Result Container) → Container → Type 0
IsKnown info c =
    ((d : Container) × (info c.id ≡ ok d) × (d.id ≡ c.id) × (d.labels ≡ c.labels))
    × (contains_text separator c.id ≡ false)

-- Each target that the discovery reports, where no attributes are excluded, is accepted by the
-- actions: the attributes of the target lead back to one of the listed containers, as the client
-- of the engine reports it, whatever its labels are, and its namespace is allowed. What the client
-- reports under the id of a listed container has this id and the same labels, the ids hold no "://",
-- and the name of the runtime no colon.
pub discovered_selectable :
    (cfg : Specification) (engine : Engine) (r : Resolver)
    (init_hostname os_hostname : Result String) (containers : List Container)
    (targets : List Target)
    → engine.client.list ≡ ok containers
    → ((c : Container) → Memᴰ c containers → IsKnown engine.client.info c)
    → avoids ":" engine.client.runtime ≡ true
    → discover_targets cfg engine r init_hostname os_hostname (λ ts _. ts) ≡ ok targets
    → (t : Target) → Memᴰ t targets
    → (c : Container) × Memᴰ c containers
      × ((d : Container) × (engine.client.info c.id ≡ ok d)
          × (get_container_target cfg engine.client.info t.attributes ≡ ok (d, c.id)))
unfolding discover_targets
discovered_selectable cfg engine r init_hostname os_hostname containers targets listed known colon
      found t m =
    let hostnames = get_hostname cfg r init_hostname os_hostname in
    let same = ok_inj (
      sym (
        ap
          (λ l. context "failed to list containers" l >>= λ cs.
            ok (targets_of cfg engine hostnames.0 hostnames.1 cs))
          listed)
      ∙ found) in
    let (c, mem, kept, e) =
      targets_of-origin cfg engine hostnames.0 hostnames.1 containers t
        (subst (λ (ts : List Target). Memᴰ t ts) (sym same) m) in
    let ((d, reported, id, labels), plain) = known c mem in
    let selected =
      map_target-selectable cfg engine engine.client.info c d hostnames.0 hostnames.1
        (name_of engine.client.version) kept plain colon reported labels in
    (
      c,
      mem,
      (
        d,
        reported,
        ap (λ (k : Target). get_container_target cfg engine.client.info k.attributes) e
            ∙ selected
            ∙ ap (λ (i : String). ok (d, i)) id,
      ),
    )
