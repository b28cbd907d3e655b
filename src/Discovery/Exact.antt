-- ===== src/Discovery/Exact.antt =====
-- Which containers `DiscoverTargets` of extcontainer/discovery.go reports, and the host that it
-- reports them on.
use mathlib.Core.List.{Memᴰ}
use extension_container.Common.{
  String, false, List, [], ◌∷◌, ◌==◌, ◌≡◌, refl, sym, ap, subst, ◌∙◌, if◌then◌else◌, Bool-cases,
  inl, inr, Result, ok, ◌>>=◌, context, ok_inj, map, none, some, strip_prefix, trim_prefix,
}
use extension_container.Common.Dicts.{lookup, insert, lookup-insert}
use extension_container.Config.{Specification}
use extension_container.Targets.{Container}
use extension_container.Discovery.{
  Target, Engine, Attributes, ignore_container, map_target, targets_of, discover_targets, with_host,
  own_attributes,
}
use extension_container.Discovery.Hosts.{
  Resolver, get_hostname, name_of, or_else, get_hostname-named,
}
use extension_container.Discovery.Selectable.{NoLabel, NoOwn, lookup-add_labels, own_lookup}
use extension_container.Discovery.Reported.{targets_of-origin}

-- The ids of the containers that are not ignored, in the order of the list.
abbrev pub kept_ids : Specification → List Container → List String
kept_ids cfg [] = []
kept_ids cfg (c ∷ containers) =
    let rest = kept_ids cfg containers in if ignore_container cfg c then rest else c.id ∷ rest

abbrev pub ids : List Target → List String
ids ts = map (λ (t : Target). t.id) ts

targets_of-ids :
    (cfg : Specification) (engine : Engine) (hostname fqdn : String) (containers : List Container)
    → ids (targets_of cfg engine hostname fqdn containers) ≡ kept_ids cfg containers
unfolding targets_of map_target
targets_of-ids cfg engine hostname fqdn [] = refl
targets_of-ids cfg engine hostname fqdn (c ∷ containers) =
    elim (Bool-cases (ignore_container cfg c)) [
      | inl e ↦ rw (e) (targets_of-ids cfg engine hostname fqdn containers)
      | inr e ↦ rw (e) (ap (λ is. c.id ∷ is) (targets_of-ids cfg engine hostname fqdn containers))
    ]

-- The host of a target, by its name and its full name.
abbrev pub Hosted : String → String → Target → Type 0
Hosted hostname fqdn t =
    (lookup "container.host" t.attributes ≡ some (hostname ∷ []))
    × (lookup "host.domainname" t.attributes ≡ some (fqdn ∷ []))

with_host-named :
    (hostname fqdn name : String) (attributes : Attributes)
    → (hostname == "") ≡ false
    → (lookup "container.host" (with_host hostname fqdn name attributes) ≡ some (hostname ∷ []))
      × (lookup "host.domainname" (with_host hostname fqdn name attributes) ≡ some (fqdn ∷ []))
with_host-named hostname fqdn name attributes h = (
  rw
      (
        h,
        lookup-insert "container.host" "container.host/name" _ _,
        lookup-insert "container.host" "host.domainname" _ _,
        lookup-insert "container.host" "host.hostname" _ _,
        lookup-insert "container.host" "container.host" _ _,
      )
      refl,
  rw
      (
        h,
        lookup-insert "host.domainname" "container.host/name" _ _,
        lookup-insert "host.domainname" "host.domainname" _ _,
      )
      refl,
)

-- Under a key that is the host's alone.
HostKey : String → Type 0
HostKey t = NoLabel t × ((strip_prefix "k8s.app." t ≡ none) × NoOwn t)

reported_under :
    (t : String) (engine : Engine) (c : Container) (hostname fqdn version : String)
    → HostKey t
    → lookup t (map_target engine c hostname fqdn version).attributes
      ≡ lookup t (
          with_host hostname fqdn
            (trim_prefix "/" c.name)
            (insert "container.name" (trim_prefix "/" c.name ∷ []) []))
unfolding map_target HostKey
reported_under t engine c hostname fqdn version (n, (app, o)) =
    lookup-add_labels c.labels
      (own_attributes engine c (trim_prefix "/" c.name) hostname fqdn version) t n app
    ∙ own_lookup t engine c (trim_prefix "/" c.name) hostname fqdn version o

host_key : HostKey "container.host"
unfolding HostKey strip_prefix
host_key = ((refl, refl), (refl, (refl, (refl, (refl, (refl, (refl, (refl, (refl, refl)))))))))

domain_key : HostKey "host.domainname"
unfolding HostKey strip_prefix
domain_key = ((refl, refl), (refl, (refl, (refl, (refl, (refl, (refl, (refl, (refl, refl)))))))))

map_target-Hosted :
    (engine : Engine) (c : Container) (hostname fqdn version : String)
    → (hostname == "") ≡ false
    → Hosted hostname fqdn (map_target engine c hostname fqdn version)
map_target-Hosted engine c hostname fqdn version h =
    let name = trim_prefix "/" c.name in
    let own = with_host-named hostname fqdn name (insert "container.name" (name ∷ []) []) h in
    (
      reported_under "container.host" engine c hostname fqdn version host_key ∙ own.0,
      reported_under "host.domainname" engine c hostname fqdn version domain_key ∙ own.1,
    )

-- A name of the host that is not empty, and the configured one where there is one.
abbrev pub Named : Specification → String → String → Type 0
Named cfg hostname fqdn =
    ((hostname == "") ≡ false) × ((fqdn == "") ≡ false) × (hostname ≡ or_else cfg.hostname hostname)

-- The discovery reports one target for each listed container that is not ignored, in the order of
-- the list and under its id, where no attributes are excluded; and all of them on one host, whose name
-- and full name are not empty, whatever the operating system and the resolver answer and whatever the
-- labels of the containers are, and whose name is the configured one where there is one.
pub discovered_exactly :
    (cfg : Specification) (engine : Engine) (r : Resolver)
    (init_hostname os_hostname : Result String) (containers : List Container)
    (targets : List Target)
    → engine.client.list ≡ ok containers
    → discover_targets cfg engine r init_hostname os_hostname (λ ts _. ts) ≡ ok targets
    → (ids targets ≡ kept_ids cfg containers)
      × ((hostname : String) × (fqdn : String) × Named cfg hostname fqdn
          × ((t : Target) → Memᴰ t targets → Hosted hostname fqdn t))
unfolding discover_targets
discovered_exactly cfg engine r init_hostname os_hostname containers targets listed found =
    let hostnames = get_hostname cfg r init_hostname os_hostname in
    let same = ok_inj (
      sym (
        ap
          (λ l. context "failed to list containers" l >>= λ cs.
            ok (targets_of cfg engine hostnames.0 hostnames.1 cs))
          listed)
      ∙ found) in
    let ((host, domain), configured) = get_hostname-named cfg r init_hostname os_hostname in
    (
      ap ids (sym same) ∙ targets_of-ids cfg engine hostnames.0 hostnames.1 containers,
      (
        hostnames.0,
        hostnames.1,
        (host, domain, configured),
        λ t m.
            let (c, _, _, e) =
              targets_of-origin cfg engine hostnames.0 hostnames.1 containers t
                (subst (λ (ts : List Target). Memᴰ t ts) (sym same) m) in
            subst (Hosted hostnames.0 hostnames.1) (sym e) (
              map_target-Hosted engine c hostnames.0 hostnames.1 (name_of engine.client.version)
                host),
      ),
    )
