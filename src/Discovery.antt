-- ===== src/Discovery.antt =====
-- extcontainer/discovery.go: the targets that the discovery reports. The engine's client, the parser of
-- image names, the resolver and the exclusion of attributes are called; labels, a map in Go, are
-- taken in the order of their list.
pub mod Hosts
pub mod Selectable
pub mod Reported
pub mod Exact
pub mod Described
pub mod Schedule
use extension_container.Common.{
  String, ◌<>◌, Bool, true, false, ◌||◌, Option, none, some, List, [], ◌∷◌, ◌++◌, ◌==◌,
  if◌then◌else◌, Result, ok, err, panic, ◌>>=◌, context, strip_prefix, trim_prefix,
}
use extension_container.Common.Dicts.{Dict, lookup, insert}
use extension_container.Config.{Specification}
use extension_container.Engines.{Client}
use extension_container.Discovery.Hosts.{Resolver, get_hostname, name_of}
use extension_container.Targets.{Container, add_prefix, has_disallowed_k8s_namespace_label}

pub record Target : Type 0 where
  pub id : String
  pub label : String
  pub target_type : String
  pub attributes : Dict (List String)

abbrev pub target_id : String
target_id = "com.steadybit.extension_container.container"

-- What the parser of image names reads; a part that is missing is empty.
pub record ImageReference : Type 0 where
  pub repository : String
  pub registry : String
  pub tag : String

-- The client of the container engine, and the parser of image names.
pub record Engine : Type 0 where
  pub client : Client
  pub parse_image : String → Option ImageReference

-- The value of a key, empty where it is missing.
abbrev pub or_empty : Option String → String
or_empty none = ""
or_empty (some s) = s

unfoldable pub label_of : Container → String → String
unfolding lookup
label_of c key = or_empty (lookup key c.labels)

unfoldable pub ignore_container : Specification → Container → Bool
unfolding has_disallowed_k8s_namespace_label label_of
ignore_container cfg c =
    if has_disallowed_k8s_namespace_label cfg c.labels
    then true
    else if label_of c "io.cri-containerd.kind" == "sandbox"
    then true
    else if label_of c "io.kubernetes.docker.type" == "podsandbox"
    then true
    else if label_of c "com.amazonaws.ecs.container-name" == "~internal~ecs~pause"
    then true
    else if cfg.disable_discovery_excludes
    then false
    else (label_of c "steadybit.com.discovery-disabled" == "true")
      || ((label_of c "steadybit.com/discovery-disabled" == "true")
          || (label_of c "com.steadybit.agent" == "true"))

abbrev pub Attributes : Type 0
Attributes = Dict (List String)

abbrev values_of : Option (List String) → List String
values_of none = []
values_of (some vs) = vs

-- `attributes[key] = append(attributes[key], value)`.
unfoldable pub append_value : Attributes → String → String → Attributes
unfolding lookup insert
append_value attributes key value =
    insert key (values_of (lookup key attributes) ++ value ∷ []) attributes

unfoldable pub label_key : String → String
label_key key =
    if key == "io.kubernetes.pod.name"
    then "k8s.pod.name"
    else if key == "io.kubernetes.pod.namespace"
    then "k8s.namespace"
    else if key == "io.kubernetes.container.name"
    then "k8s.container.name"
    else "container.label." <> key

-- The attribute that a label becomes.
unfoldable pub attribute_key : String → String
unfolding strip_prefix label_key
attribute_key key = elim (strip_prefix "app.kubernetes.io/" key) [
  | some after ↦ "k8s.app." <> after
  | none ↦ label_key key
]

unfoldable pub add_label_or_k8s_attribute : Attributes → String → String → Attributes
unfolding append_value attribute_key
add_label_or_k8s_attribute attributes key value = append_value attributes (attribute_key key) value

unfoldable pub add_labels : Dict String → Attributes → Attributes
unfolding add_label_or_k8s_attribute
add_labels [] attributes = attributes
add_labels ((key, value) ∷ labels) attributes =
    add_labels labels (add_label_or_k8s_attribute attributes key value)

-- One value, where it is not empty.
abbrev pub given : String → String → Attributes → Attributes
given key value attributes = if value == "" then attributes else insert key (value ∷ []) attributes

abbrev pub with_image : Option ImageReference → Attributes → Attributes
with_image none attributes = attributes
with_image (some ref) attributes = given "container.image.tag" ref.tag (
    given "container.image.registry" ref.registry
      (given "container.image.repository" ref.repository attributes))

abbrev pub with_host : String → String → String → Attributes → Attributes
with_host hostname fqdn name attributes =
    if hostname == ""
    then attributes
    else insert "container.host/name" ((hostname <> ("/" <> name)) ∷ []) (
        insert "host.domainname" (fqdn ∷ []) (
          insert "host.hostname" (hostname ∷ [])
            (insert "container.host" (hostname ∷ []) attributes)))

-- The attributes before those of the labels.
unfoldable pub own_attributes : Engine → Container → String → String → String → String → Attributes
unfolding add_prefix insert
own_attributes engine c name hostname fqdn version = given "container.engine.version" version (
    insert "container.engine" (engine.client.runtime ∷ []) (
      insert "container.id.stripped" (c.id ∷ []) (
        insert "container.id" (add_prefix c.id engine.client.runtime ∷ []) (
          with_image (engine.parse_image c.image_name) (
            insert "container.image" (c.image_name ∷ [])
              (with_host hostname fqdn name (insert "container.name" (name ∷ []) [])))))))

target_label : Container → String → String
unfolding label_of
target_label c name =
    if name == ""
    then (if label_of c "io.kubernetes.container.name" == ""
        then c.id
        else label_of c "io.kubernetes.pod.namespace"
          <> ("_"
              <> (label_of c "io.kubernetes.pod.name"
                  <> ("_" <> label_of c "io.kubernetes.container.name"))))
    else name

unfoldable pub map_target : Engine → Container → String → String → String → Target
unfolding target_label own_attributes add_labels trim_prefix
map_target engine c hostname fqdn version =
    let name = trim_prefix "/" c.name in
    record {
      id = c.id;
      label = target_label c name;
      target_type = target_id;
      attributes = add_labels c.labels (own_attributes engine c name hostname fqdn version);
    }

-- The targets of the containers that are not ignored.
unfoldable pub targets_of : Specification → Engine → String → String → List Container → List Target
unfolding ignore_container map_target name_of
targets_of cfg engine hostname fqdn [] = []
targets_of cfg engine hostname fqdn (c ∷ containers) =
    let rest = targets_of cfg engine hostname fqdn containers in
    if ignore_container cfg c
    then rest
    else map_target engine c hostname fqdn (name_of engine.client.version) ∷ rest

-- `init_hostname` and `os_hostname` are what the first process and the operating system answer,
-- `exclude` is `ApplyAttributeExcludes`.
unfoldable pub discover_targets :
    Specification
    → Engine
    → Resolver
    → Result String
    → Result String
    → (List Target → List String → List Target)
    → Result (List Target)
unfolding get_hostname targets_of
discover_targets cfg engine r init_hostname os_hostname exclude =
    let hostnames = get_hostname cfg r init_hostname os_hostname in
    context "failed to list containers" engine.client.list >>= λ containers. ok (
      exclude (targets_of cfg engine hostnames.0 hostnames.1 containers)
        cfg.discovery_attributes_excludes)
