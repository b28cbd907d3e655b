-- ===== src/Discovery/Selectable.antt =====
-- What extcontainer/discovery.go reports, `getContainerTarget` of extcontainer/common.go accepts.
use extension_container.Common.{
  String, ◌<>◌, Bool, true, false, Option, none, some, [], ◌∷◌, ◌==◌, ◌≡◌, ◌≢◌, refl, sym, ap, ◌∙◌,
  arith, if◌then◌else◌, Bool-cases, Option-cases, inl, inr, Result, ok, strip_prefix, trim_prefix,
  strip_prefix-append, contains_text, avoids, ==-false,
}
use extension_container.Common.Dicts.{Dict, lookup, insert, lookup-insert}
use extension_container.Config.{Specification}
use extension_container.Targets.{
  Container, separator, add_prefix, has_disallowed_k8s_namespace_label, get_container_target,
}
use extension_container.Targets.Selection.{get_container_target-accepts}
use extension_container.Targets.Prefixes.{remove_prefix-add_prefix}
use extension_container.Discovery.{
  Engine, ImageReference, Attributes, ignore_container, attribute_key, label_key, append_value,
  add_label_or_k8s_attribute, add_labels, given, with_image, with_host, own_attributes, map_target,
}

-- A text with a prefix is not one that lacks it.
prefixed-ne : (p rest t : String) → strip_prefix p t ≡ none → p <> rest ≢ t
prefixed-ne p rest t lacks e =
    absurd (cc (sym (strip_prefix-append p rest) ∙ ap (strip_prefix p) e ∙ lacks))

-- A key that no label becomes: the one of the container's id, or of its label.
abbrev pub NoLabel : String → Type 0
NoLabel t = (strip_prefix "container.label." t ≡ none) × (strip_prefix "k8s." t ≡ none)

either-ne : (b : Bool) (x y t : String) → x ≢ t → y ≢ t → (if b then x else y) ≢ t
either-ne true x y t p q = p
either-ne false x y t p q = q

label_key-ne : (key t : String) → NoLabel t → label_key key ≢ t
unfolding label_key
label_key-ne key t (plain, k8s) =
    either-ne (key == "io.kubernetes.pod.name") _ _ t (prefixed-ne "k8s." "pod.name" t k8s) (
      either-ne (key == "io.kubernetes.pod.namespace") _ _ t (prefixed-ne "k8s." "namespace" t k8s)
        (either-ne (key == "io.kubernetes.container.name") _ _ t
          (prefixed-ne "k8s." "container.name" t k8s) (prefixed-ne "container.label." key t plain)))

attribute_key-ne :
    (key t : String) → NoLabel t → strip_prefix "k8s.app." t ≡ none → attribute_key key ≢ t
unfolding attribute_key
attribute_key-ne key t n app = elim (Option-cases (strip_prefix "app.kubernetes.io/" key)) [
  | inl other ↦ λ e. label_key-ne key t n (rw (← e, attribute_key, other) refl)
  | inr (after, app_label) ↦
      λ e. prefixed-ne "k8s.app." after t app (rw (← e, attribute_key, app_label) refl)
]

-- The labels leave the attributes alone that they do not name.
pub lookup-add_labels :
    (labels : Dict String) (attributes : Attributes) (t : String)
    → NoLabel t
    → strip_prefix "k8s.app." t ≡ none
    → lookup t (add_labels labels attributes) ≡ lookup t attributes
unfolding add_labels add_label_or_k8s_attribute append_value
lookup-add_labels [] attributes t n app = refl
lookup-add_labels ((key, value) ∷ labels) attributes t n app =
    lookup-add_labels labels (add_label_or_k8s_attribute attributes key value) t n app
    ∙ rw
        (
          lookup-insert t (attribute_key key) _ attributes,
          ==-false (attribute_key key) t (attribute_key-ne key t n app),
        )
        refl

-- What a key has that the attributes of the container itself may be set under.
lookup-given :
    (t key value : String) (attributes : Attributes)
    → (key == t) ≡ false
    → lookup t (given key value attributes) ≡ lookup t attributes
lookup-given t key value attributes other = elim (Bool-cases (value == "")) [
  | inl e ↦ rw (e) refl
  | inr e ↦ rw (e, lookup-insert t key (value ∷ []) attributes, other) refl
]

-- A key that neither the image nor the host is reported under.
abbrev NoImage : String → Type 0
NoImage t =
    (("container.image.tag" == t) ≡ false)
    × ((("container.image.registry" == t) ≡ false) × (("container.image.repository" == t) ≡ false))

lookup-with_image :
    (t : String) (o : Option ImageReference) (attributes : Attributes)
    → NoImage t
    → lookup t (with_image o attributes) ≡ lookup t attributes
lookup-with_image t none attributes n = refl
lookup-with_image t (some ref) attributes (tag, (registry, repository)) =
    lookup-given t "container.image.tag" ref.tag _ tag
    ∙ lookup-given t "container.image.registry" ref.registry _ registry
    ∙ lookup-given t "container.image.repository" ref.repository _ repository

lookup-with_host :
    (hostname fqdn name : String) (attributes : Attributes)
    → lookup "steadybit.label" (with_host hostname fqdn name attributes)
      ≡ lookup "steadybit.label" attributes
lookup-with_host hostname fqdn name attributes = elim (Bool-cases (hostname == "")) [
  | inl e ↦ rw (e) refl
  | inr e ↦
      rw
        (
          e,
          lookup-insert "steadybit.label" "container.host/name" _ _,
          lookup-insert "steadybit.label" "host.domainname" _ _,
          lookup-insert "steadybit.label" "host.hostname" _ _,
          lookup-insert "steadybit.label" "container.host" _ _,
        )
        refl
]

own_id :
    (engine : Engine) (c : Container) (name hostname fqdn version : String)
    → lookup "container.id" (own_attributes engine c name hostname fqdn version)
      ≡ some (add_prefix c.id engine.client.runtime ∷ [])
unfolding own_attributes
own_id engine c name hostname fqdn version =
    lookup-given "container.id" "container.engine.version" version _ refl
    ∙ lookup-insert "container.id" "container.engine" (engine.client.runtime ∷ []) _
    ∙ lookup-insert "container.id" "container.id.stripped" (c.id ∷ []) _
    ∙ lookup-insert "container.id" "container.id" (add_prefix c.id engine.client.runtime ∷ []) (
        with_image (engine.parse_image c.image_name) (
          insert "container.image" (c.image_name ∷ [])
            (with_host hostname fqdn name (insert "container.name" (name ∷ []) []))))

-- A key under which only the host is reported, or nothing.
abbrev pub NoOwn : String → Type 0
NoOwn t =
    (("container.engine.version" == t) ≡ false)
    × ((("container.engine" == t) ≡ false)
        × ((("container.id.stripped" == t) ≡ false)
            × ((("container.id" == t) ≡ false) × ((("container.image" == t) ≡ false) × NoImage t))))

pub own_lookup :
    (t : String) (engine : Engine) (c : Container) (name hostname fqdn version : String)
    → NoOwn t
    → lookup t (own_attributes engine c name hostname fqdn version)
      ≡ lookup t (with_host hostname fqdn name (insert "container.name" (name ∷ []) []))
unfolding own_attributes
own_lookup t engine c name hostname fqdn version (v, (e, (s, (i, (p, n))))) =
    lookup-given t "container.engine.version" version _ v
    ∙ rw
        (
          lookup-insert t "container.engine" (engine.client.runtime ∷ []) _,
          e,
          lookup-insert t "container.id.stripped" (c.id ∷ []) _,
          s,
          lookup-insert t "container.id" (add_prefix c.id engine.client.runtime ∷ []) _,
          i,
          lookup-with_image t (engine.parse_image c.image_name) _ n,
          lookup-insert t "container.image" (c.image_name ∷ []) _,
          p,
        )
        refl

own_label :
    (engine : Engine) (c : Container) (name hostname fqdn version : String)
    → lookup "steadybit.label" (own_attributes engine c name hostname fqdn version) ≡ none
unfolding lookup
own_label engine c name hostname fqdn version =
    own_lookup "steadybit.label" engine c name hostname fqdn version
      (refl, (refl, (refl, (refl, (refl, (refl, (refl, refl)))))))
    ∙ lookup-with_host hostname fqdn name (insert "container.name" (name ∷ []) [])
    ∙ lookup-insert "steadybit.label" "container.name" (name ∷ []) []

ignored_inv :
    (cfg : Specification) (c : Container)
    → ignore_container cfg c ≡ false
    → has_disallowed_k8s_namespace_label cfg c.labels ≡ false
unfolding ignore_container
ignored_inv cfg c h = ground arith

-- The target of a container that is not ignored leads back to it, whatever its labels
-- are: to what the runtime reports under its id, with the same labels.
pub map_target-selectable :
    (cfg : Specification) (engine : Engine) (info : String → Result Container) (c d : Container)
    (hostname fqdn version : String)
    → ignore_container cfg c ≡ false
    → contains_text separator c.id ≡ false
    → avoids ":" engine.client.runtime ≡ true
    → info c.id ≡ ok d
    → d.labels ≡ c.labels
    → get_container_target cfg info (map_target engine c hostname fqdn version).attributes
      ≡ ok (d, d.id)
unfolding map_target strip_prefix trim_prefix
map_target-selectable cfg engine info c d hostname fqdn version kept plain colon reported same =
    let name = trim_prefix "/" c.name in
    let own = own_attributes engine c name hostname fqdn version in
    let back =
      remove_prefix-add_prefix c.id engine.client.runtime engine.client.runtime plain colon in
    get_container_target-accepts cfg info (map_target engine c hostname fqdn version).attributes
      (add_prefix c.id engine.client.runtime) d
      (lookup-add_labels c.labels own "container.id" (refl, refl) refl
        ∙ own_id engine c name hostname fqdn version)
      (lookup-add_labels c.labels own "steadybit.label" (refl, refl) refl
        ∙ own_label engine c name hostname fqdn version)
      (ap info back.0 ∙ reported)
      (ap (has_disallowed_k8s_namespace_label cfg) same ∙ ignored_inv cfg c kept)
