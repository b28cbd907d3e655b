-- ===== src/Targets/Selection.antt =====
-- What `getContainerTarget` of extcontainer/common.go has checked when it returns a container.
use mathlib.Core.List.{Memᴰ}
use mathlib.Core.List.Memᴰ.{head, tail}
use extension_container.Common.{
  sym, Bool-cases, inl, inr, String, Bool, true, false, Option, none, some, List, [], ◌∷◌, ◌≡◌,
  refl, ◌∙◌, ap, subst, arith, Result, ok, context, >>=-ok, context-eq-ok,
}
use extension_container.Common.Dicts.{Dict, lookup}
use extension_container.Config.{Specification, DisallowedName, match}
use extension_container.Targets.{
  Container, get_container_target, remove_prefix, has_disallowed_k8s_namespace_label, first_of_list,
  target_container_id, matches_any, refuse_disallowed, target_label, with_label, checked, fetched,
}

target_container_id_inv :
    (o : Option String) {id : String} → target_container_id o ≡ ok id → o ≡ some id
unfolding target_container_id
target_container_id_inv none h = cc
target_container_id_inv (some x) h = ground arith

refuse_disallowed_inv : (b : Bool) {u : Unit {0}} → refuse_disallowed b ≡ ok u → b ≡ false
unfolding refuse_disallowed
refuse_disallowed_inv true h = cc
refuse_disallowed_inv false h = refl

with_label_inv :
    (attributes : Dict (List String)) (c container : Container) (label : String)
    → with_label attributes c ≡ ok (container, label)
    → c ≡ container
unfolding with_label
with_label_inv attributes c container label h =
    let (l, _, e) =
      >>=-ok (target_label c (first_of_list (lookup "steadybit.label" attributes))) (λ l. ok (c, l))
        h in
    ground (arith, e)

matches_any-none :
    (names : List DisallowedName) (ns : String)
    → matches_any names ns ≡ false
    → (d : DisallowedName) → Memᴰ d names
    → d.g ns ≡ false
unfolding matches_any match
matches_any-none [] ns h d m = elim m [ ]
matches_any-none (c ∷ names) ns h d m = elim (Bool-cases (c.g ns)) [
  | inl e ↦ ground (arith, e, h)
  | inr e ↦ elim m [
    | head same ↦ ap (λ (k : DisallowedName). k.g ns) same ∙ e
    | tail later ↦ matches_any-none names ns (ground (arith, e, h)) d later
  ]
]

-- No disallowed pattern matches the namespace, if the labels have one.
abbrev pub InAllowedNamespace : Specification → Container → Type 0
InAllowedNamespace cfg container =
    (ns : String) (d : DisallowedName)
    → lookup "io.kubernetes.pod.namespace" container.labels ≡ some ns
    → Memᴰ d cfg.disallow_k8s_namespaces
    → d.g ns ≡ false

allowed_namespace :
    (cfg : Specification) (container : Container)
    → has_disallowed_k8s_namespace_label cfg container.labels ≡ false
    → InAllowedNamespace cfg container
unfolding has_disallowed_k8s_namespace_label
allowed_namespace cfg container h ns d found m =
    matches_any-none cfg.disallow_k8s_namespaces ns
      (sym (rw (has_disallowed_k8s_namespace_label, found) refl) ∙ h) d m

-- A container that is handed on is the one that the runtime reports for the first `container.id` of
-- the target, and none of the disallowed patterns matches the namespace that its labels name.
pub get_container_target-checked :
    (cfg : Specification) (info : String → Result Container) (attributes : Dict (List String))
    (container : Container) (label : String)
    → get_container_target cfg info attributes ≡ ok (container, label)
    → ((id : String) × (first_of_list (lookup "container.id" attributes) ≡ some id)
        × (info (remove_prefix id) ≡ ok container))
      × (has_disallowed_k8s_namespace_label cfg container.labels ≡ false)
      × InAllowedNamespace cfg container
unfolding get_container_target fetched checked
get_container_target-checked cfg info attributes container label h =
    let (id, e, h1) =
      >>=-ok (target_container_id (first_of_list (lookup "container.id" attributes)))
        (fetched cfg info attributes) h in
    let (c, e2, h2) =
      >>=-ok (context "Failed to get container info" (info (remove_prefix id)))
        (checked cfg attributes) h1 in
    let (u, e3, h3) =
      >>=-ok (refuse_disallowed (has_disallowed_k8s_namespace_label cfg c.labels))
        (λ _. with_label attributes c) h2 in
    let same = with_label_inv attributes c container label h3 in
    let allowed =
      subst (λ (k : Container). has_disallowed_k8s_namespace_label cfg k.labels ≡ false) same
        (refuse_disallowed_inv _ e3) in
    (
      (id, target_container_id_inv _ e, context-eq-ok _ _ e2 ∙ ap ok same),
      allowed,
      allowed_namespace cfg container allowed,
    )

-- A target whose id names a container that is reported and allowed is accepted, with the container's
-- id for its label where the target has none.
pub get_container_target-accepts :
    (cfg : Specification) (info : String → Result Container) (attributes : Dict (List String))
    (id : String) (container : Container)
    → lookup "container.id" attributes ≡ some (id ∷ [])
    → lookup "steadybit.label" attributes ≡ none
    → info (remove_prefix id) ≡ ok container
    → has_disallowed_k8s_namespace_label cfg container.labels ≡ false
    → get_container_target cfg info attributes ≡ ok (container, container.id)
unfolding get_container_target fetched checked refuse_disallowed target_container_id with_label
    target_label
get_container_target-accepts cfg info attributes id container found unlabelled reported allowed =
    rw
      (
        get_container_target, found, target_container_id, fetched, reported, checked, allowed,
        refuse_disallowed, with_label, unlabelled, target_label,
      )
      refl
