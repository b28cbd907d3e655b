-- ===== src/Targets.antt =====
-- extcontainer/common.go, with `hasDisallowedK8sNamespaceLabel` and `isUsingHostNetwork` of
-- extcontainer/action_network.go: the container that an action is for, and its process.
pub mod Prefixes
pub mod Selection
pub mod HostNetwork
use extension_container.Common.{
  ℕ, String, ◌<>◌, len, slice, Bool, true, false, Option, none, some, List, [], ◌∷◌, ◌==◌, ltb,
  if◌then◌else◌, Result, ok, err, panic, ◌>>=◌, context, Error, failure, wrap, head?, cut,
  contains_text, LinuxNamespace, LinuxProcessInfo, NamespaceType, is_network,
}
use extension_container.Common.Dicts.{Dict, lookup}
use extension_container.ActionKit.{Request, RestrictedEndpoint, ExecutionContext}
use extension_container.Config.{Specification, DisallowedName, match}

-- The interface `types.Container`.
pub record Container : Type 0 where
  pub id : String
  pub name : String
  pub image_name : String
  pub labels : Dict String

abbrev pub separator : String
separator = "://"

unfoldable pub remove_prefix : String → String
unfolding cut
remove_prefix container_id = elim (cut separator container_id) [
  | some p ↦ p.1
  | none ↦ container_id
]

unfoldable pub add_prefix : String → String → String
unfolding contains_text
add_prefix container_id runtime =
    if contains_text separator container_id
    then container_id
    else runtime <> (separator <> container_id)

matches_any : List DisallowedName → String → Bool
unfolding match
matches_any [] ns = false
matches_any (d ∷ names) ns = let later = matches_any names ns in if match d ns then true else later

unfoldable pub has_disallowed_k8s_namespace_label : Specification → Dict String → Bool
unfolding matches_any
has_disallowed_k8s_namespace_label cfg labels = elim (lookup "io.kubernetes.pod.namespace" labels) [
  | none ↦ false
  | some ns ↦ matches_any cfg.disallow_k8s_namespaces ns
]

-- `s[0:8]`; Go panics where the text is shorter.
abbrev pub first_eight : String → Result String
first_eight s = if ltb (len s) 8 then panic else ok (slice s 0 8)

-- `fmt.Sprintf("%s-%s", request.ExecutionId.String()[24:], RemovePrefix(id)[:8])`; the text of a
-- UUID has 36 characters.
unfoldable pub sidecar_id : String → String → Result String
unfolding remove_prefix
sidecar_id execution_id container_id = do
  short ← first_eight (remove_prefix container_id)
  ok (slice execution_id 24 (len execution_id) <> ("-" <> short))

target_label : Container → Option String → Result String
unfolding remove_prefix
target_label container none = ok container.id
target_label container (some label) = do
  short ← first_eight (remove_prefix container.id)
  ok (label <> (" (" <> (short <> ")")))

-- A list that is missing has no first element.
abbrev pub first_of_list : Option (List String) → Option String
first_of_list none = none
first_of_list (some values) = head? values

refuse_disallowed : Bool → Result (Unit {0})
refuse_disallowed true = err (failure "Container is in a namespace disallowed for attacks")
refuse_disallowed false = ok tt

target_container_id : Option String → Result String
target_container_id none = err (failure "Target is missing the 'container.id' attribute.")
target_container_id (some id) = ok id

with_label : Dict (List String) → Container → Result (Container × String)
unfolding target_label
with_label attributes container = do
  label ← target_label container (first_of_list (lookup "steadybit.label" attributes))
  ok (container, label)

checked : Specification → Dict (List String) → Container → Result (Container × String)
unfolding refuse_disallowed with_label
checked cfg attributes container =
    refuse_disallowed (has_disallowed_k8s_namespace_label cfg container.labels) >>= λ _.
    with_label attributes container

fetched :
    Specification
    → (String → Result Container)
    → Dict (List String)
    → String
    → Result (Container × String)
unfolding remove_prefix checked
fetched cfg info attributes id =
    context "Failed to get container info" (info (remove_prefix id)) >>= checked cfg attributes

-- `info` is the client's `Info`.
unfoldable pub get_container_target :
    Specification → (String → Result Container) → Dict (List String) → Result (Container × String)
unfolding target_container_id fetched
get_container_target cfg info attributes =
    target_container_id (first_of_list (lookup "container.id" attributes))
    >>= fetched cfg info attributes

endpoints_of : Option ExecutionContext → List RestrictedEndpoint
endpoints_of none = []
endpoints_of (some c) = elim c.restricted_endpoints [ none ↦ [] | some endpoints ↦ endpoints ]

unfoldable pub get_restricted_endpoints : {V : Type 0} → Request V → List RestrictedEndpoint
unfolding endpoints_of
get_restricted_endpoints request = endpoints_of request.execution_context

-- What the OCI runtime reports of a container.
pub record OciState : Type 0 where
  pub id : String
  pub process_id : ℕ
  pub annotations : Dict String

-- The OCI runtime of the action kit: `State`, and `ReadLinuxProcessInfo` for a process and the
-- namespaces of interest, with the process whose namespaces `WithNamespaceCandidates` offers.
pub record OciRuntime : Type 0 where
  pub state : String → Result OciState
  pub read_linux_process_info : Option ℕ → ℕ → List NamespaceType → Result LinuxProcessInfo

sandbox_process : (String → Result OciState) → OciState → Option ℕ
sandbox_process state s = elim (lookup "io.kubernetes.cri.sandbox-id" s.annotations) [
  | none ↦ none
  | some sandbox_id ↦
      if sandbox_id == s.id
      then none
      else elim (state sandbox_id) [ ok sandbox ↦ some sandbox.process_id | _ ↦ none ]
]

unfoldable pub get_process_info_for_container :
    OciRuntime → String → List NamespaceType → Result LinuxProcessInfo
unfolding sandbox_process
get_process_info_for_container r container_id types = do
  s ← context ("failed to read state of target container " <> container_id) (r.state container_id)
  r.read_linux_process_info (sandbox_process r.state s) s.process_id types

unfoldable pub is_using_host_network : List LinuxNamespace → Bool
is_using_host_network [] = true
is_using_host_network (n ∷ ns) =
    if is_network n.kind then n.path == "/proc/1/ns/net" else is_using_host_network ns
