-- ===== src/Network/Prepare/Guards.antt =====
-- What a `Prepare` of extcontainer/action_network.go that succeeds has checked, and what its state
-- holds for `Start`.
use extension_container.Common.{
  ◌⊎◌, String, true, false, none, some, [], ◌∷◌, ◌≡◌, sym, ◌∙◌, ap, Result, ok, context,
  context-eq-ok, attempt-eq-ok, network,
}
use extension_container.Common.Dicts.{lookup}
use extension_container.ActionKit.{PrepareResult, Request, Values}
use extension_container.Config.{Specification}
use extension_container.Targets.{
  Container, OciRuntime, get_container_target, get_process_info_for_container, remove_prefix,
  is_using_host_network, has_disallowed_k8s_namespace_label, first_of_list, sidecar_id,
}
use extension_container.Targets.Selection.{InAllowedNamespace, get_container_target-checked}
use extension_container.Targets.HostNetwork.{HasOwnNetwork}
use extension_container.Network.{Netfault, Answers, SidecarOpts, NetworkActionState}
use extension_container.Network.Prepare.{
  Provider, host_network_refusal, with_sidecar, with_process, with_target, prepare,
}
use extension_container.Network.Prepare.Ready.{
  host_network_refusal-none, host_network_refusal-some, own_network_where_asked, guarded-Ready,
}

module _ (cfg : Specification) (values : Values) (nf : Netfault) (answers : Answers nf)
    (info : String → Result Container) (runtime : OciRuntime)
    (provider : Provider nf values.Value) where
  -- What a successful `Prepare` has established.
  pub record Checked (state : NetworkActionState nf) (request : Request values.Value)
      (res : PrepareResult) (state' : NetworkActionState nf) : Type 0 where
    pub container : Container
    pub opts : nf.Opts
    pub found :
        (id : String) × (first_of_list (lookup "container.id" request.target_attributes) ≡ some id)
        × (info (remove_prefix id) ≡ ok container)
    pub allowed : has_disallowed_k8s_namespace_label cfg container.labels ≡ false
    pub in_allowed_namespace : InAllowedNamespace cfg container
    pub process_read :
        get_process_info_for_container runtime (remove_prefix container.id) (network ∷ [])
        ≡ ok state'.sidecar.target_process
    pub host_allowed :
        is_using_host_network state'.sidecar.target_process.namespaces ≡ true
        → (cfg.disallow_host_network ≡ false)
          × (values.to_bool (lookup "failOnHostNetwork" request.config) ≡ false)
    pub own_network :
        (cfg.disallow_host_network ≡ true)
          ⊎ (values.to_bool (lookup "failOnHostNetwork" request.config) ≡ true)
        → HasOwnNetwork state'.sidecar.target_process.namespaces
    pub provided : provider state'.sidecar request ≡ ok (opts, res.messages)
    pub preflight : answers.preflight_check state'.sidecar opts ≡ ok tt
    pub encoded : nf.encode opts ≡ ok state'.network_opts
    pub named : state'.container_id ≡ container.id
    pub unclaimed : state'.netns_claimed ≡ state.netns_claimed
    pub unshadowed : state'.is_shadow ≡ state.is_shadow

  -- A `Prepare` that returns no error, in either of the two ways, has found the target's container
  -- through the runtime in a namespace that no disallowed pattern matches; it has read its process,
  -- which is on the host's network only if neither the configuration nor the request forbids that,
  -- and otherwise has a first network namespace that is not at the path of the host's; it has the
  -- options from the provider for this process and past the preflight check; and the state holds
  -- their encoding, with the claim and the shadow flag as they were.
  pub prepare-Checked :
      (state : NetworkActionState nf) (request : Request values.Value)
      {state' : NetworkActionState nf} {res : PrepareResult}
      → prepare cfg values nf answers info runtime provider state request ≡ (state', ok res)
      → res.error ≡ none
      → Checked state request res state'
  unfolding prepare with_target with_process with_sidecar
  prepare-Checked state request {state'} {res} h e =
      let (target, et, h1) =
        attempt-eq-ok
          (context "Failed to get target container"
            (get_container_target cfg info request.target_attributes))
          state (with_target cfg values nf answers info runtime provider state request) h in
      let named = record state { container_id = target.0.id; target_label = target.1 } in
      let (process, ep, h2) =
        attempt-eq-ok
          (context "Failed to read target process info"
            (get_process_info_for_container runtime (remove_prefix target.0.id) (network ∷ [])))
          named (with_process cfg values nf answers info runtime provider named request) h1 in
      let (id, _, h3) =
        attempt-eq-ok (sidecar_id request.execution_id target.0.id) named
          (with_sidecar cfg values nf answers info runtime provider named request process) h2 in
      let on_host = is_using_host_network process.namespaces in
      let asked = lookup "failOnHostNetwork" request.config in
      let ready = record named { sidecar = record { target_process = process; id = id } } in
      let (no_refusal, r) =
        guarded-Ready cfg values nf answers info runtime provider ready state' request
          (host_network_refusal cfg values on_host asked)
          (host_network_refusal-some cfg values nf answers info runtime provider on_host asked) h3
          e in
      let target_checked =
        get_container_target-checked cfg info request.target_attributes target.0 target.1
          (context-eq-ok _ _ et) in
      let side : SidecarOpts = record { target_process = process; id = id } in
      let same_side : state'.sidecar ≡ side =
        ap (λ (s : NetworkActionState nf). s.sidecar) r.left in
      let host_allowed : is_using_host_network state'.sidecar.target_process.namespaces ≡ true
          → (cfg.disallow_host_network ≡ false)
            × (values.to_bool (lookup "failOnHostNetwork" request.config) ≡ false) =
        λ host.
          host_network_refusal-none cfg values nf answers info runtime provider on_host asked
            no_refusal
            (ap (λ (s : SidecarOpts). is_using_host_network s.target_process.namespaces)
                (sym same_side)
              ∙ host) in
      record {
        container = target.0;
        opts = r.opts;
        found = target_checked.0;
        allowed = target_checked.1;
        in_allowed_namespace = target_checked.2;
        process_read =
            context-eq-ok _ _ ep ∙ ap (λ (s : SidecarOpts). ok s.target_process) (sym same_side);
        host_allowed = host_allowed;
        own_network =
            own_network_where_asked cfg values nf answers info runtime provider
              state'.sidecar.target_process.namespaces asked host_allowed;
        provided = ap (λ s. provider s request) same_side ∙ r.provided;
        preflight = ap (λ s. answers.preflight_check s r.opts) same_side ∙ r.preflight;
        encoded = r.encoded;
        named = ap (λ (s : NetworkActionState nf). s.container_id) r.left;
        unclaimed = ap (λ (s : NetworkActionState nf). s.netns_claimed) r.left;
        unshadowed = ap (λ (s : NetworkActionState nf). s.is_shadow) r.left;
      }
