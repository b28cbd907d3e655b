-- ===== src/Network/Prepare.antt =====
-- `networkAction.Prepare` of extcontainer/action_network.go.
pub mod Ready
pub mod Guards
pub mod Started
pub mod Agreed
use extension_container.Common.{
  String, ◌<>◌, slice, len, Bool, true, false, Option, none, some, List, [], ◌∷◌, if◌then◌else◌,
  Result, ok, err, panic, ◌>>=◌, context, attempt, network, LinuxProcessInfo,
}
use extension_container.Common.Dicts.{lookup}
use extension_container.ActionKit.{Messages, PrepareResult, failed, Request, Values}
use extension_container.Config.{Specification}
use extension_container.Targets.{
  Container, OciRuntime, get_container_target, get_process_info_for_container, remove_prefix,
  sidecar_id, is_using_host_network,
}
use extension_container.Network.{Netfault, Answers, SidecarOpts, NetworkActionState}

-- `networkOptsProvider`: the options of the attack, with messages for the user.
abbrev pub Provider : Netfault → Type 0 → Type 0
Provider nf V = SidecarOpts → Request V → Result (nf.Opts × Messages)

-- The state that the action kit hands on, with the answer of the step.
abbrev pub Prepared : Netfault → Type 0
Prepared nf = NetworkActionState nf × Result PrepareResult

abbrev refusal : String → PrepareResult
refusal title = record {
  messages = [];
  error = some (record { title = title; status = failed; detail = none });
}

abbrev disallowed_title : String
disallowed_title =
    "Container is using host network. This is disallowed by your system administrators."

abbrev fail_title : String
fail_title = "Container is using host network and failOnHostNetwork = true."

module _ (cfg : Specification) (values : Values) where
  -- The guards on the host's network, for the network attacks and the injection of DNS errors.
  unfoldable pub host_network_refusal : Bool → Option values.Value → Option PrepareResult
  host_network_refusal on_host fail_on_host =
      if on_host
      then (if cfg.disallow_host_network
          then some (refusal disallowed_title)
          else if values.to_bool fail_on_host
          then some (refusal fail_title)
          else none)
      else none

module _ (cfg : Specification) (values : Values) (nf : Netfault) (answers : Answers nf)
    (info : String → Result Container) (runtime : OciRuntime)
    (provider : Provider nf values.Value) where
  -- From `json.Marshal` on, then from the preflight check, from the provider, from the guards, from
  -- the process info, and the whole.
  finish : NetworkActionState nf → Request values.Value → nf.Opts × Messages → String → Prepared nf
  finish state request provided raw = (
    record state { network_opts = raw; execution_id = request.execution_id },
    ok (record { messages = provided.1; error = none }),
  )

  marshalled :
      NetworkActionState nf → Request values.Value → nf.Opts × Messages → Unit {0} → Prepared nf
  unfolding finish
  marshalled state request provided _ =
      attempt (context "Failed to serialize network settings." (nf.encode provided.0)) state
        (finish state request provided)

  preflighted : NetworkActionState nf → Request values.Value → nf.Opts × Messages → Prepared nf
  unfolding marshalled
  preflighted state request provided =
      attempt
        (context "Cannot start network attack." (answers.preflight_check state.sidecar provided.0))
        state (marshalled state request provided)

  pub guarded : NetworkActionState nf → Request values.Value → Option PrepareResult → Prepared nf
  unfolding preflighted
  guarded state request (some refusal) = (state, ok refusal)
  guarded state request none =
      attempt (provider state.sidecar request) state (preflighted state request)

  with_sidecar :
      NetworkActionState nf → Request values.Value → LinuxProcessInfo → String → Prepared nf
  unfolding guarded host_network_refusal is_using_host_network
  with_sidecar named request process id =
      guarded (record named { sidecar = record { target_process = process; id = id } }) request
        (host_network_refusal cfg values (is_using_host_network process.namespaces)
          (lookup "failOnHostNetwork" request.config))

  with_process : NetworkActionState nf → Request values.Value → LinuxProcessInfo → Prepared nf
  unfolding with_sidecar sidecar_id
  with_process named request process =
      attempt (sidecar_id request.execution_id named.container_id) named
        (with_sidecar named request process)

  with_target : NetworkActionState nf → Request values.Value → Container × String → Prepared nf
  unfolding with_process remove_prefix
  with_target state request target =
      let named = record state { container_id = target.0.id; target_label = target.1 } in
      attempt
        (context "Failed to read target process info"
          (get_process_info_for_container runtime (remove_prefix target.0.id) (network ∷ [])))
        named (with_process named request)

  unfoldable pub prepare : NetworkActionState nf → Request values.Value → Prepared nf
  unfolding with_target
  prepare state request =
      attempt
        (context "Failed to get target container"
          (get_container_target cfg info request.target_attributes))
        state (with_target state request)
