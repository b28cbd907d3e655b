-- ===== src/DnsInjection/Prepare.antt =====
-- `dnsErrorInjectionAction.Prepare` of extcontainer/action_network_dns_error_injection.go.
pub mod Agreed
use extension_container.Common.{
  String, ◌<>◌, slice, len, min, Option, none, some, [], ◌∷◌, Result, ok, context, attempt, network,
  LinuxProcessInfo,
}
use extension_container.Common.Dicts.{Dict, lookup, insert}
use extension_container.ActionKit.{Request, Values, PrepareResult}
use extension_container.Config.{Specification}
use extension_container.Targets.{
  Container, OciRuntime, get_container_target, get_process_info_for_container, remove_prefix,
  is_using_host_network,
}
use extension_container.Network.Prepare.{host_network_refusal}
use extension_container.Filters.{Networks}
use extension_container.DnsInjection.{DnsErrorInjectionState}
use extension_container.DnsInjection.Options.{InjectOpts, parse_dns_inject_opts}

-- The state and the shared handles, with the answer.
abbrev pub Prepared : Type 0 → Type 0
Prepared H = (DnsErrorInjectionState × Dict H) × Result PrepareResult

-- `fmt.Sprintf("%s-%s", request.ExecutionId.String()[24:], containerId[:min(8, len(containerId))])`.
unfoldable pub short_sidecar_id : String → String → String
short_sidecar_id execution_id container_id =
    slice execution_id 24 (len execution_id)
    <> ("-" <> slice container_id 0 (min 8 (len container_id)))

-- `new_process` is `dnsinject.NewProcess`.
module _ {H : Type 0} (cfg : Specification) (values : Values) (lib : Networks)
    (info : String → Result Container) (runtime : OciRuntime)
    (new_process : LinuxProcessInfo → String → InjectOpts lib.Net → Result H) where
  abbrev State : Type 0
  State = DnsErrorInjectionState × Dict H

  -- From the handle on, then from the options, from the guards, from the process, from the target,
  -- and the whole.
  created : State → Request values.Value → String → H → Prepared H
  unfolding insert
  created state request container_id handle = (
    (
      record { execution_id = request.execution_id; container_id = container_id },
      insert request.execution_id handle state.1,
    ),
    ok (record { messages = []; error = none }),
  )

  with_opts :
      State → Request values.Value → String → LinuxProcessInfo → InjectOpts lib.Net → Prepared H
  unfolding created short_sidecar_id
  with_opts state request container_id process opts =
      attempt
        (context "failed to create dns-inject process"
          (new_process process (short_sidecar_id request.execution_id container_id) opts))
        state (created state request container_id)

  guarded :
      State → Request values.Value → String → LinuxProcessInfo → Option PrepareResult → Prepared H
  unfolding with_opts parse_dns_inject_opts
  guarded state request container_id process (some refusal) = (state, ok refusal)
  guarded state request container_id process none =
      attempt (parse_dns_inject_opts lib values request.config) state
        (with_opts state request container_id process)

  with_process : State → Request values.Value → String → LinuxProcessInfo → Prepared H
  unfolding guarded host_network_refusal is_using_host_network lookup
  with_process state request container_id process = guarded state request container_id process (
      host_network_refusal cfg values (is_using_host_network process.namespaces)
        (lookup "failOnHostNetwork" request.config))

  with_target : State → Request values.Value → Container × String → Prepared H
  unfolding with_process get_process_info_for_container remove_prefix
  with_target state request target =
      let container_id = remove_prefix target.0.id in
      attempt (get_process_info_for_container runtime container_id (network ∷ [])) state
        (with_process state request container_id)

  unfoldable pub prepare : DnsErrorInjectionState × Dict H → Request values.Value → Prepared H
  unfolding with_target get_container_target
  prepare state request =
      attempt (get_container_target cfg info request.target_attributes) state
        (with_target state request)
