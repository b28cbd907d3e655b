-- ===== src/DnsInjection/Prepare/Agreed.antt =====
-- `dnsErrorInjectionAction.Prepare` of extcontainer/action_network_dns_error_injection.go for two
-- configurations that its options and its guards do not tell apart.
use extension_container.Common.{
  String, Option, none, some, ◌≡◌, refl, Result, attempt-eq, LinuxProcessInfo, network, [], ◌∷◌,
}
use extension_container.Common.Dicts.{Dict, lookup}
use extension_container.ActionKit.{Request, Values, PrepareResult}
use extension_container.Config.{Specification}
use extension_container.Describe.Declared.{with_config}
use extension_container.Targets.{
  Container, OciRuntime, remove_prefix, get_process_info_for_container,
}
use extension_container.Filters.{Networks}
use extension_container.DnsInjection.{DnsErrorInjectionState}
use extension_container.DnsInjection.Options.{InjectOpts, parse_dns_inject_opts}
use extension_container.DnsInjection.Prepare.{
  created, with_opts, guarded, with_process, with_target, prepare,
}

module _ {H : Type 0} (cfg : Specification) (values : Values) (lib : Networks)
    (info : String → Result Container) (runtime : OciRuntime)
    (new_process : LinuxProcessInfo → String → InjectOpts lib.Net → Result H)
    (request : Request values.Value) (config : Dict values.Value)
    (same : parse_dns_inject_opts lib values config
      ≡ parse_dns_inject_opts lib values request.config) where
  abbrev other : Request values.Value
  other = with_config request config

  guarded-Agree :
      (state : DnsErrorInjectionState × Dict H) (container_id : String) (process : LinuxProcessInfo)
      (refusal : Option PrepareResult)
      → guarded cfg values lib info runtime new_process state other container_id process refusal
        ≡ guarded cfg values lib info runtime new_process state request container_id process refusal
  unfolding guarded with_opts created
  guarded-Agree state container_id process (some r) = refl
  guarded-Agree state container_id process none =
      attempt-eq state
        (with_opts cfg values lib info runtime new_process state other container_id process)
        (with_opts cfg values lib info runtime new_process state request container_id process) same
        (λ opts. refl)

  pub prepare-Agree :
      lookup "failOnHostNetwork" config ≡ lookup "failOnHostNetwork" request.config
      → (state : DnsErrorInjectionState × Dict H)
      → prepare cfg values lib info runtime new_process state other
        ≡ prepare cfg values lib info runtime new_process state request
  unfolding prepare with_target with_process
  prepare-Agree fail state =
      let target_next = with_target cfg values lib info runtime new_process in
      let process_next = with_process cfg values lib info runtime new_process in
      attempt-eq state (target_next state other) (target_next state request) refl (λ target.
        let container_id = remove_prefix target.0.id in
        attempt-eq {r = get_process_info_for_container runtime container_id (network ∷ [])} state
          (process_next state other container_id) (process_next state request container_id) refl
          (λ process. rw (fail) (guarded-Agree state container_id process _)))
