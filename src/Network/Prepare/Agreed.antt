-- ===== src/Network/Prepare/Agreed.antt =====
-- `networkAction.Prepare` of extcontainer/action_network.go for two configurations that its provider
-- and its guards do not tell apart.
use extension_container.Common.{Option, none, some, String, ◌≡◌, refl, Result, attempt-eq}
use extension_container.Common.Dicts.{Dict, lookup}
use extension_container.ActionKit.{PrepareResult, Request, Values}
use extension_container.Config.{Specification}
use extension_container.Describe.Declared.{with_config}
use extension_container.Targets.{Container, OciRuntime}
use extension_container.Network.{Netfault, Answers, SidecarOpts, NetworkActionState}
use extension_container.Network.Prepare.{
  Provider, finish, marshalled, preflighted, guarded, with_sidecar, with_process, with_target,
  prepare,
}

module _ (cfg : Specification) (values : Values) (nf : Netfault) (answers : Answers nf)
    (info : String → Result Container) (runtime : OciRuntime) (provider : Provider nf values.Value)
    (request : Request values.Value) (config : Dict values.Value)
    (same : (s : SidecarOpts) → provider s (with_config request config) ≡ provider s request) where
  abbrev other : Request values.Value
  other = with_config request config

  guarded-Agree :
      (state : NetworkActionState nf) (refusal : Option PrepareResult)
      → guarded cfg values nf answers info runtime provider state other refusal
        ≡ guarded cfg values nf answers info runtime provider state request refusal
  unfolding guarded preflighted marshalled finish
  guarded-Agree state (some r) = refl
  guarded-Agree state none =
      attempt-eq state (preflighted cfg values nf answers info runtime provider state other)
        (preflighted cfg values nf answers info runtime provider state request) (same state.sidecar)
        (λ provided. refl)

  pub prepare-Agree :
      lookup "failOnHostNetwork" config ≡ lookup "failOnHostNetwork" request.config
      → (state : NetworkActionState nf)
      → prepare cfg values nf answers info runtime provider state other
        ≡ prepare cfg values nf answers info runtime provider state request
  unfolding prepare with_target with_process with_sidecar
  prepare-Agree fail state =
      let target_next = with_target cfg values nf answers info runtime provider in
      let process_next = with_process cfg values nf answers info runtime provider in
      let sidecar_next = with_sidecar cfg values nf answers info runtime provider in
      attempt-eq state (target_next state other) (target_next state request) refl (λ target.
        let named : NetworkActionState nf = record state {
          container_id = target.0.id;
          target_label = target.1;
        } in
        attempt-eq named (process_next named other) (process_next named request) refl (λ process.
          attempt-eq named (sidecar_next named other process) (sidecar_next named request process)
            refl
            (λ id. rw (fail) (
              guarded-Agree
                (record named { sidecar = record { target_process = process; id = id } }) _))))
