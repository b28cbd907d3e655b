-- ===== src/Stress/Prepare/Agreed.antt =====
-- `stressAction.Prepare` of extcontainer/action_stress.go for two configurations that its provider
-- and the check of OOM kills do not tell apart.
use extension_container.Common.{String, ◌≡◌, refl, Result, attempt-eq}
use extension_container.Common.Dicts.{Dict, lookup}
use extension_container.ActionKit.{Request, Values}
use extension_container.Config.{Specification}
use extension_container.Describe.Declared.{with_config}
use extension_container.Network.{SidecarOpts}
use extension_container.Targets.{Container, OciRuntime}
use extension_container.Limits.{FileSystem}
use extension_container.Limits.Adapt.{StressOpts, Machine}
use extension_container.Stress.{StressActionState}
use extension_container.Stress.Prepare.{
  finish, with_opts, with_sidecar, with_process, with_target, prepare,
}

module _ (cfg : Specification) (values : Values) (machine : Machine) (fs : FileSystem)
    (info : String → Result Container) (runtime : OciRuntime)
    (provider : Request values.Value → Result StressOpts) (request : Request values.Value)
    (config : Dict values.Value) (same : provider (with_config request config) ≡ provider request)
    (oom : lookup "failOnOomKill" config ≡ lookup "failOnOomKill" request.config) where
  abbrev other : Request values.Value
  other = with_config request config

  with_opts-Agree :
      (state : StressActionState) (opts : StressOpts)
      → with_opts cfg values machine fs info runtime provider state other opts
        ≡ with_opts cfg values machine fs info runtime provider state request opts
  unfolding with_opts finish
  with_opts-Agree state opts =
      attempt-eq state (finish cfg values machine fs info runtime provider state other)
        (finish cfg values machine fs info runtime provider state request) refl
        (λ adapted. rw (oom) refl)

  pub prepare-Agree :
      (state : StressActionState)
      → prepare cfg values machine fs info runtime provider state other
        ≡ prepare cfg values machine fs info runtime provider state request
  unfolding prepare with_target with_process with_sidecar
  prepare-Agree state =
      let target_next = with_target cfg values machine fs info runtime provider in
      let process_next = with_process cfg values machine fs info runtime provider in
      let sidecar_next = with_sidecar cfg values machine fs info runtime provider in
      let opts_next = with_opts cfg values machine fs info runtime provider in
      attempt-eq state (target_next state other) (target_next state request) refl (λ target.
        let named : StressActionState = record state {
          container_id = target.0.id;
          target_label = target.1;
        } in
        attempt-eq named (process_next named other) (process_next named request) refl (λ process.
          attempt-eq named (sidecar_next named other process) (sidecar_next named request process)
            refl
            (λ id.
              let sidecar : SidecarOpts = record { target_process = process; id = id } in
              let ready : StressActionState = record named { sidecar = sidecar } in
              attempt-eq ready (opts_next ready other) (opts_next ready request) same
                (with_opts-Agree ready))))
