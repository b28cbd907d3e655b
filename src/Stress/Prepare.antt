-- ===== src/Stress/Prepare.antt =====
-- `stressAction.Prepare` of extcontainer/action_stress.go.
pub mod Ignored
pub mod Agreed
use extension_container.Common.{
  String, Bool, true, false, Option, none, some, List, [], ◌∷◌, if◌then◌else◌, Result, ok, err,
  panic, ◌>>=◌, context, attempt, pid, NamespaceType, LinuxProcessInfo,
}
use extension_container.Common.Dicts.{lookup}
use extension_container.ActionKit.{Request, Values}
use extension_container.Config.{Specification}
use extension_container.Targets.{
  Container, OciRuntime, get_container_target, get_process_info_for_container, remove_prefix,
  sidecar_id,
}
use extension_container.Limits.{FileSystem}
use extension_container.Limits.Adapt.{StressOpts, Machine, read_and_adapt_to_container_limits}
use extension_container.Processes.{ignored_codes}
use extension_container.Stress.{StressActionState}

-- The state, and the answer, which holds nothing where `Prepare` succeeds.
abbrev pub Prepared : Type 0
Prepared = StressActionState × Result (Unit {0})

-- The namespaces whose processes are read: those of the PIDs and of the cgroups.
abbrev pub namespaces : List NamespaceType
namespaces = pid ∷ NamespaceType.cgroup ∷ []

module _ (cfg : Specification) (values : Values) (machine : Machine) (fs : FileSystem)
    (info : String → Result Container) (runtime : OciRuntime)
    (provider : Request values.Value → Result StressOpts) where
  -- From the limits on, then from the provider, from the process info, and the whole.
  unfoldable pub finish : StressActionState → Request values.Value → StressOpts → Prepared
  unfolding lookup
  finish state request opts = (
    record state {
      stress_opts = opts;
      execution_id = request.execution_id;
      ignore_exit_codes =
          ignored_codes (values.to_bool (lookup "failOnOomKill" request.config))
            state.ignore_exit_codes;
    },
    ok tt,
  )

  unfoldable pub with_opts : StressActionState → Request values.Value → StressOpts → Prepared
  unfolding finish read_and_adapt_to_container_limits
  with_opts state request opts =
      attempt (read_and_adapt_to_container_limits machine fs state.sidecar.target_process opts)
        state (finish state request)

  unfoldable pub with_sidecar :
      StressActionState → Request values.Value → LinuxProcessInfo → String → Prepared
  unfolding with_opts
  with_sidecar named request process id =
      let state = record named { sidecar = record { target_process = process; id = id } } in
      attempt (provider request) state (with_opts state request)

  unfoldable pub with_process :
      StressActionState → Request values.Value → LinuxProcessInfo → Prepared
  unfolding with_sidecar sidecar_id
  with_process named request process =
      attempt (sidecar_id request.execution_id named.container_id) named
        (with_sidecar named request process)

  unfoldable pub with_target :
      StressActionState → Request values.Value → Container × String → Prepared
  unfolding with_process get_process_info_for_container remove_prefix
  with_target state request target =
      let named = record state { container_id = target.0.id; target_label = target.1 } in
      attempt
        (context "Failed to read target process info"
          (get_process_info_for_container runtime (remove_prefix target.0.id) namespaces))
        named (with_process named request)

  unfoldable pub prepare : StressActionState → Request values.Value → Prepared
  unfolding with_target get_container_target
  prepare state request =
      attempt
        (context "Failed to get target container"
          (get_container_target cfg info request.target_attributes))
        state (with_target state request)
