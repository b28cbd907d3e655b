-- ===== src/Describe/Reads.antt =====
-- What Prepare of the actions reads of a request's configuration, against what their descriptions
-- declare.
use extension_container.Common.{String, List, [], ◌∷◌, ◌≡◌, refl, ap, Result, ok, ◌>>=◌}
use extension_container.Common.Dicts.{Dict, lookup}
use extension_container.ActionKit.{Request, Values}
use extension_container.Faults.Kinds.{
  Kind, delays, loses, corrupts, limits, resets, blackholes, blocks_dns, opts_provider, description,
}
use extension_container.Faults.Declared.{opts_provider-Agree}
use extension_container.Network.{NetworkActionState}
use extension_container.Network.Prepare as NetworkPrepare
use extension_container.Network.Prepare.Agreed as NetworkAgreed
use extension_container.Stress.{StressActionState}
use extension_container.Stress.Prepare as StressPrepare
use extension_container.Stress.Prepare.Agreed as StressAgreed
use extension_container.Stress.Options.{stress_cpu, stress_memory, stress_io}
use extension_container.FillMemory.{FillMemoryActionState}
use extension_container.FillMemory.Prepare as FillMemoryPrepare
use extension_container.FillMemory.Prepare.{fill_memory_opts}
use extension_container.FillDisk.{FillDiskActionState}
use extension_container.FillDisk.Prepare as FillDiskPrepare
use extension_container.FillDisk.Options.{Names, fill_disk_opts}
use extension_container.Stop.{StopActionState}
use extension_container.Stop.Prepare as StopPrepare
use extension_container.Pause.{PauseActionState}
use extension_container.Pause as Pause
use extension_container.DnsInjection.{DnsErrorInjectionState}
use extension_container.DnsInjection.Prepare as DnsPrepare
use extension_container.DnsInjection.Prepare.Agreed as DnsAgreed
use extension_container.DnsInjection.Options.{parse_dns_inject_opts}
use extension_container.Describe.{ActionParameter}
use extension_container.Describe.Surroundings.{Surroundings}
use extension_container.Describe.Declared.{Agree, with_config}
use extension_container.Describe.Prepared.{fill_memory-Agree, fill_disk-Agree}
use extension_container.Describe.Shared.{common_network_parameters}
use extension_container.Describe.State.{
  stop_parameters, pause_parameters, dns_error_injection_parameters,
}
use extension_container.Describe.Stress.{
  stress_cpu_parameters, stress_memory_parameters, stress_io_parameters,
}
use extension_container.Describe.Fill.{MemfillNames, fill_memory_parameters, fill_disk_parameters}

-- All actions.
pub data Action : Type 0 where
  network_attack : Kind → Action
  stresses_cpu stresses_memory stresses_io fills_memory fills_disk : Action
  injects_dns_errors stops pauses : Action

unfoldable pub parameters_of : MemfillNames → Names → Action → List ActionParameter
unfolding description stress_cpu_parameters stress_memory_parameters stress_io_parameters
    fill_memory_parameters fill_disk_parameters dns_error_injection_parameters stop_parameters
    pause_parameters
parameters_of mem disk (network_attack kind) = (description kind).parameters
parameters_of mem disk stresses_cpu = stress_cpu_parameters
parameters_of mem disk stresses_memory = stress_memory_parameters
parameters_of mem disk stresses_io = stress_io_parameters
parameters_of mem disk fills_memory = fill_memory_parameters mem
parameters_of mem disk fills_disk = fill_disk_parameters disk
parameters_of mem disk injects_dns_errors = dns_error_injection_parameters
parameters_of mem disk stops = stop_parameters
parameters_of mem disk pauses = pause_parameters

-- The keys that Prepare reads and the description does not declare.
abbrev pub undeclared : Action → List String
undeclared (network_attack blocks_dns) = "failOnHostNetwork" ∷ []
undeclared stresses_cpu = "failOnOomKill" ∷ []
undeclared stresses_io = "failOnOomKill" ∷ []
undeclared _ = []

-- Two configurations have the same values, or none, for each of the keys.
abbrev pub AgreeOn : {V : Type 0} → List String → Dict V → Dict V → Type 0
AgreeOn [] c d = Unit {0}
AgreeOn (key ∷ keys) c d = (lookup key c ≡ lookup key d) × AgreeOn keys c d

module _ (values : Values) (w : Surroundings values) where
  -- The provider that a network action of a kind is made with.
  abbrev pub provider_of : Kind → NetworkPrepare.Provider w.nf values.Value
  provider_of kind sidecar r =
      opts_provider w.lib values (w.runner sidecar) kind r >>= λ p. ok (w.opts p.0, p.1)

  -- Prepare leaves the same state and gives the same answer for two requests, from any state.
  abbrev pub ReadsSame : Action → Request values.Value → Request values.Value → Type 0
  ReadsSame (network_attack kind) r s =
      let prepare =
        NetworkPrepare.prepare w.cfg values w.nf w.answers w.info w.runtime (provider_of kind) in
      (state : NetworkActionState w.nf) → prepare state r ≡ prepare state s
  ReadsSame stresses_cpu r s =
      let prepare =
        StressPrepare.prepare w.cfg values w.machine w.fs w.info w.runtime (stress_cpu values) in
      (state : StressActionState) → prepare state r ≡ prepare state s
  ReadsSame stresses_memory r s =
      let prepare =
        StressPrepare.prepare w.cfg values w.machine w.fs w.info w.runtime (stress_memory values) in
      (state : StressActionState) → prepare state r ≡ prepare state s
  ReadsSame stresses_io r s =
      let prepare =
        StressPrepare.prepare w.cfg values w.machine w.fs w.info w.runtime (stress_io values) in
      (state : StressActionState) → prepare state r ≡ prepare state s
  ReadsSame fills_memory r s =
      let prepare = FillMemoryPrepare.prepare values w.cfg w.info w.runtime in
      (state : FillMemoryActionState) → prepare state r ≡ prepare state s
  ReadsSame fills_disk r s =
      let prepare =
        FillDiskPrepare.prepare w.cfg w.disk values w.info w.runtime w.check_path_writable in
      (state : FillDiskActionState) → prepare state r ≡ prepare state s
  ReadsSame injects_dns_errors r s =
      let prepare = DnsPrepare.prepare w.cfg values w.lib w.info w.runtime w.new_process in
      (state : DnsErrorInjectionState × Dict w.Handle) → prepare state r ≡ prepare state s
  ReadsSame stops r s =
      let prepare = StopPrepare.prepare w.cfg values w.info in
      (state : StopActionState) → prepare state r ≡ prepare state s
  ReadsSame pauses r s =
      let prepare = Pause.prepare w.cfg w.info in
      (state : PauseActionState) → prepare state r ≡ prepare state s

  module _ (request : Request values.Value) (config : Dict values.Value) where
    network-Agree :
        (kind : Kind)
        → Agree (description kind).parameters config request.config
        → lookup "failOnHostNetwork" config ≡ lookup "failOnHostNetwork" request.config
        → ReadsSame (network_attack kind) (with_config request config) request
    network-Agree kind agree fail =
        NetworkAgreed.prepare-Agree w.cfg values w.nf w.answers w.info w.runtime (provider_of kind)
          request config
          (λ sidecar.
            ap (λ r. r >>= λ p. ok (w.opts p.0, p.1))
              (opts_provider-Agree w.lib values (w.runner sidecar) request config kind agree))
          fail

    stress-Agree :
        (provider : Request values.Value → Result _)
        → provider (with_config request config) ≡ provider request
        → lookup "failOnOomKill" config ≡ lookup "failOnOomKill" request.config
        → (state : StressActionState)
        → StressPrepare.prepare w.cfg values w.machine w.fs w.info w.runtime provider state
            (with_config request config)
          ≡ StressPrepare.prepare w.cfg values w.machine w.fs w.info w.runtime provider state
              request
    stress-Agree provider same oom =
        StressAgreed.prepare-Agree w.cfg values w.machine w.fs w.info w.runtime provider request
          config same oom

    -- Prepare of an action depends on no key of the configuration but the parameters that the action's
    -- description declares and these: failOnHostNetwork for the block of DNS, and failOnOomKill for the
    -- attacks on CPU and IO. From any state, configurations that differ in other keys only leave the
    -- same state, the same messages and the same errors.
    pub declared_only :
        (action : Action)
        → Agree (parameters_of w.mem w.disk action) config request.config
        → AgreeOn (undeclared action) config request.config
        → ReadsSame action (with_config request config) request
    unfolding parameters_of stress_cpu stress_memory stress_io parse_dns_inject_opts
        StopPrepare.prepare Pause.prepare fill_memory_opts fill_disk_opts description
        common_network_parameters
    declared_only (network_attack delays) agree rest = network-Agree delays agree agree.1.0
    declared_only (network_attack loses) agree rest = network-Agree loses agree agree.1.0
    declared_only (network_attack corrupts) agree rest = network-Agree corrupts agree agree.1.0
    declared_only (network_attack limits) agree rest = network-Agree limits agree agree.1.0
    declared_only (network_attack resets) agree rest = network-Agree resets agree agree.1.0
    declared_only (network_attack blackholes) agree rest = network-Agree blackholes agree agree.1.0
    declared_only (network_attack blocks_dns) agree rest = network-Agree blocks_dns agree rest.0
    declared_only stresses_cpu (load, (workers, (duration, _))) (oom, _) =
        stress-Agree (stress_cpu values) (rw (load, workers, duration) refl) oom
    declared_only stresses_memory (percentage, (duration, (oom, _))) rest =
        stress-Agree (stress_memory values) (rw (percentage, duration) refl) oom
    declared_only stresses_io (mode, (workers, (duration, (path, (mbytes, _))))) (oom, _) =
        stress-Agree (stress_io values) (rw (mode, workers, duration, path, mbytes) refl) oom
    declared_only fills_memory (duration, (mode, (size, (unit, (oom, _))))) rest =
        fill_memory-Agree values w.cfg w.info w.runtime request config
          (rw (duration, mode, size, unit) refl) oom
    declared_only fills_disk (_, (mode, (size, (path, (method, (block, (oom, _))))))) rest =
        fill_disk-Agree values w.cfg w.info w.runtime request config w.disk w.check_path_writable
          (rw (mode, size, path, method, block) refl) oom
    declared_only injects_dns_errors (_, (types, (hostname, (port, (cidr, (fail, _)))))) rest =
        DnsAgreed.prepare-Agree w.cfg values w.lib w.info w.runtime w.new_process request config
          (rw (types, hostname, port, cidr) refl) fail
    declared_only stops (graceful, _) rest = λ state. rw (graceful) refl
    declared_only pauses agree rest = λ state. refl
