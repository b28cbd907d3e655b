-- ===== src/Describe/Prepared.antt =====
-- `Prepare` of the fill attacks, for configurations that agree on what the descriptions declare.
use extension_container.Common.{String, Option, none, some, ◌≡◌, refl, Result, attempt-eq}
use extension_container.Common.Dicts.{Dict, lookup}
use extension_container.ActionKit.{Request, Values}
use extension_container.Config.{Specification}
use extension_container.Network.{SidecarOpts}
use extension_container.Targets.{Container, OciRuntime}
use extension_container.FillMemory.{FillMemoryActionState}
use extension_container.FillMemory.Prepare as FillMemoryPrepare
use extension_container.FillMemory.Prepare.{fill_memory_opts}
use extension_container.FillDisk.{FillDiskActionState}
use extension_container.FillDisk.Prepare as FillDiskPrepare
use extension_container.FillDisk.Options.{Names, fill_disk_opts}
use extension_container.Describe.Declared.{with_config}

module _ (values : Values) (cfg : Specification) (info : String → Result Container)
    (runtime : OciRuntime) (request : Request values.Value) (config : Dict values.Value) where
  abbrev other : Request values.Value
  other = with_config request config

  pub fill_memory-Agree :
      fill_memory_opts values other ≡ fill_memory_opts values request
      → lookup "failOnOomKill" config ≡ lookup "failOnOomKill" request.config
      → (state : FillMemoryActionState)
      → FillMemoryPrepare.prepare values cfg info runtime state other
        ≡ FillMemoryPrepare.prepare values cfg info runtime state request
  unfolding FillMemoryPrepare.prepare FillMemoryPrepare.with_target FillMemoryPrepare.with_opts
      FillMemoryPrepare.finish
  fill_memory-Agree opts oom state =
      attempt-eq state (FillMemoryPrepare.with_target values cfg info runtime state other)
        (FillMemoryPrepare.with_target values cfg info runtime state request) refl
        (λ target.
          let named : FillMemoryActionState = record state {
            container_id = target.0.id;
            target_label = target.1;
          } in
          attempt-eq named (FillMemoryPrepare.with_opts values cfg info runtime named other)
            (FillMemoryPrepare.with_opts values cfg info runtime named request) opts
            (λ o.
              attempt-eq named (FillMemoryPrepare.finish values cfg info runtime named other o)
                (FillMemoryPrepare.finish values cfg info runtime named request o) refl
                (λ process. rw (oom) refl)))

  module _ (names : Names) (check_path_writable : FillDiskPrepare.WritableCheck) where
    checked-Agree :
        lookup "failOnOomKill" config ≡ lookup "failOnOomKill" request.config
        → (state : FillDiskActionState) (answer : Option String)
        → FillDiskPrepare.checked cfg names values info runtime check_path_writable state other
            answer
          ≡ FillDiskPrepare.checked cfg names values info runtime check_path_writable state request
              answer
    unfolding FillDiskPrepare.checked
    checked-Agree oom state (some text) = refl
    checked-Agree oom state none = rw (oom) refl

    pub fill_disk-Agree :
        fill_disk_opts names values other ≡ fill_disk_opts names values request
        → lookup "failOnOomKill" config ≡ lookup "failOnOomKill" request.config
        → (state : FillDiskActionState)
        → FillDiskPrepare.prepare cfg names values info runtime check_path_writable state other
          ≡ FillDiskPrepare.prepare cfg names values info runtime check_path_writable state request
    unfolding FillDiskPrepare.prepare FillDiskPrepare.with_target FillDiskPrepare.with_opts
        FillDiskPrepare.with_process FillDiskPrepare.with_sidecar
    fill_disk-Agree opts oom state =
        let with_target =
          FillDiskPrepare.with_target cfg names values info runtime check_path_writable in
        let with_opts =
          FillDiskPrepare.with_opts cfg names values info runtime check_path_writable in
        let with_process =
          FillDiskPrepare.with_process cfg names values info runtime check_path_writable in
        let with_sidecar =
          FillDiskPrepare.with_sidecar cfg names values info runtime check_path_writable in
        attempt-eq state (with_target state other) (with_target state request) refl (λ target.
          let named : FillDiskActionState = record state {
            container_id = target.0.id;
            target_label = target.1;
          } in
          attempt-eq named (with_opts named other) (with_opts named request) opts (λ o.
            attempt-eq named (with_process named other o) (with_process named request o) refl
              (λ process.
                attempt-eq named (with_sidecar named other o process)
                  (with_sidecar named request o process) refl
                  (λ id.
                    let sidecar : SidecarOpts = record { target_process = process; id = id } in
                    checked-Agree oom
                      (record named {
                        sidecar = sidecar;
                        fill_disk_opts = o;
                        execution_id = request.execution_id;
                      })
                      (check_path_writable sidecar o.temp_path)))))
