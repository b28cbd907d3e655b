-- ===== src/FillDisk/Prepare.antt =====
-- `fillDiskAction.Prepare` of extcontainer/action_fill_disk.go.
use extension_container.Common.{
  String, Option, none, some, [], ◌∷◌, Result, ok, err, context, attempt, failure, pid,
  LinuxProcessInfo,
}
use extension_container.Common.Dicts.{lookup}
use extension_container.ActionKit.{Request, Values}
use extension_container.Config.{Specification}
use extension_container.Targets.{
  Container, OciRuntime, get_container_target, get_process_info_for_container, remove_prefix,
  sidecar_id,
}
use extension_container.Network.{SidecarOpts}
use extension_container.Processes.{ignored_codes}
use extension_container.FillDisk.{DiskfillOpts, FillDiskActionState}
use extension_container.FillDisk.Options.{Names, fill_disk_opts}

abbrev pub Prepared : Type 0
Prepared = FillDiskActionState × Result (Unit {0})

-- `diskfill.CheckPathWritableRunc` answers nothing, or the text of an error.
abbrev pub WritableCheck : Type 0
WritableCheck = SidecarOpts → String → Option String

module _ (cfg : Specification) (names : Names) (values : Values) (info : String → Result Container)
    (runtime : OciRuntime) (check_path_writable : WritableCheck) where
  -- From the check of the path on, then from the sidecar, from the process info, from the options,
  -- and the whole.
  unfoldable pub checked : FillDiskActionState → Request values.Value → Option String → Prepared
  unfolding lookup
  checked state request (some text) = (state, err (failure text))
  checked state request none = (
    record state {
      ignore_exit_codes =
          ignored_codes (values.to_bool (lookup "failOnOomKill" request.config))
            state.ignore_exit_codes;
    },
    ok tt,
  )

  unfoldable pub with_sidecar :
      FillDiskActionState
      → Request values.Value
      → DiskfillOpts
      → LinuxProcessInfo
      → String
      → Prepared
  unfolding checked
  with_sidecar named request opts process id =
      let sidecar : SidecarOpts = record { target_process = process; id = id } in
      checked
        (record named {
          sidecar = sidecar;
          fill_disk_opts = opts;
          execution_id = request.execution_id;
        })
        request (check_path_writable sidecar opts.temp_path)

  unfoldable pub with_process :
      FillDiskActionState → Request values.Value → DiskfillOpts → LinuxProcessInfo → Prepared
  unfolding with_sidecar sidecar_id
  with_process named request opts process =
      attempt (sidecar_id request.execution_id named.container_id) named
        (with_sidecar named request opts process)

  unfoldable pub with_opts : FillDiskActionState → Request values.Value → DiskfillOpts → Prepared
  unfolding with_process get_process_info_for_container remove_prefix
  with_opts named request opts =
      attempt
        (context "Failed to prepare fill disk settings."
          (get_process_info_for_container runtime (remove_prefix named.container_id) (pid ∷ [])))
        named (with_process named request opts)

  unfoldable pub with_target :
      FillDiskActionState → Request values.Value → Container × String → Prepared
  unfolding with_opts fill_disk_opts
  with_target state request target =
      let named = record state { container_id = target.0.id; target_label = target.1 } in
      attempt (fill_disk_opts names values request) named (with_opts named request)

  unfoldable pub prepare : FillDiskActionState → Request values.Value → Prepared
  unfolding with_target get_container_target
  prepare state request =
      attempt
        (context "Failed to get target container"
          (get_container_target cfg info request.target_attributes))
        state (with_target state request)
