-- ===== src/FillMemory/Prepare.antt =====
-- `fillMemoryAction.Prepare` and `fillMemoryOpts` of extcontainer/action_fill_mem.go.
use extension_container.Common.{
  String, Option, none, some, [], ◌∷◌, Result, ok, panic, ◌>>=◌, context, attempt, pid,
  LinuxProcessInfo,
}
use extension_container.Common.Dicts.{lookup}
use extension_container.ActionKit.{Request, Values}
use extension_container.Config.{Specification}
use extension_container.Targets.{
  Container, OciRuntime, get_container_target, get_process_info_for_container, remove_prefix,
}
use extension_container.Stress.Options.{milliseconds}
use extension_container.Processes.{ignored_codes}
use extension_container.FillMemory.{MemfillOpts, FillMemoryActionState}

-- A value that Go's assertion `.(string)` takes; Go panics on others.
asserted : Option String → Result String
asserted none = panic
asserted (some s) = ok s

abbrev pub Prepared : Type 0
Prepared = FillMemoryActionState × Result (Unit {0})

module _ (values : Values) where
  unfoldable pub fill_memory_opts : Request values.Value → Result MemfillOpts
  unfolding asserted lookup milliseconds
  fill_memory_opts request = do
    mode ← asserted (values.assert_string (lookup "mode" request.config))
    unit ← asserted (values.assert_string (lookup "unit" request.config))
    ok (record {
      size = values.to_int (lookup "size" request.config);
      mode = mode;
      unit = unit;
      duration = milliseconds (values.to_int64 (lookup "duration" request.config));
    })

  module _ (cfg : Specification) (info : String → Result Container) (runtime : OciRuntime) where
    -- From the process info on, then from the options, from the target, and the whole.
    unfoldable pub finish :
        FillMemoryActionState → Request values.Value → MemfillOpts → LinuxProcessInfo → Prepared
    unfolding lookup
    finish named request opts process = (
      record named {
        target_process = process;
        fill_memory_opts = opts;
        execution_id = request.execution_id;
        ignore_exit_codes =
            ignored_codes (values.to_bool (lookup "failOnOomKill" request.config))
              named.ignore_exit_codes;
      },
      ok tt,
    )

    unfoldable pub with_opts : FillMemoryActionState → Request values.Value → MemfillOpts → Prepared
    unfolding finish get_process_info_for_container remove_prefix
    with_opts named request opts =
        attempt
          (context "Failed to prepare fill memory settings."
            (get_process_info_for_container runtime (remove_prefix named.container_id) (pid ∷ [])))
          named (finish named request opts)

    unfoldable pub with_target :
        FillMemoryActionState → Request values.Value → Container × String → Prepared
    unfolding with_opts fill_memory_opts
    with_target state request target =
        let named = record state { container_id = target.0.id; target_label = target.1 } in
        attempt (fill_memory_opts request) named (with_opts named request)

    unfoldable pub prepare : FillMemoryActionState → Request values.Value → Prepared
    unfolding with_target get_container_target
    prepare state request =
        attempt
          (context "Failed to get target container"
            (get_container_target cfg info request.target_attributes))
          state (with_target state request)
