-- ===== src/Stress/Options.antt =====
-- The options of the stress attacks: `stressCpu`, `stressMemory` and `stressIo` of
-- extcontainer/action_stress_cpu.go, action_stress_memory.go and action_stress_io.go.
use extension_container.Common.{
  String, ◌<>◌, ◌||◌, Option, none, some, ◌==◌, if◌then◌else◌, Result, ok, panic, decimal_ℤ,
}
use extension_container.Common.Int.{ℤ, pos, wrap, ◌*ℤ◌}
use extension_container.Common.Dicts.{lookup}
use extension_container.ActionKit.{Request, Values}
use extension_container.Limits.Adapt.{StressOpts}

-- `stress.Opts{}`.
abbrev pub empty_opts : StressOpts
empty_opts = record {
  cpu_workers = none;
  cpu_load = pos 0;
  hdd_workers = none;
  hdd_bytes = "";
  iomix_workers = none;
  vm_workers = none;
  vm_bytes = "";
  temp_path = "";
  timeout = pos 0;
}

-- Milliseconds as a `time.Duration`.
unfoldable pub milliseconds : ℤ → ℤ
unfolding wrap ◌*ℤ◌
milliseconds n = wrap (n *ℤ pos 1000000)

-- Go panics where the percentage is not a number.
memory_opts : Option ℤ → ℤ → Result StressOpts
unfolding decimal_ℤ
memory_opts none timeout = panic
memory_opts (some percentage) timeout = ok (record empty_opts {
  vm_workers = some (pos 1);
  vm_bytes = decimal_ℤ percentage <> "%";
  timeout = timeout;
})

module _ (values : Values) where
  unfoldable pub stress_cpu : Request values.Value → Result StressOpts
  unfolding lookup milliseconds
  stress_cpu request = ok (record empty_opts {
    cpu_workers = some (values.to_int (lookup "workers" request.config));
    cpu_load = values.to_int (lookup "cpuLoad" request.config);
    timeout = milliseconds (values.to_int64 (lookup "duration" request.config));
  })

  unfoldable pub stress_memory : Request values.Value → Result StressOpts
  unfolding lookup milliseconds memory_opts
  stress_memory request =
      memory_opts (values.assert_float_as_int (lookup "percentage" request.config))
        (milliseconds (values.to_int64 (lookup "duration" request.config)))

  stress_io_in : Request values.Value → String → StressOpts
  unfolding lookup milliseconds decimal_ℤ
  stress_io_in request mode =
      let workers = values.to_int (lookup "workers" request.config) in
      let writes = (mode == "read_write_and_flush") || (mode == "read_write") in
      let flushes = (mode == "read_write_and_flush") || (mode == "flush") in
      record empty_opts {
        temp_path = values.to_string (lookup "path" request.config);
        timeout = milliseconds (values.to_int64 (lookup "duration" request.config));
        hdd_workers = if writes then some workers else none;
        hdd_bytes =
            if writes
            then decimal_ℤ (values.to_int64 (lookup "mbytes_per_worker" request.config)) <> "m"
            else "";
        iomix_workers = if flushes then some workers else none;
      }

  unfoldable pub stress_io : Request values.Value → Result StressOpts
  unfolding stress_io_in lookup
  stress_io request =
      let mode = values.to_string (lookup "mode" request.config) in
      ok (stress_io_in request (if mode == "" then "read_write_and_flush" else mode))
