-- ===== src/Stress/Prepare/Ignored.antt =====
-- What `stressAction.Prepare` of extcontainer/action_stress.go keeps of the request, and the OOM
-- kills that `Status` then reports.
use extension_container.Common.{
  String, true, false, none, some, [], ◌∷◌, ◌≡◌, refl, sym, ap, ◌∙◌, ◌↔◌, Result, ok, context,
  attempt-eq-ok, LinuxProcessInfo, pid,
}
use extension_container.Common.Int.{pos}
use extension_container.Common.Dicts.{Dict, lookup}
use extension_container.ActionKit.{Request, Values}
use extension_container.Config.{Specification}
use extension_container.Targets.{
  Container, OciRuntime, get_container_target, get_process_info_for_container, remove_prefix,
  sidecar_id,
}
use extension_container.Limits.{FileSystem}
use extension_container.Limits.Adapt.{StressOpts, Machine, read_and_adapt_to_container_limits}
use extension_container.Processes.{
  ignored_codes, ProcessError, exit_error, ExitError, failed_status, is_error,
}
use extension_container.Processes.Endings.{Excused-oom, failed_status-Excused}
use extension_container.Stress.{StressActionState, Stress, status, stress_exited, reported}
use extension_container.Stress.Prepare.{
  namespaces, finish, with_opts, with_sidecar, with_process, with_target, prepare,
}

failed-status :
    {P : Type 0} (stress : Stress P) (runtime : OciRuntime) (s : StressActionState)
    (running : Dict P) (p : P) (e : ProcessError)
    → lookup s.execution_id running ≡ some p
    → stress.exited p ≡ (true, some e)
    → status stress runtime s running
      ≡ failed_status "stress-ng" "Failed to stress container"
          (is_error
            (get_process_info_for_container runtime (remove_prefix s.container_id) (pid ∷ [])))
          s.ignore_exit_codes
          e
unfolding status stress_exited reported
failed-status stress runtime s running p e found exited =
    rw (status, found, stress_exited, exited, reported) refl

module _ (cfg : Specification) (values : Values) (machine : Machine) (fs : FileSystem)
    (info : String → Result Container) (runtime : OciRuntime)
    (provider : Request values.Value → Result StressOpts) where
  -- What the state keeps of the request.
  abbrev Keeps : StressActionState → Request values.Value → StressActionState → Type 0
  Keeps s r s' =
      (s'.execution_id ≡ r.execution_id)
      × (s'.ignore_exit_codes
          ≡ ignored_codes (values.to_bool (lookup "failOnOomKill" r.config)) s.ignore_exit_codes)

  finish-Keeps :
      (s : StressActionState) (r : Request values.Value) (opts : StressOpts)
      {s' : StressActionState}
      → finish cfg values machine fs info runtime provider s r opts ≡ (s', ok tt)
      → Keeps s r s'
  unfolding finish
  finish-Keeps s r opts h =
      let e = ap (λ p. p.0) h in
      (ap (λ x. x.execution_id) (sym e), ap (λ x. x.ignore_exit_codes) (sym e))

  opts-Keeps :
      (s : StressActionState) (r : Request values.Value) (opts : StressOpts)
      {s' : StressActionState}
      → with_opts cfg values machine fs info runtime provider s r opts ≡ (s', ok tt)
      → Keeps s r s'
  unfolding with_opts
  opts-Keeps s r opts h =
      let (adapted, _, h1) =
        attempt-eq-ok (read_and_adapt_to_container_limits machine fs s.sidecar.target_process opts)
          s (finish cfg values machine fs info runtime provider s r) h in
      finish-Keeps s r adapted h1

  sidecar-Keeps :
      (s : StressActionState) (r : Request values.Value) (process : LinuxProcessInfo) (id : String)
      {s' : StressActionState}
      → with_sidecar cfg values machine fs info runtime provider s r process id ≡ (s', ok tt)
      → Keeps s r s'
  unfolding with_sidecar
  sidecar-Keeps s r process id h =
      let held = record s { sidecar = record { target_process = process; id = id } } in
      let (opts, _, h1) =
        attempt-eq-ok (provider r) held
          (with_opts cfg values machine fs info runtime provider held r) h in
      opts-Keeps held r opts h1

  process-Keeps :
      (s : StressActionState) (r : Request values.Value) (process : LinuxProcessInfo)
      {s' : StressActionState}
      → with_process cfg values machine fs info runtime provider s r process ≡ (s', ok tt)
      → Keeps s r s'
  unfolding with_process
  process-Keeps s r process h =
      let (id, _, h1) =
        attempt-eq-ok (sidecar_id r.execution_id s.container_id) s
          (with_sidecar cfg values machine fs info runtime provider s r process) h in
      sidecar-Keeps s r process id h1

  target-Keeps :
      (s : StressActionState) (r : Request values.Value) (target : Container × String)
      {s' : StressActionState}
      → with_target cfg values machine fs info runtime provider s r target ≡ (s', ok tt)
      → Keeps s r s'
  unfolding with_target
  target-Keeps s r target h =
      let named = record s { container_id = target.0.id; target_label = target.1 } in
      let (process, _, h1) =
        attempt-eq-ok
          (context "Failed to read target process info"
            (get_process_info_for_container runtime (remove_prefix target.0.id) namespaces))
          named (with_process cfg values machine fs info runtime provider named r) h in
      process-Keeps named r process h1

  pub prepare-Keeps :
      (s : StressActionState) (r : Request values.Value) {s' : StressActionState}
      → prepare cfg values machine fs info runtime provider s r ≡ (s', ok tt)
      → Keeps s r s'
  unfolding prepare
  prepare-Keeps s r h =
      let (target, _, h1) =
        attempt-eq-ok
          (context "Failed to get target container"
            (get_container_target cfg info r.target_attributes))
          s (with_target cfg values machine fs info runtime provider s r) h in
      target-Keeps s r target h1

  -- An attack that was prepared from a fresh state and whose process then ended by an OOM kill (exit
  -- code 137) is completed, and it reports an error exactly where `failOnOomKill` is set.
  pub oom_kill :
      {P : Type 0} (stress : Stress P) (s : StressActionState) (r : Request values.Value)
      {s' : StressActionState} (running : Dict P) (p : P) (text : String) (e : ExitError)
      → s.ignore_exit_codes ≡ []
      → prepare cfg values machine fs info runtime provider s r ≡ (s', ok tt)
      → lookup r.execution_id running ≡ some p
      → stress.exited p ≡ (true, some (exit_error text e))
      → e.exit_code ≡ pos 137
      → ((status stress runtime s' running).completed ≡ true)
        × (((status stress runtime s' running).error ≡ none)
            ↔ (values.to_bool (lookup "failOnOomKill" r.config) ≡ false))
  oom_kill stress s r {s'} running p text e fresh prepared found exited code =
      let (id, codes) = prepare-Keeps s r prepared in
      let gone =
        is_error
          (get_process_info_for_container runtime (remove_prefix s'.container_id) (pid ∷ [])) in
      let read =
        failed-status stress runtime s' running p (exit_error text e)
          (ap (λ x. lookup x running) id ∙ found) exited in
      let ignored =
        codes ∙ ap (ignored_codes (values.to_bool (lookup "failOnOomKill" r.config))) fresh in
      rw (read, ignored)
        (let (completed, excuses) =
            failed_status-Excused "stress-ng" "Failed to stress container" gone
              (ignored_codes (values.to_bool (lookup "failOnOomKill" r.config)) [])
              (exit_error text e) in
          let oom =
            Excused-oom (values.to_bool (lookup "failOnOomKill" r.config)) gone text e code in
          (completed, ((λ h. oom.0 (excuses.0 h)), (λ h. excuses.1 (oom.1 h)))))
