-- ===== src/Examples/Kept.antt =====
-- Runs of the actions that fill memory and disks, stop and pause, and inject DNS errors.
use extension_container.Common.{
  ℕ, true, false, Option, none, some, [], ◌∷◌, ◌≡◌, refl, ◌++◌, ◌≢◌, Result, cut, strip_prefix,
  panic, ne_of_==-false, ok, Error, failure, if◌then◌else◌,
}
use extension_container.Common.Int.{ℤ, pos}
use extension_container.Common.Dicts.{Dict, lookup, insert}
use extension_container.Processes.{stops, exit_error, ExitError}
use extension_container.Processes.Kept.Others.{nothing}
use extension_container.FillMemory.{FillMemoryActionState, Memfill}
use extension_container.FillMemory as FillMemory
use extension_container.FillMemory.Kept.{fill_memory_stops_once}
use extension_container.FillMemory.Endings as MemoryEndings
use extension_container.FillDisk.{FillDiskActionState, Diskfill, mb_left, at_once}
use extension_container.FillDisk as FillDisk
use extension_container.FillDisk.Kept.{fill_disk_stops_once}
use extension_container.FillDisk.Endings as DiskEndings
use extension_container.Stop.{
  stop_container, is_stop_container_completed, cancel_stop_container, offering, closed,
}
use extension_container.Stop.Told.{Reached, told_once, errors, errors_of, returns, closes}
use extension_container.Stop.Told.Reached.{too_late, goes, cancels}
use extension_container.Engines.{Client}
use extension_container.Engines.Docker
use extension_container.Examples.Discovered.{api}
use extension_container.Targets.{remove_prefix}
use extension_container.Pause as Pause
use extension_container.Pause.Balance.{Ended, pause_undone}
use extension_container.DnsInjection.{DnsErrorInjectionState, DnsInject}
use extension_container.DnsInjection as DnsInjection
use extension_container.DnsInjection.Single.{dns_stop_once, dns_status, Tells}
use extension_container.Examples.Data.{process, sidecar}

abbrev memfill : Memfill ℕ
memfill = record {
  new_memfill_process = λ _ _. ok 1;
  run = λ _. ok tt;
  arguments = λ _. "80%";
  exited = λ _. (false, none);
  halt = λ _. ok tt;
}

abbrev memory_state : FillMemoryActionState
memory_state = record {
  execution_id = "e";
  container_id = "containerd://0123456789";
  target_label = "app";
  target_process = process;
  fill_memory_opts = record { size = pos 80; mode = "usage"; unit = "%"; duration = pos 1000 };
  ignore_exit_codes = pos 137 ∷ [];
}

fill_memory_stops_once_example :
    let started = FillMemory.start memfill memory_state [] in
    let stopped = FillMemory.stop memfill memory_state started.running in
    (stopped.calls ≡ stops 1 ∷ [])
    × ((FillMemory.stop memfill memory_state stopped.running).calls ≡ [])
unfolding FillMemory.start
fill_memory_stops_once_example =
    fill_memory_stops_once memfill memfill memfill memory_state [] 1 refl nothing nothing

abbrev failed : ExitError
failed = record { exit_code = pos 2; text = "exit status 2"; stderr = "no space" }

abbrev diskfill : Diskfill ℕ
diskfill = record {
  new_diskfill_runc = λ _ _. ok 1;
  run = λ _. ok tt;
  arguments = λ _. "dd";
  noop = λ _. false;
  exited = λ _. (true, some (exit_error "exit status 2" failed));
  halt = λ _. ok tt;
}

abbrev disk_state : FillDiskActionState
disk_state = record {
  execution_id = "e";
  container_id = "containerd://0123456789";
  target_label = "app";
  sidecar = sidecar;
  fill_disk_opts = record {
    temp_path = "/tmp";
    block_size = pos 5;
    size = pos 500;
    mode = mb_left;
    method = at_once;
  };
  ignore_exit_codes = [];
}

fill_disk_stops_once_example :
    let started = FillDisk.start diskfill disk_state [] in
    let stopped = FillDisk.stop diskfill disk_state started.running in
    (stopped.calls ≡ stops 1 ∷ [])
    × ((FillDisk.stop diskfill disk_state stopped.running).calls ≡ [])
unfolding FillDisk.start
fill_disk_stops_once_example =
    fill_disk_stops_once diskfill diskfill diskfill disk_state [] 1 refl nothing nothing

abbrev refused : Option Error
refused = some (failure "refused")

-- The client answers an error later than a second after `Start`.
late : Reached "e" refused (insert "e" (offering refused) (stop_container "e" none []).0) [] []
unfolding stop_container lookup insert
late = goes (too_late []) refl returns

-- A call of `Stop` takes that error, and the goroutine ends.
cancelled : Reached "e" refused (("e", closed) ∷ []) [] (refused ∷ [])
unfolding cancel_stop_container stop_container lookup insert
cancelled = goes (cancels late) refl closes

told_once_example :
    errors ((is_stop_container_completed "e" (("e", closed) ∷ [])).1.1 ∷ [])
      ++ errors (refused ∷ [])
    ≡ errors_of refused
unfolding is_stop_container_completed lookup
told_once_example = told_once "e" refused cancelled refl

-- Docker's client.
abbrev client : Client
unfolding Docker.client
client = Docker.client api

abbrev pause_state : Pause.PauseActionState
pause_state = record { container_id = "docker://0123456789"; target_label = "app" }

ok_not_panic : {r : Result ℤ} {n : ℤ} → r ≡ ok n → r ≡ panic → ⊥
ok_not_panic h e = cc

answered : client.get_pid "0123456789" ≡ ok (pos 7)
unfolding Docker.client Docker.get_pid remove_prefix cut strip_prefix
answered = refl

no_panic : client.get_pid "0123456789" ≢ panic
no_panic = ok_not_panic answered

pause_undone_example : Ended client client pause_state true
unfolding Docker.client Docker.get_pid remove_prefix cut strip_prefix
pause_undone_example = pause_undone client client pause_state no_panic

abbrev dns_inject : DnsInject ℕ
dns_inject = record {
  run = λ _. ok tt;
  exited = λ _. (true, none);
  metrics = λ _. none;
  halt = λ _. ok tt;
}

abbrev dns_state : DnsErrorInjectionState
dns_state = record { execution_id = "e"; container_id = "0123456789" }

dns_stop_once_example :
    let m : Dict ℕ = ("e", 1) ∷ ("f", 2) ∷ [] in
    let stopped = DnsInjection.stop dns_inject dns_state m in
    (stopped.calls ≡ stops 1 ∷ [])
    × ((DnsInjection.stop dns_inject dns_state stopped.handles).calls ≡ [])
    × ((DnsInjection.start dns_inject dns_state stopped.handles).calls ≡ [])
    × (lookup "f" stopped.handles ≡ lookup "f" m)
unfolding lookup
dns_stop_once_example =
    dns_stop_once dns_inject dns_state (("e", 1) ∷ ("f", 2) ∷ []) 1 "f" refl
      (ne_of_==-false "f" "e" refl)

dns_status_example :
    let told = DnsInjection.status dns_inject dns_state (("e", 1) ∷ []) in
    Tells none (true, none) told.1
    × ((DnsInjection.stop dns_inject dns_state told.0).calls ≡ (if true then [] else stops 1 ∷ []))
unfolding lookup
dns_status_example = dns_status dns_inject dns_state (("e", 1) ∷ []) 1 refl
