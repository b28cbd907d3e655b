-- ===== src/DnsInjection.antt =====
-- extcontainer/action_network_dns_error_injection.go: `dnsErrorInjectionAction`. Its handles stand in
-- a map that the package shares; the library dnsinject is called.
pub mod Options
pub mod Prepare
pub mod Single
use extension_container.Common.{
  ℕ, String, ◌<>◌, Bool, true, false, Option, none, some, List, [], ◌∷◌, if◌then◌else◌, Result, ok,
  err, panic, ◌>>=◌, context, failure, decimal,
}
use extension_container.Common.Dicts.{Dict, lookup, insert, erase}
use extension_container.ActionKit.{Messages, StatusResult, errored, Message, info}
use extension_container.Processes.{Call, starts, stops}

pub record DnsErrorInjectionState : Type 0 where
  pub execution_id : String
  pub container_id : String

-- `dnsinject.Metrics`.
pub record Metrics : Type 0 where
  pub seen : ℕ
  pub dns_matched : ℕ
  pub hostname_filtered : ℕ
  pub injected_nxdomain : ℕ
  pub injected_servfail : ℕ
  pub injected_timeout : ℕ
  pub injected : ℕ

-- `Start`, `Exited`, `Metrics` and `Stop` of a handle. The failure of an exit is known by its text.
pub record DnsInject (H : Type 0) : Type 0 where
  pub run : H → Result (Unit {0})
  pub exited : H → Bool × Option String
  pub metrics : H → Option Metrics
  pub halt : H → Result (Unit {0})

pub record Outcome (H R : Type 0) : Type 0 where
  pub handles : Dict H
  pub calls : List (Call H)
  pub result : Result R

-- The text of `formatDNSMetricsMessages`; the message has no level.
unfoldable pub metrics_markdown : Metrics → String
unfolding decimal
metrics_markdown m =
    "### Packets Processed\n- **Total Packets:** "
    <> (decimal m.seen
        <> ("\n- **DNS Requests Matched:** "
            <> (decimal m.dns_matched
                <> ("\n- **Hostname Filtered:** "
                    <> (decimal m.hostname_filtered
                        <> ("\n\n### Injections by Type\n- **NXDOMAIN:** "
                            <> (decimal m.injected_nxdomain
                                <> ("\n- **SERVFAIL:** "
                                    <> (decimal m.injected_servfail
                                        <> ("\n- **TIMEOUT:** "
                                            <> (decimal m.injected_timeout
                                                <> ("\n- **Total Injected:** "
                                                    <> decimal m.injected))))))))))))

-- What `Status` answers: whether it is completed, the title of an error, the statistics.
pub record DnsStatus : Type 0 where
  pub completed : Bool
  pub error : Option String
  pub statistics : Option String

abbrev exit_title : Option String → String
exit_title none = "dns-inject exited unexpectedly"
exit_title (some text) = "dns-inject failed: " <> text

module _ {H : Type 0} (dns_inject : DnsInject H) where
  unfoldable pub start_of : DnsErrorInjectionState → Dict H → Option H → Outcome H (Unit {0})
  start_of state handles none = record {
    handles = handles;
    calls = [];
    result = err (failure ("no dns-inject handle found for execution " <> state.execution_id));
  }
  start_of state handles (some h) = record {
    handles = handles;
    calls = starts h ∷ [];
    result = context "failed to start dns-inject" (dns_inject.run h);
  }

  unfoldable pub start : DnsErrorInjectionState → Dict H → Outcome H (Unit {0})
  unfolding start_of lookup
  start state handles = start_of state handles (lookup state.execution_id handles)

  statistics_of : Option Metrics → Option String
  unfolding metrics_markdown
  statistics_of none = none
  statistics_of (some m) = some (metrics_markdown m)

  unfoldable pub handle_status :
      DnsErrorInjectionState → Dict H → H → Bool × Option String → Dict H × DnsStatus
  unfolding erase statistics_of
  handle_status state handles h (true, problem) = (
    erase state.execution_id handles,
    record { completed = true; error = some (exit_title problem); statistics = none },
  )
  handle_status state handles h (false, problem) = (
    handles,
    record { completed = false; error = none; statistics = statistics_of (dns_inject.metrics h) },
  )

  unfoldable pub status_of : DnsErrorInjectionState → Dict H → Option H → Dict H × DnsStatus
  unfolding handle_status
  status_of state handles none =
      (handles, record { completed = true; error = none; statistics = none })
  status_of state handles (some h) = handle_status state handles h (dns_inject.exited h)

  unfoldable pub status : DnsErrorInjectionState → Dict H → Dict H × DnsStatus
  unfolding status_of lookup
  status state handles = status_of state handles (lookup state.execution_id handles)

  halt_result : Result (Unit {0}) → Result (Unit {0})
  halt_result panic = panic
  halt_result _ = ok tt

  unfoldable pub stop_of : DnsErrorInjectionState → Dict H → Option H → Outcome H (Unit {0})
  unfolding erase halt_result
  stop_of state handles none = record { handles = handles; calls = []; result = ok tt }
  -- An error of the handle's `Stop` is only logged.
  stop_of state handles (some h) = record {
    handles = erase state.execution_id handles;
    calls = stops h ∷ [];
    result = halt_result (dns_inject.halt h);
  }

  unfoldable pub stop : DnsErrorInjectionState → Dict H → Outcome H (Unit {0})
  unfolding stop_of lookup
  stop state handles = stop_of state handles (lookup state.execution_id handles)
