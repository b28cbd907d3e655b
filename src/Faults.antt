-- ===== src/Faults.antt =====
-- The options of the network attacks: the providers in extcontainer/action_network_delay.go,
-- action_network_loss.go, action_network_corrupt.go, action_network_bandwidth.go,
-- action_network_tcp_reset.go, action_network_blackhole.go and action_network_dns.go.
pub mod Affected
pub mod Kinds
pub mod Context
pub mod Provided
pub mod Declared
use extension_container.Common.{
  ℕ, String, ◌<>◌, Bool, true, false, Option, none, some, List, [], ◌∷◌, ◌++◌, if◌then◌else◌,
  Result, ok, err, panic, ◌>>=◌, failure, is_empty,
}
use extension_container.Common.Int.{ℤ, pos, wrap, ◌*ℤ◌, quot}
use extension_container.Common.Dicts.{Dict, lookup}
use extension_container.ActionKit.{Messages, Message, info_message, Request, Values}
use extension_container.Targets.{get_restricted_endpoints}
use extension_container.Stress.Options.{milliseconds}
use extension_container.Filters.{
  Networks, Filter, PortRange, AttackContext, map_to_network_filter, map_to_execution_context,
  uint16,
}

-- What the target's network answers: its interfaces, and whether Istio redirects traffic, where an
-- error counts as no.
pub record Runner : Type 0 where
  pub list_non_loopback_interface_names : Result (List String)
  pub has_istio_redirect : Bool

pub record DelayOpts (Net : Type 0) : Type 0 where
  pub filter : Filter Net
  pub execution_context : AttackContext
  pub delay : ℤ
  pub jitter : ℤ
  pub interfaces : List String
  pub tcp_psh_only : Bool

pub record PackageLossOpts (Net : Type 0) : Type 0 where
  pub filter : Filter Net
  pub execution_context : AttackContext
  pub loss : ℕ
  pub interfaces : List String

pub record CorruptPackagesOpts (Net : Type 0) : Type 0 where
  pub filter : Filter Net
  pub execution_context : AttackContext
  pub corruption : ℕ
  pub interfaces : List String

pub record LimitBandwidthOpts (Net : Type 0) : Type 0 where
  pub filter : Filter Net
  pub execution_context : AttackContext
  pub bandwidth : String
  pub interfaces : List String

pub record TcpResetOpts (Net : Type 0) : Type 0 where
  pub filter : Filter Net
  pub execution_context : AttackContext
  pub interfaces : List String
  pub use_mangle_chain : Bool

pub record BlackholeOpts (Net : Type 0) : Type 0 where
  pub filter : Filter Net
  pub execution_context : AttackContext

unfoldable pub some_interface : List String → Result (List String)
some_interface [] = err (failure "no network interfaces specified")
some_interface (i ∷ is) = ok (i ∷ is)

-- The jitter of a delay.
unfoldable pub jitter_of : Bool → ℤ → ℤ
unfolding wrap ◌*ℤ◌ quot
jitter_of has_jitter delay = if has_jitter then quot (wrap (delay *ℤ pos 30)) (pos 100) else pos 0

abbrev pub istio_message : Message
istio_message =
    info_message
      "Istio sidecar detected, using mangle+filter mark-based approach for TCP reset rules."

module _ (lib : Networks) (values : Values) (runner : Runner) where
  unfoldable pub value : Request values.Value → String → Option values.Value
  unfolding lookup
  value request key = lookup key request.config

  -- The configured interfaces, or else all of the target; an error where there is none.
  unfoldable pub affected_interfaces : Request values.Value → Result (List String)
  unfolding some_interface value
  affected_interfaces request =
      let configured = values.to_string_array (value request "networkInterface") in
      (if is_empty configured then runner.list_non_loopback_interface_names else ok configured)
      >>= some_interface

  unfoldable pub request_filter : Request values.Value → Result (Filter lib.Net × Messages)
  unfolding map_to_network_filter get_restricted_endpoints
  request_filter request =
      map_to_network_filter lib values request.config (get_restricted_endpoints request)

  unfoldable pub delay : Request values.Value → Result (DelayOpts lib.Net × Messages)
  unfolding request_filter affected_interfaces map_to_execution_context jitter_of milliseconds value
  delay request = do
    let delay_time = milliseconds (values.to_int64 (value request "networkDelay"))
    filtered ← request_filter request
    interfaces ← affected_interfaces request
    e_ctx ← map_to_execution_context request
    ok (
      record {
        filter = filtered.0;
        execution_context = e_ctx;
        delay = delay_time;
        jitter = jitter_of (values.to_bool (value request "networkDelayJitter")) delay_time;
        interfaces = interfaces;
        tcp_psh_only = values.to_bool (value request "tcpDataPacketsOnly");
      },
      filtered.1,
    )

  unfoldable pub package_loss : Request values.Value → Result (PackageLossOpts lib.Net × Messages)
  unfolding request_filter affected_interfaces map_to_execution_context value
  package_loss request = do
    filtered ← request_filter request
    interfaces ← affected_interfaces request
    e_ctx ← map_to_execution_context request
    ok (
      record {
        filter = filtered.0;
        execution_context = e_ctx;
        loss = values.to_uint (value request "networkLoss");
        interfaces = interfaces;
      },
      filtered.1,
    )

  unfoldable pub corrupt_packages :
      Request values.Value → Result (CorruptPackagesOpts lib.Net × Messages)
  unfolding request_filter affected_interfaces map_to_execution_context value
  corrupt_packages request = do
    filtered ← request_filter request
    interfaces ← affected_interfaces request
    e_ctx ← map_to_execution_context request
    ok (
      record {
        filter = filtered.0;
        execution_context = e_ctx;
        corruption = values.to_uint (value request "networkCorruption");
        interfaces = interfaces;
      },
      filtered.1,
    )

  unfoldable pub limit_bandwidth :
      Request values.Value → Result (LimitBandwidthOpts lib.Net × Messages)
  unfolding request_filter affected_interfaces map_to_execution_context value
  limit_bandwidth request = do
    filtered ← request_filter request
    interfaces ← affected_interfaces request
    e_ctx ← map_to_execution_context request
    ok (
      record {
        filter = filtered.0;
        execution_context = e_ctx;
        bandwidth = values.to_string (value request "bandwidth");
        interfaces = interfaces;
      },
      filtered.1,
    )

  unfoldable pub tcp_reset : Request values.Value → Result (TcpResetOpts lib.Net × Messages)
  unfolding request_filter affected_interfaces map_to_execution_context
  tcp_reset request = do
    filtered ← request_filter request
    interfaces ← affected_interfaces request
    e_ctx ← map_to_execution_context request
    let istio = runner.has_istio_redirect
    ok (
      record {
        filter = filtered.0;
        execution_context = e_ctx;
        interfaces = interfaces;
        use_mangle_chain = istio;
      },
      filtered.1 ++ (if istio then istio_message ∷ [] else []),
    )

  unfoldable pub blackhole : Request values.Value → Result (BlackholeOpts lib.Net × Messages)
  unfolding request_filter map_to_execution_context
  blackhole request = do
    filtered ← request_filter request
    e_ctx ← map_to_execution_context request
    ok (record { filter = filtered.0; execution_context = e_ctx }, filtered.1)

  unfoldable pub block_dns : Request values.Value → Result (BlackholeOpts lib.Net × Messages)
  unfolding map_to_execution_context value
  block_dns request = do
    let dns_port = uint16 lib (values.to_uint (value request "dnsPort"))
    e_ctx ← map_to_execution_context request
    ok (
      record {
        filter = record {
          include =
              lib.new_net_with_port_ranges lib.net_any
                (record { from = dns_port; to = dns_port } ∷ []);
          exclude = [];
        };
        execution_context = e_ctx;
      },
      [],
    )
