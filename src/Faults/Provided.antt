-- ===== src/Faults/Provided.antt =====
-- What the providers of extcontainer/action_network_*.go give for a request.
use mathlib.Core.List.{Memᴰ}
use extension_container.Common.{
  ℕ, ◌%◌, ◌^◌, String, Option, List, [], ◌∷◌, ◌++◌, ◌≡◌, if◌then◌else◌, ok,
}
use extension_container.Common.Dicts.{lookup}
use extension_container.ActionKit.{Messages, Request, Values, RestrictedEndpoint}
use extension_container.Targets.{get_restricted_endpoints}
use extension_container.Stress.Options.{milliseconds}
use extension_container.Filters.{Networks, NetWithPortRange, Filter, AttackContext}
use extension_container.Filters.Protected.{Combines, SortKeeps, CondenseCovers, endpoint_range}
use extension_container.Faults.{Runner, request_filter, delay, jitter_of, istio_message}
use extension_container.Faults.Context.{IsContextOf}
use extension_container.Faults.Affected.{Affects}
use extension_container.Faults.Kinds.{
  Kind, delays, loses, corrupts, limits, resets, blackholes, blocks_dns, AttackOpts, delay_opts,
  package_loss_opts, corrupt_packages_opts, limit_bandwidth_opts, tcp_reset_opts, blackhole_opts,
}

module _ (lib : Networks) (values : Values) (runner : Runner) (request : Request values.Value) where
  abbrev configured : String → Option values.Value
  configured key = lookup key request.config

  -- Interfaces, filter and context are those of the request.
  abbrev pub IsOf : List String → Filter lib.Net → AttackContext → Messages → Type 0
  IsOf interfaces filter e_ctx messages =
      Affects lib values runner request interfaces
      × (request_filter lib values runner request ≡ ok (filter, messages))
      × IsContextOf request e_ctx

  -- The DNS port on every network, and no exclude.
  abbrev pub IsDnsOnly : Filter lib.Net → ℕ → Type 0
  IsDnsOnly filter port =
      (filter.include
        ≡ lib.new_net_with_port_ranges lib.net_any (record { from = port; to = port } ∷ []))
      × (filter.exclude ≡ [])

  abbrev pub IsProvided : Kind → AttackOpts lib.Net → Messages → Type 0
  IsProvided delays (delay_opts o) messages =
      IsOf o.interfaces o.filter o.execution_context messages
      × (o.delay ≡ milliseconds (values.to_int64 (configured "networkDelay")))
      × (o.jitter ≡ jitter_of (values.to_bool (configured "networkDelayJitter")) o.delay)
      × (o.tcp_psh_only ≡ values.to_bool (configured "tcpDataPacketsOnly"))
  IsProvided loses (package_loss_opts o) messages =
      IsOf o.interfaces o.filter o.execution_context messages
      × (o.loss ≡ values.to_uint (configured "networkLoss"))
  IsProvided corrupts (corrupt_packages_opts o) messages =
      IsOf o.interfaces o.filter o.execution_context messages
      × (o.corruption ≡ values.to_uint (configured "networkCorruption"))
  IsProvided limits (limit_bandwidth_opts o) messages =
      IsOf o.interfaces o.filter o.execution_context messages
      × (o.bandwidth ≡ values.to_string (configured "bandwidth"))
  IsProvided resets (tcp_reset_opts o) messages =
      (o.use_mangle_chain ≡ runner.has_istio_redirect)
      × ((own : Messages) × IsOf o.interfaces o.filter o.execution_context own
          × (messages ≡ own ++ (if runner.has_istio_redirect then istio_message ∷ [] else [])))
  IsProvided blackholes (blackhole_opts o) messages =
      (request_filter lib values runner request ≡ ok (o.filter, messages))
      × IsContextOf request o.execution_context
  IsProvided blocks_dns (blackhole_opts o) messages =
      IsDnsOnly o.filter (values.to_uint (configured "dnsPort") % 2 ^ 16)
      × IsContextOf request o.execution_context
      × (messages ≡ [])
  IsProvided _ _ _ = ⊥

  module _ (Covers : NetWithPortRange lib.Net → NetWithPortRange lib.Net → Type 0)
      (combines : Combines lib) (keeps : SortKeeps lib) (covers : CondenseCovers lib Covers) where
    -- Each endpoint that the request restricts is covered by an exclude of the filter.
    abbrev pub Spares : Filter lib.Net → Type 0
    Spares filter =
        (e : RestrictedEndpoint) (net : lib.Net)
        → Memᴰ e (get_restricted_endpoints request)
        → lib.parse_cidr e.cidr ≡ ok net
        → (y : NetWithPortRange lib.Net) × Memᴰ y filter.exclude
          × Covers (endpoint_range lib e net) y

    abbrev pub filter_of_opts : AttackOpts lib.Net → Filter lib.Net
    filter_of_opts (delay_opts o) = o.filter
    filter_of_opts (package_loss_opts o) = o.filter
    filter_of_opts (corrupt_packages_opts o) = o.filter
    filter_of_opts (limit_bandwidth_opts o) = o.filter
    filter_of_opts (tcp_reset_opts o) = o.filter
    filter_of_opts (blackhole_opts o) = o.filter

    -- Every attack but the block of DNS spares the restricted endpoints.
    abbrev pub Protects : Kind → AttackOpts lib.Net → Type 0
    Protects blocks_dns o = Unit {0}
    Protects _ o = Spares (filter_of_opts o)

    abbrev Both : Kind → AttackOpts lib.Net × Messages → Type 0
    Both kind p = IsProvided kind p.0 p.1 × Protects kind p.0
