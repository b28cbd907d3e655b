-- ===== src/Filters.antt =====
-- The network filter of the attacks in extcontainer/action_network.go: `mapToNetworkFilter` and what
-- it uses. The library network, with its types for networks and addresses, is called.
pub mod Protected
use extension_container.Common.{
  ℕ, ◌%◌, ◌^◌, String, ◌<>◌, Bool, true, false, not, Option, none, some, List, [], ◌∷◌, ◌++◌, map,
  ◌==◌, eqb, if◌then◌else◌, Result, ok, err, panic, ◌>>=◌, Error, wrap, length, is_empty,
  trim_space,
}
use extension_container.Common.Dicts.{Dict, lookup}
use extension_container.ActionKit.{
  Messages, Message, warn, RestrictedEndpoint, Request, ExecutionContext, Values,
}

-- `network.PortRange`; the ports are of 16 bits.
pub record PortRange : Type 0 where
  pub from : ℕ
  pub to : ℕ

-- `network.NetWithPortRange`.
pub record NetWithPortRange (Net : Type 0) : Type 0 where
  pub net : Net
  pub ports : PortRange
  pub comment : String

pub record Filter (Net : Type 0) : Type 0 where
  pub include : List (NetWithPortRange Net)
  pub exclude : List (NetWithPortRange Net)

-- The library network, `net.ParseCIDR`, what `dig` resolves in the target, the order by `Compare`,
-- and `ComputeExcludesForOwnIpAndPorts` for the configured ports.
pub record Networks : Type 1 where
  pub Net : Type 0
  pub Ip : Type 0
  pub net_any : List Net
  pub port_range_any : PortRange
  pub parse_cidrs : List String → List Net × List String
  pub parse_cidr : String → Result Net
  pub parse_port_range : String → Result PortRange
  pub ips_to_nets : List Ip → List Net
  pub new_net_with_port_ranges : List Net → List PortRange → List (NetWithPortRange Net)
  pub sorted : List (NetWithPortRange Net) → List (NetWithPortRange Net)
  pub condense : List (NetWithPortRange Net) → ℕ → List (NetWithPortRange Net)
  pub own_excludes : List (NetWithPortRange Net)
  pub resolve : List String → Result (List Ip)

abbrev pub Ranges : Networks → Type 0
Ranges lib = List (NetWithPortRange lib.Net)

module _ (lib : Networks) where
  unfoldable pub parse_port_ranges : List String → Result (List PortRange)
  parse_port_ranges [] = ok []
  parse_port_ranges (r ∷ raw) =
      let others = parse_port_ranges raw in
      if r == ""
      then others
      else (lib.parse_port_range r >>= λ parsed. others >>= λ ranges. ok (parsed ∷ ranges))

  abbrev pub commented : String → Ranges lib → Ranges lib
  commented comment = map (λ (n : NetWithPortRange lib.Net). record n { comment = comment })

  -- The comment for a restricted endpoint.
  unfoldable pub endpoint_comment : RestrictedEndpoint → String
  unfolding trim_space
  endpoint_comment e = trim_space ((if e.name == "" then "" else e.name <> " ") <> e.url)

  abbrev pub uint16 : ℕ → ℕ
  uint16 n = n % 2 ^ 16

  -- The excludes of one endpoint whose network is parsed.
  abbrev pub endpoint_excludes : RestrictedEndpoint → lib.Net → Ranges lib
  endpoint_excludes e net = commented (endpoint_comment e) (
      lib.new_net_with_port_ranges (net ∷ [])
        (record { from = uint16 e.port_min; to = uint16 e.port_max } ∷ []))

  abbrev pub parsed_cidr : RestrictedEndpoint → Result lib.Net
  parsed_cidr e = elim (lib.parse_cidr e.cidr) [
    | ok net ↦ ok net
    | err x ↦ err (wrap ("invalid cidr " <> e.cidr) x)
    | panic ↦ panic
  ]

  unfoldable pub to_excludes : List RestrictedEndpoint → Result (Ranges lib)
  to_excludes [] = ok []
  to_excludes (e ∷ endpoints) = do
    net ← parsed_cidr e
    others ← to_excludes endpoints
    ok (endpoint_excludes e net ++ others)

  unfoldable pub condense_excludes : Ranges lib → Ranges lib × Bool
  condense_excludes excludes =
      let condensed = lib.condense excludes 500 in
      (condensed, not (eqb (length excludes) (length condensed)))

  condensed_message : Message
  condensed_message = record {
    level = warn;
    message =
        "Some excludes (to protect agent and extensions) were aggregated to reduce the number of tc commands necessary.This may lead to less specific exclude rules, some traffic might not be affected, as expected. You can avoid this by configuring a more specific attack (e.g. by specifying ports or CIDRs).";
  }

  -- The networks that two parameters name, as addresses or as names to resolve.
  unfoldable pub named_nets : List String → Result (List lib.Net)
  named_nets names =
      let (cidrs, unresolved) = lib.parse_cidrs names in
      lib.resolve unresolved >>= λ ips. ok (cidrs ++ lib.ips_to_nets ips)

  unfoldable pub included : List lib.Net → List PortRange → Ranges lib
  included cidrs ranges = lib.sorted (
      commented "parameters" (
        lib.new_net_with_port_ranges (if is_empty cidrs then lib.net_any else cidrs)
          (if is_empty ranges then lib.port_range_any ∷ [] else ranges)))

  unfoldable pub excluded : Ranges lib → List lib.Net → Ranges lib
  excluded endpoints cidrs = lib.sorted (
      (endpoints
        ++ commented "parameters" (lib.new_net_with_port_ranges cidrs (lib.port_range_any ∷ [])))
      ++ lib.own_excludes)

  unfoldable pub filter_of : Ranges lib → Ranges lib → Filter lib.Net × Messages
  unfolding condense_excludes condensed_message
  filter_of includes excludes =
      let (kept, condensed) = condense_excludes excludes in
      (
        record { include = includes; exclude = kept },
        if condensed then condensed_message ∷ [] else [],
      )

  module _ (values : Values) where
    unfoldable pub map_to_network_filter :
        Dict values.Value → List RestrictedEndpoint → Result (Filter lib.Net × Messages)
    unfolding named_nets parse_port_ranges to_excludes included excluded filter_of lookup
    map_to_network_filter config endpoints = do
      let array = λ (key : String). values.to_string_array (lookup key config)
      cidrs ← named_nets (array "ip" ++ array "hostname")
      ranges ← parse_port_ranges (array "port")
      restricted ← to_excludes endpoints
      exclude_cidrs ← named_nets (array "excludeIp" ++ array "excludeHostname")
      ok (filter_of (included cidrs ranges) (excluded restricted exclude_cidrs))

-- `netfault.ExecutionContext`.
pub record AttackContext : Type 0 where
  pub experiment_key : String
  pub experiment_execution_id : ℕ
  pub target_execution_id : String

abbrev pub or_zero {ℓ} : {A : Type ℓ} → Option A → A → A
or_zero none zero_value = zero_value
or_zero (some a) zero_value = a

-- Go panics where the request has no execution context.
unfoldable pub map_to_execution_context : {V : Type 0} → Request V → Result AttackContext
map_to_execution_context request = elim request.execution_context [
  | none ↦ panic
  | some c ↦ ok (record {
    experiment_key = or_zero c.experiment_key "";
    experiment_execution_id = or_zero c.execution_id 0;
    target_execution_id = request.execution_id;
  })
]
