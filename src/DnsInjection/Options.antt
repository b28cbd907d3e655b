-- ===== src/DnsInjection/Options.antt =====
-- `parseDNSInjectOpts` of extcontainer/action_network_dns_error_injection.go.
pub mod Parsed
use extension_container.Common.{
  String, ◌<>◌, Bool, true, false, Option, none, some, List, [], ◌∷◌, ◌==◌, if◌then◌else◌, Result,
  ok, err, panic, ◌>>=◌, context, failure, wrap,
}
use extension_container.Common.Dicts.{Dict, lookup}
use extension_container.ActionKit.{Values}
use extension_container.Filters.{Networks, PortRange}

pub data ErrorType : Type 0 where
  nxdomain servfail timeout : ErrorType

-- `dnsinject.Opts`.
pub record InjectOpts (Net : Type 0) : Type 0 where
  pub error_types : List ErrorType
  pub cidrs : List Net
  pub port_range : PortRange
  pub hostnames : List String

unfoldable pub error_type : String → Option ErrorType
error_type s =
    if s == "NXDOMAIN"
    then some nxdomain
    else if s == "SERVFAIL"
    then some servfail
    else if s == "TIMEOUT"
    then some timeout
    else none

-- One round of the loop over the selected types, with the result of those that follow.
unfoldable pub add_type :
    String → Option ErrorType → Result (List ErrorType) → Result (List ErrorType)
add_type s none others = err (failure ("invalid DNS error type: " <> s))
add_type s (some t) others = others >>= λ ts. ok (t ∷ ts)

unfoldable pub error_types : List String → Result (List ErrorType)
unfolding error_type add_type
error_types [] = ok []
error_types (s ∷ ss) = add_type s (error_type s) (error_types ss)

unfoldable pub selected_types : List String → Result (List ErrorType)
unfolding error_types
selected_types [] = err (failure "at least one DNS error type must be selected")
selected_types (s ∷ ss) = error_types (s ∷ ss)

module _ (lib : Networks) where
  -- The loop over the CIDRs. The verb %q quotes, here for a text that needs no escapes.
  unfoldable pub parse_cidr_list : List String → Result (List lib.Net)
  parse_cidr_list [] = ok []
  parse_cidr_list (s ∷ ss) =
      let others = parse_cidr_list ss in
      context ("invalid CIDR \"" <> (s <> "\"")) (lib.parse_cidr s) >>= λ net.
      others >>= λ nets. ok (net ∷ nets)

  unfoldable pub port_range_of : String → Result PortRange
  port_range_of s = context "invalid port" (lib.parse_port_range (if s == "" then "53" else s))

  unfoldable pub parse_dns_inject_opts :
      (values : Values) → Dict values.Value → Result (InjectOpts lib.Net)
  unfolding selected_types port_range_of parse_cidr_list lookup
  parse_dns_inject_opts values config = do
    let array = λ (key : String). values.to_string_array (lookup key config)
    types ← selected_types (array "dnsErrorType")
    ports ← port_range_of (values.to_string (lookup "port" config))
    cidrs ← parse_cidr_list (array "cidr")
    ok (record {
      error_types = types;
      cidrs = cidrs;
      port_range = ports;
      hostnames = array "hostname";
    })
