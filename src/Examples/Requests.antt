-- ===== src/Examples/Requests.antt =====
-- Runs of what reads a request: the target, the filters and the options.
use mathlib.Core.List.{Memᴰ}
use mathlib.Core.List.Memᴰ.{head}
use extension_container.Common.{
  ◌*◌, String, true, false, some, List, [], ◌∷◌, ◌≡◌, refl, ok, arith, contains_text, strip_prefix,
  strip_prefix, if◌then◌else◌,
}
use extension_container.Common.Int.{pos}
use extension_container.Common.Dicts.{lookup}
use extension_container.ActionKit.{info_message, Request, RestrictedEndpoint}
use extension_container.Targets.{
  remove_prefix, add_prefix, get_container_target, has_disallowed_k8s_namespace_label,
  first_of_list,
}
use extension_container.Targets.Prefixes.{remove_prefix-add_prefix}
use extension_container.Targets.Selection.{InAllowedNamespace, get_container_target-checked}
use extension_container.Stress.Options.{milliseconds}
use extension_container.Filters.{
  Networks, NetWithPortRange, PortRange, Filter, AttackContext, map_to_network_filter,
  endpoint_comment,
}
use extension_container.Filters.Protected.{endpoint_range, endpoints_excluded}
use extension_container.Faults.{Runner, DelayOpts, TcpResetOpts, delay, tcp_reset, jitter_of}
use extension_container.Faults.Affected.{delay_times}
use extension_container.Examples.Data.{
  Given, flag, number, values, cfg, container, info, request_of,
}

remove_prefix-add_prefix_example :
    (remove_prefix (add_prefix "0123" "docker") ≡ "0123")
    × (add_prefix (add_prefix "0123" "docker") "cri-o" ≡ add_prefix "0123" "docker")
    × (remove_prefix "0123" ≡ "0123")
unfolding contains_text strip_prefix
remove_prefix-add_prefix_example = remove_prefix-add_prefix "0123" "docker" "cri-o" refl refl

selected :
    get_container_target cfg info (request_of []).target_attributes
    ≡ ok (container, "containerd://0123456789")
unfolding get_container_target lookup strip_prefix has_disallowed_k8s_namespace_label
selected = refl

get_container_target-checked_example :
    ((id : String) × (first_of_list (lookup "container.id" (request_of []).target_attributes)
        ≡ some id)
      × (info (remove_prefix id) ≡ ok container))
    × (has_disallowed_k8s_namespace_label cfg container.labels ≡ false)
    × InAllowedNamespace cfg container
get_container_target-checked_example =
    get_container_target-checked cfg info (request_of []).target_attributes container
      "containerd://0123456789" selected

delay_times_example :
    (milliseconds (pos 500) ≡ pos (500 * 1000000))
    × (jitter_of true (milliseconds (pos 500)) ≡ pos (if true then 500 * 300000 else 0))
delay_times_example = delay_times true 500 (omega arith)

abbrev any_range : PortRange
any_range = record { from = 1; to = 65534 }

-- Networks known by their texts; ranges of one network and one range of ports.
abbrev ranges_of : List String → List PortRange → List (NetWithPortRange String)
ranges_of nets ports = elim nets [
  | [] ↦ []
  | n ∷ _ ↦ elim ports [ [] ↦ [] | p ∷ _ ↦ record { net = n; ports = p; comment = "" } ∷ [] ]
]

abbrev pub lib : Networks
lib = record {
  Net = String;
  Ip = String;
  net_any = "0.0.0.0/0" ∷ [];
  port_range_any = any_range;
  parse_cidrs = λ names. (names, []);
  parse_cidr = λ s. ok s;
  parse_port_range = λ _. ok (record { from = 53; to = 53 });
  ips_to_nets = λ ips. ips;
  new_net_with_port_ranges = ranges_of;
  sorted = λ xs. xs;
  condense = λ xs _. xs;
  own_excludes = [];
  resolve = λ _. ok [];
}

abbrev endpoint : RestrictedEndpoint
endpoint = record { name = "agent"; url = ""; cidr = "10.0.0.1/32"; port_min = 80; port_max = 8080 }

abbrev excluded_endpoint : NetWithPortRange String
excluded_endpoint = record {
  net = "10.0.0.1/32";
  ports = record { from = 80; to = 8080 };
  comment = "agent";
}

abbrev filter : Filter String
filter = record {
  include = record { net = "0.0.0.0/0"; ports = any_range; comment = "parameters" } ∷ [];
  exclude = excluded_endpoint ∷ [];
}

mapped : map_to_network_filter lib values [] (endpoint ∷ []) ≡ ok (filter, [])
unfolding map_to_network_filter endpoint_comment
mapped = refl

endpoints_excluded_example :
    (y : NetWithPortRange String) × Memᴰ y (excluded_endpoint ∷ [])
    × (endpoint_range lib endpoint "10.0.0.1/32" ≡ y)
endpoints_excluded_example =
    endpoints_excluded lib values (λ x y. x ≡ y) (λ _ _. head refl) (λ _ _ m. m)
      (λ _ _ x m. (x, m, refl)) [] (endpoint ∷ []) mapped endpoint "10.0.0.1/32" (head refl) refl

abbrev pub runner : Runner
runner = record { list_non_loopback_interface_names = ok ("eth0" ∷ []); has_istio_redirect = true }

abbrev pub delay_request : Request Given
delay_request =
    request_of (("networkDelay", number (pos 500)) ∷ ("networkDelayJitter", flag true) ∷ [])

abbrev run_context : AttackContext
run_context = record {
  experiment_key = "ADM-1";
  experiment_execution_id = 4;
  target_execution_id = "00000000-0000-0000-0000-000000000001";
}

abbrev delayed_opts : DelayOpts String
delayed_opts = record {
  filter = filter;
  execution_context = run_context;
  delay = pos 500000000;
  jitter = pos 150000000;
  interfaces = "eth0" ∷ [];
  tcp_psh_only = false;
}

delayed : delay lib values runner delay_request ≡ ok (delayed_opts, [])
unfolding delay endpoint_comment
delayed = refl

abbrev reset_opts : TcpResetOpts String
reset_opts = record {
  filter = filter;
  execution_context = run_context;
  interfaces = "eth0" ∷ [];
  use_mangle_chain = true;
}

reset :
    tcp_reset lib values runner delay_request
    ≡ ok (
      reset_opts,
      info_message
            "Istio sidecar detected, using mangle+filter mark-based approach for TCP reset rules."
          ∷ [],
    )
unfolding tcp_reset endpoint_comment
reset = refl
