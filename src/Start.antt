-- ===== src/Start.antt =====
-- main.go: what the start of the extension sets up, and what its end closes. The HTTP server, the
-- health probes, the signal handlers and logging are left out.
pub mod Ended
use extension_container.Common.{ℕ, String, Bool, List, [], ◌∷◌, Result, ok, err, panic, ◌>>=◌, map}
use extension_container.Common.Int.{ℤ}
use extension_container.Config.{Specification}
use extension_container.Engines.{Client, default_runc_root}
use extension_container.Engines.Choice.{Makers, new_client, or_default}
use extension_container.Engines.Liveness.{Check, register_liveness_check, close_check}
use extension_container.FillDisk.Options.{Names}
use extension_container.Describe.{ActionDescription}
use extension_container.Describe.State.{
  stop_description, pause_description, dns_error_injection_description,
}
use extension_container.Describe.Quality.{
  delay_description, package_loss_description, corrupt_packages_description,
  limit_bandwidth_description,
}
use extension_container.Describe.Reach.{
  tcp_reset_description, blackhole_description, block_dns_description,
}
use extension_container.Describe.Stress.{
  stress_cpu_description, stress_memory_description, stress_io_description,
}
use extension_container.Describe.Fill.{MemfillNames, fill_memory_description, fill_disk_description}
use extension_container.Discovery.Described.{DiscoveryDescription, describe}

-- The actions in the order in which they are registered.
unfoldable pub registered_actions : MemfillNames → Names → List ActionDescription
unfolding stop_description pause_description dns_error_injection_description delay_description
    package_loss_description corrupt_packages_description limit_bandwidth_description
    tcp_reset_description blackhole_description block_dns_description stress_cpu_description
    stress_memory_description stress_io_description fill_memory_description fill_disk_description
registered_actions mem disk =
    pause_description
    ∷ stop_description
    ∷ stress_cpu_description
    ∷ stress_memory_description
    ∷ stress_io_description
    ∷ blackhole_description
    ∷ block_dns_description
    ∷ delay_description
    ∷ dns_error_injection_description
    ∷ limit_bandwidth_description
    ∷ corrupt_packages_description
    ∷ package_loss_description
    ∷ tcp_reset_description
    ∷ fill_disk_description disk
    ∷ fill_memory_description mem
    ∷ []

-- The response of `getExtensionList`.
pub record ExtensionList : Type 0 where
  pub actions : List String
  pub discoveries : List String

unfoldable pub get_extension_list : List ActionDescription → DiscoveryDescription → ExtensionList
get_extension_list actions discovery = record {
  actions = map (λ (a : ActionDescription). a.id) actions;
  discoveries = discovery.id ∷ [];
}

-- What main holds while it listens, with the ports of the probes and of the server.
pub record Extension : Type 0 where
  pub strict_root_qdisc : Bool
  pub health_port : ℕ
  pub port : ℕ
  pub client : Client
  pub stop_check : Check
  pub oci_root : String
  pub list : ExtensionList

-- `oci_root` is the root that the environment configures. An error ends the process.
unfoldable pub start :
    Makers
    → (String → Bool)
    → (String → Result ℤ)
    → MemfillNames
    → Names
    → Specification
    → String
    → Result Extension
unfolding new_client register_liveness_check or_default default_runc_root registered_actions
    get_extension_list describe
start new exists parse_duration mem disk cfg oci_root = do
  client ← new_client new exists cfg
  check ← register_liveness_check parse_duration cfg
  ok (record {
    strict_root_qdisc = cfg.network_strict_root_qdisc;
    health_port = cfg.health_port;
    port = cfg.port;
    client = client;
    stop_check = check;
    oci_root = or_default oci_root (default_runc_root client.runtime);
    list = get_extension_list (registered_actions mem disk) (describe cfg);
  })

-- The close of the channel after that of the client, whose error is logged.
unfoldable pub close_after : Result (Unit {0}) → Check → Result (Unit {0})
unfolding close_check
close_after (ok _) check = close_check check
close_after (err _) check = close_check check
close_after panic check = panic

-- The deferred calls.
unfoldable pub end : Extension → Result (Unit {0})
unfolding close_after
end extension = close_after extension.client.close extension.stop_check
