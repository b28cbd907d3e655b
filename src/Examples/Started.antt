-- ===== src/Examples/Started.antt =====
-- A run of main.go, without a liveness check.
use extension_container.Common.{true, ◌==◌, ◌≡◌, ◌≢◌, ◌⊎◌, ◌↔◌, refl, ok, err, failure, panic}
use extension_container.Common.Int.{pos}
use extension_container.Engines.Docker
use extension_container.Engines.Choice.{Makers, new_client}
use extension_container.Engines.Liveness.{disabled, register_liveness_check}
use extension_container.Discovery.Described.{describe}
use extension_container.Start.{Extension, registered_actions, get_extension_list, start, end}
use extension_container.Start.Ended.{end_panics}
use extension_container.Examples.Data.{cfg}
use extension_container.Examples.Discovered.{api}
use extension_container.Examples.Described.{mem_names, disk_names}

-- The socket of Docker exists, and the library connects to it.
abbrev makers : Makers
makers = record {
  docker = λ _. ok (Docker.client api);
  containerd = λ _ _. err (failure "refused");
  crio = λ _. err (failure "refused");
}

abbrev extension : Extension
extension = record {
  strict_root_qdisc = true;
  health_port = 8082;
  port = 8086;
  client = Docker.client api;
  stop_check = disabled;
  oci_root = "/run/docker/runtime-runc/moby";
  list = get_extension_list (registered_actions mem_names disk_names) (describe cfg);
}

started :
    start makers
      (λ path. path == "/var/run/docker.sock")
      (λ _. ok (pos 1))
      mem_names
      disk_names
      cfg
      ""
    ≡ ok extension
unfolding start new_client register_liveness_check Docker.client
started = refl

closes : extension.client.close ≢ panic
unfolding Docker.client
closes e = absurd (cc e)

end_panics_example :
    (end extension ≡ panic)
    ↔ ((cfg.liveness_check_interval ≡ "") ⊎ (cfg.liveness_check_interval ≡ "0"))
end_panics_example =
    end_panics makers (λ path. path == "/var/run/docker.sock") (λ _. ok (pos 1)) mem_names
      disk_names cfg "" started closes
