-- ===== src/Examples/Discovered.antt =====
-- Runs of extcontainer/discovery.go.
use mathlib.Core.List.{Memᴰ}
use mathlib.Core.List.Memᴰ.{head, tail}
use extension_container.Common.{
  String, true, some, [], ◌∷◌, ◌==◌, ◌≡◌, refl, sym, subst, if◌then◌else◌, Result, ok, err, failure,
  contains_text, avoids, strip_prefix, trim_prefix,
}
use extension_container.Targets.{
  Container, get_container_target, add_prefix, has_disallowed_k8s_namespace_label,
}
use extension_container.Discovery.{Target, Engine, discover_targets}
use extension_container.Discovery.Hosts.{Resolver, get_hostname, resolve_fqdn}
use extension_container.Discovery.Exact.{ids, kept_ids, Named, Hosted, discovered_exactly}
use extension_container.Discovery.Reported.{IsKnown, discovered_selectable}
use extension_container.Common.Int.{pos}
use extension_container.Common.Dicts.{Dict}
use extension_container.Engines.Docker
use extension_container.Engines.Docker.{InspectResponse, Summary}
use extension_container.Examples.Data.{cfg}

abbrev shop_labels : Dict String
shop_labels =
    ("io.kubernetes.pod.namespace", "shop")
    ∷ (("app.kubernetes.io/part-of", "store") ∷ (("steadybit.label", "mine") ∷ []))

abbrev pause_labels : Dict String
pause_labels = ("io.kubernetes.docker.type", "podsandbox") ∷ []

abbrev shop : Container
shop = record { id = "0123456789"; name = "/shop"; image_name = "shop:1"; labels = shop_labels }

abbrev pause : Container
pause = record { id = "9876543210"; name = ""; image_name = "pause:3"; labels = pause_labels }

-- Docker names the image of a container otherwise where it is inspected.
abbrev inspect : String → Result InspectResponse
inspect id =
    if id == "0123456789"
    then ok (record {
      id = id;
      name = "/shop";
      image = "sha256:4f53";
      labels = shop_labels;
      pid = pos 7;
    })
    else if id == "9876543210"
    then ok (record {
      id = id;
      name = "/pause";
      image = "sha256:e6f1";
      labels = pause_labels;
      pid = pos 3;
    })
    else err (failure "not found")

abbrev pub api : Docker.Api
api = record {
  container_list = λ _. ok (
      record { id = "0123456789"; names = "/shop" ∷ []; image = "shop:1"; labels = shop_labels }
      ∷ (record { id = "9876543210"; names = []; image = "pause:3"; labels = pause_labels } ∷ []));
  container_inspect = inspect;
  container_pause = λ _. ok tt;
  container_unpause = λ _. ok tt;
  container_stop = λ _ _. ok tt;
  server_version = ok "2.0";
  close = ok tt;
  daemon_host = "unix:///var/run/docker.sock";
}

abbrev engine : Engine
unfolding Docker.client
engine = record {
  client = Docker.client api;
  parse_image = λ _. some (record { repository = "shop"; registry = ""; tag = "1" });
}

abbrev resolver : Resolver
resolver = record {
  lookup_cname = λ _. err (failure "no such host");
  lookup_ip = λ _. ok ("10.0.0.7" ∷ ("10.0.0.8" ∷ []));
  lookup_addr = λ ip. if ip == "10.0.0.8" then ok ("node.example.com." ∷ []) else ok [];
}

host : get_hostname cfg resolver (ok "") (ok "os") ≡ ("node", "node.example.com")
unfolding get_hostname resolve_fqdn
host = refl

abbrev shop_target : Target
shop_target = record {
  id = "0123456789";
  label = "shop";
  target_type = "com.steadybit.extension_container.container";
  attributes =
      ("container.name", "shop" ∷ [])
      ∷ (("container.host", "node" ∷ [])
          ∷ (("host.hostname", "node" ∷ [])
              ∷ (("host.domainname", "node.example.com" ∷ [])
                  ∷ (("container.host/name", "node/shop" ∷ [])
                      ∷ (("container.image", "shop:1" ∷ [])
                          ∷ (("container.image.repository", "shop" ∷ [])
                              ∷ (("container.image.tag", "1" ∷ [])
                                  ∷ (("container.id", "docker://0123456789" ∷ [])
                                      ∷ (("container.id.stripped", "0123456789" ∷ [])
                                          ∷ (("container.engine", "docker" ∷ [])
                                              ∷ (("container.engine.version", "2.0" ∷ [])
                                                  ∷ (("k8s.namespace", "shop" ∷ [])
                                                      ∷ (("k8s.app.part-of", "store" ∷ [])
                                                          ∷ ((
                                                            "container.label.steadybit.label",
                                                            "mine" ∷ [],
                                                          )
                                                            ∷ []))))))))))))));
}

found_shop :
    discover_targets cfg engine resolver (ok "") (ok "os") (λ ts _. ts) ≡ ok (shop_target ∷ [])
unfolding discover_targets Docker.client Docker.list get_hostname resolve_fqdn trim_prefix
    add_prefix has_disallowed_k8s_namespace_label
found_shop = refl

known : (c : Container) → Memᴰ c (shop ∷ (pause ∷ [])) → IsKnown engine.client.info c
unfolding contains_text strip_prefix Docker.client Docker.info
known c (head e) =
    subst (IsKnown engine.client.info) (sym e)
      ((record shop { image_name = "sha256:4f53" }, refl, refl, refl), refl)
known c (tail (head e)) =
    subst (IsKnown engine.client.info) (sym e)
      ((record pause { name = "/pause"; image_name = "sha256:e6f1" }, refl, refl, refl), refl)
known c (tail (tail m)) = elim m [ ]

listed : engine.client.list ≡ ok (shop ∷ (pause ∷ []))
unfolding Docker.client Docker.list
listed = refl

named_docker : avoids ":" engine.client.runtime ≡ true
unfolding Docker.client
named_docker = refl

discovered_selectable_example :
    (c : Container) × Memᴰ c (shop ∷ (pause ∷ []))
    × ((d : Container) × (engine.client.info c.id ≡ ok d)
        × (get_container_target cfg engine.client.info shop_target.attributes ≡ ok (d, c.id)))
discovered_selectable_example =
    discovered_selectable cfg engine resolver (ok "") (ok "os") (shop ∷ (pause ∷ []))
      (shop_target ∷ []) listed known named_docker found_shop shop_target (head refl)

discovered_exactly_example :
    (ids (shop_target ∷ []) ≡ kept_ids cfg (shop ∷ (pause ∷ [])))
    × ((hostname : String) × (fqdn : String) × Named cfg hostname fqdn
        × ((t : Target) → Memᴰ t (shop_target ∷ []) → Hosted hostname fqdn t))
discovered_exactly_example =
    discovered_exactly cfg engine resolver (ok "") (ok "os") (shop ∷ (pause ∷ []))
      (shop_target ∷ []) listed found_shop
