-- ===== src/Engines/Choice.antt =====
-- `AutoDetect` and `NewClient` of extcontainer/container/container.go.
use extension_container.Common.{
  String, ◌<>◌, Bool, true, List, [], ◌∷◌, ◌==◌, if◌then◌else◌, Result, ok, err, failure, ◌≡◌, refl,
  sym, ap, ◌⊎◌, inl, inr, Bool-cases, >>=-ok, ok_inj, context, arith, eq_iff,
}
use extension_container.Common.Int.{ℤ}
use extension_container.Config.{Specification}
use extension_container.Targets.{Container}
use extension_container.Engines.Docker
use extension_container.Engines.Containerd
use extension_container.Engines.Containerd.Connecting
use extension_container.Engines.Crio
use extension_container.Engines.{
  Client, runtime_docker, runtime_containerd, runtime_crio, all_runtimes, default_socket,
}

-- The loop of `AutoDetect`; `exists` says whether `os.Stat` finds a file.
unfoldable pub first_existing : (String → Bool) → List String → String
unfolding default_socket
first_existing exists [] = ""
first_existing exists (r ∷ runtimes) =
    let others = first_existing exists runtimes in if exists (default_socket r) then r else others

unfoldable pub auto_detect : (String → Bool) → String
unfolding first_existing
auto_detect exists = first_existing exists all_runtimes

-- `New` of the three clients, for a socket.
pub record Makers : Type 0 where
  pub docker : String → Result Client
  pub containerd : String → String → Result Client
  pub crio : String → Result Client

unfoldable pub or_default : String → String → String
or_default s other = if s == "" then other else s

unfoldable pub client_for : Makers → Specification → String → String → Result Client
client_for new cfg runtime socket =
    if runtime == runtime_docker
    then new.docker socket
    else if runtime == runtime_containerd
    then new.containerd socket cfg.containerd_namespace
    else if runtime == runtime_crio
    then new.crio socket
    else err (failure ("unsupported container runtime: " <> runtime))

unfoldable pub new_client : Makers → (String → Bool) → Specification → Result Client
unfolding client_for or_default auto_detect default_socket
new_client new exists cfg =
    let runtime = or_default cfg.container_runtime (auto_detect exists) in
    if runtime == ""
    then err (failure "failed to detect container runtime, please specify")
    else client_for new cfg runtime (or_default cfg.container_socket (default_socket runtime))

named :
    (exists : String → Bool) (runtimes : List String)
    → (first_existing exists runtimes ≡ "")
      ⊎ (exists (default_socket (first_existing exists runtimes)) ≡ true)
unfolding first_existing
named exists [] = inl refl
named exists (r ∷ runtimes) = elim (Bool-cases (exists (default_socket r))) [
  | inl e ↦ inr (rw (first_existing, e) e)
  | inr e ↦ rw (first_existing, e) (named exists runtimes)
]

-- The clients of the library's dialers.
unfoldable pub makers :
    (String → Result Docker.Api)
    → (String → String → Result Containerd.Api)
    → (Containerd.Api → Result (List Container))
    → (String → Result Crio.Connection)
    → (String → Result ℤ)
    → Makers
unfolding Docker.new Connecting.new Crio.new
makers docker containerd list crio unmarshal = record {
  docker = Docker.new docker;
  containerd = Connecting.new containerd list;
  crio = Crio.new crio unmarshal;
}

Docker-runtime :
    (dial : String → Result Docker.Api) (socket : String) {c : Client}
    → Docker.new dial socket ≡ ok c
    → c.runtime ≡ runtime_docker
unfolding Docker.new Docker.client
Docker-runtime dial socket h =
    let (api, _, e) =
      >>=-ok (context "failed to create Docker dclient" (dial (Docker.host_of socket)))
        (λ api. ok (Docker.client api)) h in
    sym (ap (λ (r : Client). r.runtime) (ok_inj e))

Containerd-runtime :
    (dial : String → String → Result Containerd.Api)
    (list : Containerd.Api → Result (List Container)) (socket namespace : String) {c : Client}
    → Connecting.new dial list socket namespace ≡ ok c
    → c.runtime ≡ runtime_containerd
unfolding Connecting.new Connecting.client
Containerd-runtime dial list socket namespace h =
    let (api, _, e) =
      >>=-ok (context "failed to create containerd client" (dial socket namespace))
        (λ api. ok (Connecting.client api (list api))) h in
    sym (ap (λ (r : Client). r.runtime) (ok_inj e))

Crio-runtime :
    (dial : String → Result Crio.Connection) (unmarshal : String → Result ℤ) (socket : String)
    {c : Client}
    → Crio.new dial unmarshal socket ≡ ok c
    → c.runtime ≡ runtime_crio
unfolding Crio.new Crio.client
Crio-runtime dial unmarshal socket h =
    let (api, _, e) =
      >>=-ok (context "failed to connect to cri socket" (Crio.new_connection dial socket))
        (λ api. ok (Crio.client unmarshal api)) h in
    sym (ap (λ (r : Client). r.runtime) (ok_inj e))

module _ (docker : String → Result Docker.Api)
    (containerd : String → String → Result Containerd.Api)
    (list : Containerd.Api → Result (List Container)) (crio : String → Result Crio.Connection)
    (unmarshal : String → Result ℤ) where
  abbrev new : Makers
  new = makers docker containerd list crio unmarshal

  client_for-runtime :
      (cfg : Specification) (runtime socket : String) {c : Client}
      → client_for new cfg runtime socket ≡ ok c
      → c.runtime ≡ runtime
  unfolding client_for makers
  client_for-runtime cfg runtime socket {c} h = ground (
    arith,
    eq_iff runtime runtime_docker,
    eq_iff runtime runtime_containerd,
    eq_iff runtime runtime_crio,
    Docker-runtime docker socket {c = c},
    Containerd-runtime containerd list socket cfg.containerd_namespace {c = c},
    Crio-runtime crio unmarshal socket {c = c},
  )

  -- The client that is used is one of the configured runtime, or without any of the first of Docker,
  -- containerd and CRI-O whose default socket exists.
  pub new_client-runtime :
      (exists : String → Bool) (cfg : Specification) {c : Client}
      → new_client new exists cfg ≡ ok c
      → (c.runtime ≡ cfg.container_runtime)
        ⊎ ((cfg.container_runtime ≡ "")
            × (c.runtime ≡ auto_detect exists)
            × (exists (default_socket c.runtime) ≡ true))
  unfolding new_client or_default auto_detect
  new_client-runtime exists cfg {c} h =
      let runtime = or_default cfg.container_runtime (auto_detect exists) in
      let socket = or_default cfg.container_socket (default_socket runtime) in
      ground (
        arith,
        eq_iff cfg.container_runtime "",
        eq_iff runtime "",
        client_for-runtime cfg runtime socket {c = c},
        named exists all_runtimes,
      )
