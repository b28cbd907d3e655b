-- ===== src/Engines.antt =====
-- extcontainer/container: the clients of the container engines. This file is about the interface
-- `Client` and the runtimes of types/types.go, and about container.go, which chooses the engine.
pub mod Docker
pub mod Containerd
pub mod Crio
pub mod Choice
pub mod Liveness
use extension_container.Common.{String, Bool, Option, List, [], ◌∷◌, ◌==◌, if◌then◌else◌, Result}
use extension_container.Common.Int.{ℤ}
use extension_container.Targets.{Container}

-- The interface `types.Client`, by what one call of each method answers.
pub record Client : Type 0 where
  pub list : Result (List Container)
  pub info : String → Result Container
  pub stop : String → Bool → Result (Unit {0})
  pub pause : String → Result (Unit {0})
  pub unpause : String → Result (Unit {0})
  pub version : Result String
  pub get_pid : String → Result ℤ
  pub close : Result (Unit {0})
  pub runtime : String
  pub socket : String

abbrev pub runtime_docker : String
runtime_docker = "docker"

abbrev pub runtime_containerd : String
runtime_containerd = "containerd"

abbrev pub runtime_crio : String
runtime_crio = "cri-o"

abbrev pub all_runtimes : List String
all_runtimes = runtime_docker ∷ runtime_containerd ∷ runtime_crio ∷ []

-- The value of a switch over the runtimes, empty for any other text.
abbrev by_runtime : String → String → String → String → String
by_runtime runtime docker containerd crio =
    if runtime == runtime_docker
    then docker
    else if runtime == runtime_containerd
    then containerd
    else if runtime == runtime_crio
    then crio
    else ""

unfoldable pub default_socket : String → String
default_socket runtime =
    by_runtime runtime "/var/run/docker.sock" "/run/containerd/containerd.sock"
      "/var/run/crio/crio.sock"

unfoldable pub default_runc_root : String → String
default_runc_root runtime =
    by_runtime runtime "/run/docker/runtime-runc/moby" "/run/containerd/runc/k8s.io" "/run/runc"
