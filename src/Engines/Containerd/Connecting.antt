-- ===== src/Engines/Containerd/Connecting.antt =====
-- The client of extcontainer/container/containerd/client.go, and how it is made.
use extension_container.Common.{String, List, Result, ok, ◌>>=◌, context}
use extension_container.Targets.{Container}
use extension_container.Engines.{Client, runtime_containerd}
use extension_container.Engines.Containerd.{Api, info}
use extension_container.Engines.Containerd.Tasks.{get_pid, pause, unpause, stop}

-- The client, where `list` is what `List` returns.
unfoldable pub client : Api → Result (List Container) → Client
unfolding info stop pause unpause get_pid
client api list = record {
  list = list;
  info = info api;
  stop = λ id graceful. (stop api id graceful).result;
  pause = pause api;
  unpause = unpause api;
  version = api.get_version;
  get_pid = get_pid api;
  close = api.close;
  runtime = runtime_containerd;
  socket = api.target;
}

-- `dial` is the library's `New` for a socket and a default namespace.
unfoldable pub new :
    (String → String → Result Api)
    → (Api → Result (List Container))
    → String
    → String
    → Result Client
unfolding client
new dial list socket namespace =
    context "failed to create containerd client" (dial socket namespace) >>= λ api.
    ok (client api (list api))
