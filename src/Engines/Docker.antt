-- ===== src/Engines/Docker.antt =====
-- extcontainer/container/docker: the client of Docker. The library of Docker is called.
use extension_container.Common.{
  ℕ, String, ◌<>◌, Bool, Option, none, some, List, [], ◌∷◌, map, if◌then◌else◌, Result, ok, ◌>>=◌,
  context, contains_text,
}
use extension_container.Common.Int.{ℤ}
use extension_container.Common.Dicts.{Dict}
use extension_container.Targets.{Container, remove_prefix}
use extension_container.Engines.{Client, runtime_docker}

-- `Summary` of a list; an inspected container has one name.
pub record Summary : Type 0 where
  pub id : String
  pub names : List String
  pub image : String
  pub labels : Dict String

pub record InspectResponse : Type 0 where
  pub id : String
  pub name : String
  pub image : String
  pub labels : Dict String
  pub pid : ℤ

-- What Docker's client answers: the list for a filter on the status, and the stop for a timeout, where
-- none leaves it to Docker.
pub record Api : Type 0 where
  pub container_list : List String → Result (List Summary)
  pub container_inspect : String → Result InspectResponse
  pub container_pause : String → Result (Unit {0})
  pub container_unpause : String → Result (Unit {0})
  pub container_stop : String → Option ℕ → Result (Unit {0})
  pub server_version : Result String
  pub close : Result (Unit {0})
  pub daemon_host : String

unfoldable pub name_of : List String → String
name_of [] = ""
name_of (name ∷ names) = name

unfoldable pub new_container : Summary → Container
unfolding name_of
new_container c = record {
  id = c.id;
  name = name_of c.names;
  image_name = c.image;
  labels = c.labels;
}

unfoldable pub new_container_from_inspect : InspectResponse → Container
unfolding name_of
new_container_from_inspect c = record {
  id = c.id;
  name = name_of (c.name ∷ []);
  image_name = c.image;
  labels = c.labels;
}

-- Docker decides how long it waits for a graceful stop, and does not wait for another.
unfoldable pub stop_timeout : Bool → Option ℕ
stop_timeout graceful = if graceful then none else some 0

unfoldable pub list : Api → Result (List Container)
unfolding new_container
list api =
    context "failed to list containers"
      (api.container_list ("restarting" ∷ "running" ∷ "paused" ∷ []))
    >>= λ items. ok (map new_container items)

unfoldable pub info : Api → String → Result Container
unfolding new_container_from_inspect
info api id = context ("failed to get docker container " <> id) (api.container_inspect id) >>= λ c.
    ok (new_container_from_inspect c)

unfoldable pub get_pid : Api → String → Result ℤ
unfolding remove_prefix
get_pid api id =
    context "failed to inspect container" (api.container_inspect (remove_prefix id)) >>= λ c.
    ok c.pid

unfoldable pub stop : Api → String → Bool → Result (Unit {0})
unfolding stop_timeout
stop api id graceful =
    context ("failed to stop container " <> id) (api.container_stop id (stop_timeout graceful))

unfoldable pub client : Api → Client
unfolding list info get_pid stop
client api = record {
  list = list api;
  info = info api;
  stop = stop api;
  pause = api.container_pause;
  unpause = api.container_unpause;
  version = api.server_version;
  get_pid = get_pid api;
  close = api.close;
  runtime = runtime_docker;
  socket = api.daemon_host;
}

unfoldable pub host_of : String → String
unfolding contains_text
host_of address = if contains_text "://" address then address else "unix://" <> address

-- `dial` is the library's `New` for a host.
unfoldable pub new : (String → Result Api) → String → Result Client
unfolding host_of client
new dial address =
    context "failed to create Docker dclient" (dial (host_of address)) >>= λ api. ok (client api)
