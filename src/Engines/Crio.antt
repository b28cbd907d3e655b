-- ===== src/Engines/Crio.antt =====
-- extcontainer/container/crio: the client of CRI-O. The services of the CRI API, the connection and
-- encoding/json are called.
use extension_container.Common.{
  ℕ, eqb, String, ◌<>◌, Bool, true, false, Option, none, some, List, map, if◌then◌else◌, Result, ok,
  err, ◌>>=◌, context, failure,
}
use extension_container.Common.Int.{ℤ, pos, negsuc}
use extension_container.Common.Dicts.{Dict, lookup}
use extension_container.Targets.{Container}
use extension_container.Engines.{Client, runtime_crio}

-- A container of a list, and the status of one, as far as they are read.
pub record CriContainer : Type 0 where
  pub id : String
  pub metadata_name : String
  pub image : String
  pub labels : Dict String

-- A status, with the verbose info where it is asked for.
pub record StatusResponse : Type 0 where
  pub status : CriContainer
  pub info : Dict String

-- `list_containers` is for the filter on running containers; a status may be verbose.
pub record Api : Type 0 where
  pub list_containers : Result (List CriContainer)
  pub container_status : String → Bool → Result StatusResponse
  pub stop_container : String → ℕ → Result (Unit {0})
  pub version : Result String
  pub close : Result (Unit {0})
  pub target : String

-- A connection of gRPC: whether its state is, or within ten seconds becomes, another than the given
-- one, and its state afterwards.
pub record Connection : Type 0 where
  pub wait_for_state_change : String → Bool
  pub get_state : String
  pub api : Api

unfoldable pub new_container : CriContainer → Container
new_container c = record {
  id = c.id;
  name = c.metadata_name;
  image_name = c.image;
  labels = c.labels;
}

unfoldable pub list : Api → Result (List Container)
unfolding new_container
list api = context "failed to list CRI-O containers" api.list_containers >>= λ items.
    ok (map new_container items)

unfoldable pub info : Api → String → Result Container
unfolding new_container
info api id =
    context ("failed to get CRI-O container " <> id) (api.container_status id false) >>= λ r.
    ok (new_container r.status)

abbrev pub no_pid : String
no_pid = "failed to read pid form container verbose info"

-- A missing key of the info reads as an empty text.
abbrev or_empty : Option String → String
or_empty none = ""
or_empty (some s) = s

-- A process id that is not 0.
unfoldable pub checked_pid : ℤ → Result ℤ
checked_pid (pos n) = if eqb n 0 then err (failure no_pid) else ok (pos n)
checked_pid (negsuc n) = ok (negsuc n)

-- `unmarshal` reads the field "pid" of an object, 0 where it has none.
unfoldable pub get_pid : (String → Result ℤ) → Api → String → Result ℤ
unfolding checked_pid lookup
get_pid unmarshal api id = do
  r ← context "failed to get container status" (api.container_status id true)
  pid ← context no_pid (unmarshal (or_empty (lookup "info" r.info)))
  checked_pid pid

unfoldable pub stop_timeout : Bool → ℕ
stop_timeout graceful = if graceful then 10 else 0

unfoldable pub stop : Api → String → Bool → Result (Unit {0})
unfolding stop_timeout
stop api id graceful =
    context ("failed to stop CRI-O container " <> id)
      (api.stop_container id (stop_timeout graceful))

-- `Pause` and `Unpause`.
unfoldable pub not_supported : String → Result (Unit {0})
not_supported id = err (failure "not supported")

unfoldable pub client : (String → Result ℤ) → Api → Client
unfolding list info get_pid stop not_supported
client unmarshal api = record {
  list = list api;
  info = info api;
  stop = stop api;
  pause = not_supported;
  unpause = not_supported;
  version = api.version;
  get_pid = get_pid unmarshal api;
  close = api.close;
  runtime = runtime_crio;
  socket = api.target;
}

unfoldable pub new_connection : (String → Result Connection) → String → Result Api
new_connection dial socket = dial ("passthrough:///" <> socket) >>= λ connection.
    if connection.wait_for_state_change "READY"
    then ok connection.api
    else err (failure ("connection failed: " <> connection.get_state))

-- `dial` is `grpc.NewClient` for a target, with the dialer of Unix sockets.
unfoldable pub new : (String → Result Connection) → (String → Result ℤ) → String → Result Client
unfolding new_connection client
new dial unmarshal socket =
    context "failed to connect to cri socket" (new_connection dial socket) >>= λ api.
    ok (client unmarshal api)
