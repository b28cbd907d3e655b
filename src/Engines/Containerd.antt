-- ===== src/Engines/Containerd.antt =====
-- extcontainer/container/containerd: the client of containerd. Its API is called: what it answers may
-- change from one round of a loop to the next.
pub mod Listing
pub mod Tasks
pub mod Stopping
pub mod Connecting
use extension_container.Common.{
  ℕ, zero, suc, ◌+◌, String, ◌<>◌, Bool, true, false, Option, none, some, List, [], ◌∷◌, ◌++◌,
  if◌then◌else◌, Result, ok, err, panic, ◌>>=◌, context, Error, failure, wrap, contains_text,
}
use extension_container.Common.Int.{ℤ}
use extension_container.Common.Dicts.{Dict}
use extension_container.Targets.{Container}
use extension_container.Engines.{Client, runtime_containerd}

pub record ApiContainer : Type 0 where
  pub id : String
  pub image : String
  pub labels : Dict String

-- What `Recv` of the stream of a list gives: a container, the end of the stream, or an error.
pub data Received : Type 0 where
  received : ApiContainer → Received
  ended : Received
  failed : Error → Received

-- The status of a task in the API. `getStatus` makes a text of it; a comparison of the texts is one of
-- these values.
pub data TaskStatus : Type 0 where
  unknown created running stopped paused pausing : TaskStatus

pub data StatusAnswer : Type 0 where
  status : TaskStatus → StatusAnswer
  no_status : Error → StatusAnswer

pub data Signal : Type 0 where
  sigterm sigkill : Signal

-- A task: what a signal answers, and what `Wait` answers for the ten seconds that follow, where none is
-- no exit and the inner error is the one of the exit.
pub record Task : Type 0 where
  pub pid : ℤ
  pub pause : Result (Unit {0})
  pub resume : Result (Unit {0})
  pub kill : Signal → Result (Unit {0})
  pub wait : Result (Option (Option Error))

-- The API, with the kinds of its errors, and their texts. `recv` and `task_status` are for each round of
-- a list, `done` is the error of the context before a round's status is read.
pub record Api : Type 0 where
  pub list_stream : Result (ℕ → Received)
  pub task_status : ℕ → String → StatusAnswer
  pub done : ℕ → Option Error
  pub get_container : String → Result ApiContainer
  pub load_container : String → Result (Result Task)
  pub get_version : Result String
  pub close : Result (Unit {0})
  pub target : String
  pub is_unimplemented : Error → Bool
  pub is_not_found : Error → Bool
  pub to_native : Error → Error
  pub text : Error → String

unfoldable pub new_container : ApiContainer → Container
new_container c = record { id = c.id; name = ""; image_name = c.image; labels = c.labels }

unfoldable pub to_native : {A : Type 0} → Api → Result A → Result A
to_native api (ok a) = ok a
to_native api (err e) = err (api.to_native e)
to_native api panic = panic

unfoldable pub is_alive_status : TaskStatus → Bool
is_alive_status running = true
is_alive_status paused = true
is_alive_status pausing = true
is_alive_status unknown = false
is_alive_status created = false
is_alive_status stopped = false

-- An error leaves the status unknown.
unfoldable pub get_status : Api → ℕ → String → TaskStatus × Option Error
get_status api round id = elim (api.task_status round id) [
  | status s ↦ (s, none)
  | no_status problem ↦
      let e = api.to_native problem in
      (unknown, some (if api.is_not_found e then wrap "no running task found" e else e))
]

alive_answer : Api → TaskStatus × Option Error → Bool
unfolding is_alive_status
alive_answer api (s, none) = is_alive_status s
alive_answer api (s, some e) = if api.is_not_found e then is_alive_status s else false

unfoldable pub is_container_alive : Api → ℕ → String → Bool
unfolding get_status alive_answer
is_container_alive api round id = alive_answer api (get_status api round id)

abbrev pub stream_not_available : Error
stream_not_available = failure "streaming api not available"

unfoldable pub stream_error : Api → Error → Error
stream_error api e = if api.is_unimplemented e then stream_not_available else api.to_native e

-- The loop of `List` from a round on, with the containers so far; none where it takes more rounds than
-- the fuel.
unfoldable pub list_from :
    Api → (ℕ → Received) → ℕ → ℕ → List Container → Option (Result (List Container))
unfolding is_container_alive new_container stream_error
list_from api recv zero round result = none
list_from api recv (suc fuel) round result = elim (recv round) [
  | ended ↦ some (ok result)
  | failed e ↦ some (err (stream_error api e))
  | received c ↦ elim (api.done round) [
    | some e ↦ some (err e)
    | none ↦
        list_from api recv fuel (round + 1)
          (if is_container_alive api round c.id then result ++ new_container c ∷ [] else result)
  ]
]

-- `List`, for what `ListStream` answers.
unfoldable pub list_over : Api → ℕ → Result (ℕ → Received) → Option (Result (List Container))
unfolding to_native list_from
list_over api fuel stream = elim (context "failed to list containers" (to_native api stream)) [
  | ok recv ↦ list_from api recv fuel 0 []
  | err e ↦ some (err e)
  | panic ↦ some panic
]

unfoldable pub list_rounds : Api → ℕ → Option (Result (List Container))
unfolding list_over
list_rounds api fuel = list_over api fuel api.list_stream

unfoldable pub info : Api → String → Result Container
unfolding new_container to_native
info api id =
    context ("failed to get container " <> id) (to_native api (api.get_container id)) >>= λ c.
    ok (new_container c)
