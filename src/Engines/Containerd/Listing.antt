-- ===== src/Engines/Containerd/Listing.antt =====
-- The loop of `List` in extcontainer/container/containerd/client.go ends with the stream.
use extension_container.Common.{
  ℕ, suc, ◌+◌, Option, none, some, List, [], ◌∷◌, ◌≡◌, if◌then◌else◌, Result, ok, err, Error,
}
use extension_container.Targets.{Container}
use extension_container.Engines.Containerd.{
  Api, ApiContainer, Received, received, ended, failed, is_container_alive, new_container,
  stream_error,
}

abbrev pub length : {A : Type 0} → List A → ℕ
length [] = 0
length (x ∷ xs) = suc (length xs)

-- From a round on, the stream gives these containers one by one, and then `last`.
abbrev pub Delivers : (ℕ → Received) → ℕ → List ApiContainer → Received → Type 0
Delivers recv round [] last = recv round ≡ last
Delivers recv round (c ∷ cs) last = (recv round ≡ received c) × Delivers recv (round + 1) cs last

-- The containers whose task is alive when their round comes.
unfoldable pub alive_of : Api → ℕ → List ApiContainer → List Container
unfolding is_container_alive new_container
alive_of api round [] = []
alive_of api round (c ∷ cs) =
    let others = alive_of api (round + 1) cs in
    if is_container_alive api round c.id then new_container c ∷ others else others

-- The error of the context in the first round that finds it done.
unfoldable pub first_done : Api → ℕ → List ApiContainer → Option Error
first_done api round [] = none
first_done api round (c ∷ cs) =
    let later = first_done api (round + 1) cs in
    elim (api.done round) [ some e ↦ some e | none ↦ later ]

-- How a stream ends.
pub data End : Type 0 where
  stream_ended : End
  stream_failed : Error → End

abbrev pub end_of : End → Received
end_of stream_ended = ended
end_of (stream_failed e) = failed e

-- What a list returns at the end of the stream, for the containers so far.
abbrev pub at_end : Api → List Container → End → Result (List Container)
at_end api listed stream_ended = ok listed
at_end api listed (stream_failed e) = err (stream_error api e)

abbrev pub outcome : Api → List Container → Option Error → End → Result (List Container)
outcome api listed (some e) last = err e
outcome api listed none last = at_end api listed last
