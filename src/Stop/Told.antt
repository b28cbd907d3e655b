-- ===== src/Stop/Told.antt =====
-- The answer of the client's `Stop`, and what extcontainer/action_stop.go tells of it, whatever the
-- goroutine, the calls of `Status` and those of `Stop` do in which order.
use extension_container.Common.{
  String, true, Option, none, some, List, [], ◌∷◌, ◌++◌, ◌≡◌, refl, sym, ap, subst, ◌∙◌, Error,
  eq_refl,
}
use extension_container.Common.Dicts.{Dict, lookup, insert, erase, lookup-insert, lookup-erase}
use extension_container.Stop.{
  Channel, calling, offering, delivered, closed, stop_container, is_stop_container_completed,
  polled, completed_of, receive, cancel_stop_container, canceled, drained,
}

-- A step of the goroutine, whose client answers `answer`.
pub data Goes (answer : Option Error) : Channel → Channel → Type 0 where
  returns : Goes answer calling (offering answer)
  closes : Goes answer delivered closed

-- The errors among the answers told so far, the latest first.
abbrev pub errors : List (Option Error) → List Error
errors [] = []
errors (none ∷ told) = errors told
errors (some e ∷ told) = e ∷ errors told

abbrev pub errors_of : Option Error → List Error
errors_of none = []
errors_of (some e) = e ∷ []

++-errors_of : (es : List Error) → es ++ [] ≡ es
++-errors_of [] = refl
++-errors_of (e ∷ es) = ap (λ xs. e ∷ xs) (++-errors_of es)

errors_one : (a : Option Error) → errors (a ∷ []) ≡ errors_of a
errors_one none = refl
errors_one (some e) = refl

module _ (id : String) (answer : Option Error) where
  -- What the receiver that waits in `cancelStopContainer` takes, and drops.
  abbrev pub dropped_by : Option Channel → List (Option Error)
  dropped_by none = []
  dropped_by (some calling) = answer ∷ []
  dropped_by (some (offering a)) = a ∷ []
  dropped_by (some delivered) = none ∷ []
  dropped_by (some closed) = none ∷ []

  -- The completers, the answers told and the answers dropped: `Start` with an answer in time or
  -- without, then steps of the goroutine, calls of `Status` and calls of `Stop`.
  pub data Reached : Dict Channel → List (Option Error) → List (Option Error) → Type 0 where
    in_time : (m : Dict Channel) → Reached (stop_container id (some answer) m).0 (answer ∷ []) []
    too_late : (m : Dict Channel) → Reached (stop_container id none m).0 [] []
    goes :
        {m : Dict Channel} {told gone : List (Option Error)} {c c' : Channel}
        → Reached m told gone
        → lookup id m ≡ some c
        → Goes answer c c'
        → Reached (insert id c' m) told gone
    polls :
        {m : Dict Channel} {told gone : List (Option Error)}
        → Reached m told gone
        → Reached
            (is_stop_container_completed id m).0
            ((is_stop_container_completed id m).1.1 ∷ told)
            gone
    cancels :
        {m : Dict Channel} {told gone : List (Option Error)}
        → Reached m told gone
        → Reached (cancel_stop_container id m).0 told (dropped_by (lookup id m) ++ gone)

  -- The client's error has been told or dropped, once.
  abbrev Spent : List (Option Error) → List (Option Error) → Type 0
  Spent told gone = errors told ++ errors gone ≡ errors_of answer

  Unspent : List (Option Error) → List (Option Error) → Type 0
  Unspent told gone = (errors told ≡ []) × (errors gone ≡ [])

  -- What has been told and dropped by the time the channel is at a point, or gone from the map.
  abbrev Told : Option Channel → List (Option Error) → List (Option Error) → Type 0
  Told none told gone = Spent told gone
  Told (some calling) told gone = Unspent told gone
  Told (some (offering a)) told gone = (a ≡ answer) × Unspent told gone
  Told (some delivered) told gone = Spent told gone
  Told (some closed) told gone = Spent told gone

  Told-at :
      (told gone : List (Option Error)) {x y : Option Channel}
      → x ≡ y
      → Told y told gone
      → Told x told gone
  Told-at told gone e h = subst (λ z. Told z told gone) (sym e) h

  stored : (c : Channel) (m : Dict Channel) → lookup id (insert id c m) ≡ some c
  stored c m = rw (lookup-insert id id c m, eq_refl id) refl

  erased : (m : Dict Channel) → lookup id (erase id m) ≡ none
  erased m = rw (lookup-erase id id m, eq_refl id) refl

  Goes-Told :
      {c c' : Channel} (told gone : List (Option Error))
      → Goes answer c c'
      → Told (some c) told gone
      → Told (some c') told gone
  Goes-Told told gone returns h = (refl, h)
  Goes-Told told gone closes h = h

  -- The first answer that is told, or dropped, is spent.
  last_told :
      (a : Option Error) (told gone : List (Option Error))
      → a ≡ answer
      → Unspent told gone
      → Spent (a ∷ told) gone
  unfolding Unspent
  last_told none told gone e h = rw (h.0, h.1) (ap errors_of e)
  last_told (some b) told gone e h = rw (h.0, h.1) (ap errors_of e)

  last_dropped :
      (a : Option Error) (told gone : List (Option Error))
      → a ≡ answer
      → Unspent told gone
      → Spent told (a ∷ gone)
  unfolding Unspent
  last_dropped none told gone e h = rw (h.0, h.1) (ap errors_of e)
  last_dropped (some b) told gone e h = rw (h.0, h.1) (ap errors_of e)

  -- What a poll leaves and tells, by what was stored.
  polled-Told :
      (m : Dict Channel) (x : Option Channel) (told gone : List (Option Error))
      → lookup id m ≡ x
      → Told x told gone
      → Told (lookup id (polled id m x).0) ((polled id m x).1.1 ∷ told) gone
  unfolding polled completed_of receive Unspent
  polled-Told m none told gone e h = Told-at (none ∷ told) gone e h
  polled-Told m (some calling) told gone e h = Told-at (none ∷ told) gone e h
  polled-Told m (some (offering a)) told gone e h =
      Told-at (a ∷ told) gone (erased m) (last_told a told gone h.0 h.1)
  polled-Told m (some delivered) told gone e h = Told-at (none ∷ told) gone e h
  polled-Told m (some closed) told gone e h = Told-at (none ∷ told) gone (erased m) h

  -- What a cancellation leaves and drops.
  drained-Told :
      (c : Channel) (told gone : List (Option Error))
      → Told (some c) told gone
      → Told (some (drained c)) told (dropped_by (some c) ++ gone)
  unfolding drained
  drained-Told calling told gone h = last_dropped answer told gone refl h
  drained-Told (offering a) told gone h = last_dropped a told gone h.0 h.1
  drained-Told delivered told gone h = h
  drained-Told closed told gone h = h

  canceled-Told :
      (m : Dict Channel) (x : Option Channel) (told gone : List (Option Error))
      → lookup id m ≡ x
      → Told x told gone
      → Told (lookup id (canceled id m x).0) told (dropped_by x ++ gone)
  unfolding canceled
  canceled-Told m none told gone e h = Told-at told gone e h
  canceled-Told m (some c) told gone e h =
      Told-at told (dropped_by (some c) ++ gone) (stored (drained c) m) (drained-Told c told gone h)

  Reached-Told :
      {m : Dict Channel} {told gone : List (Option Error)}
      → Reached m told gone
      → Told (lookup id m) told gone
  unfolding stop_container is_stop_container_completed cancel_stop_container Unspent
  Reached-Told (in_time m) =
      Told-at (answer ∷ []) [] (stored delivered m) (++-errors_of _ ∙ errors_one answer)
  Reached-Told (too_late m) = Told-at [] [] (stored calling m) (refl, refl)
  Reached-Told (goes {m} {told} {gone} {c} {c'} h found step) =
      Told-at told gone (stored c' m)
        (Goes-Told told gone step (Told-at told gone (sym found) (Reached-Told h)))
  Reached-Told (polls {m} {told} {gone} h) =
      polled-Told m (lookup id m) told gone refl (Reached-Told h)
  Reached-Told (cancels {m} {told} {gone} h) =
      canceled-Told m (lookup id m) told gone refl (Reached-Told h)

  final :
      (m : Dict Channel) (x : Option Channel) (told gone : List (Option Error))
      → Told x told gone
      → (polled id m x).1.0 ≡ true
      → Spent ((polled id m x).1.1 ∷ told) gone
  unfolding polled completed_of receive
  final m none told gone h e = h
  final m (some calling) told gone h e = absurd (cc e)
  final m (some (offering a)) told gone h e = last_told a told gone h.0 h.1
  final m (some delivered) told gone h e = absurd (cc e)
  final m (some closed) told gone h e = h

  -- When `Status` first says that the stop is completed, or says it again, the error that the
  -- client answered has been told once by `Start` and the calls of `Status` together, or has been
  -- dropped once by a call of `Stop`, and there was none where the client succeeded: in every order
  -- of the goroutine's steps and the calls of `Status` and `Stop`.
  pub told_once :
      {m : Dict Channel} {told gone : List (Option Error)}
      → Reached m told gone
      → (is_stop_container_completed id m).1.0 ≡ true
      → errors ((is_stop_container_completed id m).1.1 ∷ told) ++ errors gone ≡ errors_of answer
  unfolding is_stop_container_completed
  told_once {m} {told} {gone} h e = final m (lookup id m) told gone (Reached-Told h) e
