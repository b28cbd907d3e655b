-- ===== src/Engines/Liveness.antt =====
-- `RegisterLivenessCheck` of extcontainer/container/container.go, and the close of its channel in
-- main.go. The goroutine is a state that the events of its select change.
use extension_container.Common.{
  ◌*◌, ◌≡◌, ◌⊎◌, ◌↔◌, arith, eq_iff, String, Bool, true, false, ◌||◌, List, [], ◌∷◌, ◌==◌,
  if◌then◌else◌, Result, ok, err, panic, ltb,
}
use extension_container.Common.Int.{ℤ, pos, negsuc}
use extension_container.Config.{Specification}

-- The channel that is returned: nil, or the one of a goroutine that ticks in an interval.
pub data Check : Type 0 where
  disabled : Check
  every : ℤ → Check

-- A duration in nanoseconds, and the default where the text is none.
unfoldable pub duration_of : Result ℤ → ℤ
duration_of (ok d) = d
duration_of (err _) = pos (30 * 1000000000)
duration_of panic = pos (30 * 1000000000)

-- `time.NewTicker` panics on an interval that is not positive.
unfoldable pub new_ticker : ℤ → Result Check
new_ticker (pos n) = if ltb 0 n then ok (every (pos n)) else panic
new_ticker (negsuc n) = panic

-- `parse_duration` is `time.ParseDuration`.
unfoldable pub register_liveness_check : (String → Result ℤ) → Specification → Result Check
unfolding duration_of new_ticker
register_liveness_check parse_duration cfg =
    if (cfg.liveness_check_interval == "") || (cfg.liveness_check_interval == "0")
    then ok disabled
    else new_ticker (duration_of (parse_duration cfg.liveness_check_interval))

-- A tick, with what the client's `Version` answers, or the close of the channel.
pub data Event : Type 0 where
  ticks : Result String → Event
  quits : Event

pub record Goroutine : Type 0 where
  pub returned : Bool
  pub alive : Bool

abbrev succeeded : Result String → Bool
succeeded (ok _) = true
succeeded (err _) = false
succeeded panic = false

-- One round of the loop; a goroutine that has returned takes no events.
unfoldable pub on_event : Event → Goroutine → Goroutine
on_event (ticks version) g = if g.returned then g else record g { alive = succeeded version }
on_event quits g = record g { returned = true }

unfoldable pub on_events : List Event → Goroutine → Goroutine
unfolding on_event
on_events [] g = g
on_events (e ∷ es) g = on_events es (on_event e g)

-- `close(stopCheck)`: Go panics on a nil channel.
unfoldable pub close_check : Check → Result (Unit {0})
close_check disabled = panic
close_check (every _) = ok tt

-- Once the check is registered, the close at the end of main panics exactly where the settings disable
-- the check.
pub liveness_panics :
    (parse_duration : String → Result ℤ) (cfg : Specification) {check : Check}
    → register_liveness_check parse_duration cfg ≡ ok check
    → (close_check check ≡ panic)
      ↔ ((cfg.liveness_check_interval ≡ "") ⊎ (cfg.liveness_check_interval ≡ "0"))
unfolding register_liveness_check close_check new_ticker
liveness_panics parse_duration cfg h =
    ground (arith, eq_iff cfg.liveness_check_interval "", eq_iff cfg.liveness_check_interval "0")
