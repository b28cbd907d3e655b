-- ===== src/DnsInjection/Single.antt =====
-- The handles of extcontainer/action_network_dns_error_injection.go: each is stopped once, or not at
-- all when its process has ended by itself.
use mathlib.Core.Option
use extension_container.Common.{
  String, ◌<>◌, Bool, true, false, Option, none, some, [], ◌∷◌, ◌≡◌, ◌≢◌, refl, sym, ap, ◌∙◌,
  ==-false, eq_refl, if◌then◌else◌,
}
use extension_container.Common.Dicts.{Dict, lookup, erase, lookup-erase}
use extension_container.Processes.{stops}
use extension_container.DnsInjection.{
  DnsErrorInjectionState, DnsInject, start, start_of, stop, stop_of, status, status_of,
  handle_status, statistics_of, DnsStatus, Metrics, metrics_markdown,
}

-- What a status tells of a process: one that has exited ends the attack with an error, which names its
-- failure where it has one, and without statistics; one that runs on does not, and has statistics where
-- there are metrics.
pub data Tells (metrics : Option Metrics) : Bool × Option String → DnsStatus → Type 0 where
  exited :
      Tells metrics
        (true, none)
        (record {
          completed = true;
          error = some "dns-inject exited unexpectedly";
          statistics = none;
        })
  failed :
      (text : String)
      → Tells metrics
          (true, some text)
          (record {
            completed = true;
            error = some ("dns-inject failed: " <> text);
            statistics = none;
          })
  runs_on :
      (problem : Option String)
      → Tells metrics
          (false, problem)
          (record {
            completed = false;
            error = none;
            statistics = Option.map metrics_markdown metrics;
          })

module _ {H : Type 0} (a : DnsInject H) (s : DnsErrorInjectionState) where
  gone : (m : Dict H) → lookup s.execution_id (erase s.execution_id m) ≡ none
  gone m = rw (lookup-erase s.execution_id s.execution_id m, eq_refl s.execution_id) refl

  kept :
      (m : Dict H) (id : String)
      → id ≢ s.execution_id
      → lookup id (erase s.execution_id m) ≡ lookup id m
  kept m id other =
      rw (lookup-erase id s.execution_id m, ==-false s.execution_id id (λ e. other (sym e))) refl

  stop-none : (m : Dict H) → lookup s.execution_id m ≡ none → (stop a s m).calls ≡ []
  unfolding stop stop_of
  stop-none m h = rw (stop, h, stop_of) refl

  start-none : (m : Dict H) → lookup s.execution_id m ≡ none → (start a s m).calls ≡ []
  unfolding start start_of
  start-none m h = rw (start, h, start_of) refl

  stopped :
      (m : Dict H) (h : H)
      → lookup s.execution_id m ≡ some h
      → ((stop a s m).calls ≡ stops h ∷ []) × ((stop a s m).handles ≡ erase s.execution_id m)
  unfolding stop stop_of
  stopped m h found = (rw (stop, found, stop_of) refl, rw (stop, found, stop_of) refl)

  -- A handle that is stopped is forgotten: neither `Stop` nor `Start` calls it again; those of other
  -- executions stay.
  pub dns_stop_once :
      (m : Dict H) (h : H) (id : String)
      → lookup s.execution_id m ≡ some h
      → id ≢ s.execution_id
      → ((stop a s m).calls ≡ stops h ∷ [])
        × ((stop a s (stop a s m).handles).calls ≡ [])
        × ((start a s (stop a s m).handles).calls ≡ [])
        × (lookup id (stop a s m).handles ≡ lookup id m)
  dns_stop_once m h id found other =
      let (calls, handles) = stopped m h found in
      (
        calls,
        stop-none (stop a s m).handles (ap (lookup s.execution_id) handles ∙ gone m),
        start-none (stop a s m).handles (ap (lookup s.execution_id) handles ∙ gone m),
        ap (lookup id) handles ∙ kept m id other,
      )

  Tells-running :
      (metrics : Option Metrics) (problem : Option String)
      → Tells metrics
          (false, problem)
          (record { completed = false; error = none; statistics = statistics_of a metrics })
  unfolding statistics_of
  Tells-running none problem = runs_on problem
  Tells-running (some m) problem = runs_on problem

  by_exit :
      (m : Dict H) (h : H) (x : Bool × Option String)
      → a.exited h ≡ x
      → lookup s.execution_id m ≡ some h
      → Tells (a.metrics h) x (status_of a s m (some h)).1
        × ((stop a s (status_of a s m (some h)).0).calls ≡ (if x.0 then [] else stops h ∷ []))
  unfolding status_of handle_status
  by_exit m h (true, none) e found =
      rw (status_of, e, handle_status) (exited, stop-none (erase s.execution_id m) (gone m))
  by_exit m h (true, some text) e found =
      rw (status_of, e, handle_status) (failed text, stop-none (erase s.execution_id m) (gone m))
  by_exit m h (false, problem) e found =
      rw (status_of, e, handle_status) (Tells-running (a.metrics h) problem, (stopped m h found).0)

  -- A handle whose process has exited ends the attack with an error, which names the failure where
  -- there is one, and is forgotten: `Stop` calls nothing then. One that runs on does not end it, is
  -- told with its statistics, and stays: `Stop` stops it.
  pub dns_status :
      (m : Dict H) (h : H)
      → lookup s.execution_id m ≡ some h
      → Tells (a.metrics h) (a.exited h) (status a s m).1
        × ((stop a s (status a s m).0).calls ≡ (if (a.exited h).0 then [] else stops h ∷ []))
  unfolding status
  dns_status m h found = rw (status, found) (by_exit m h (a.exited h) refl found)
