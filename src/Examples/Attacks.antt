-- ===== src/Examples/Attacks.antt =====
-- Runs of extcontainer/action_network.go, with three actions on one process.
use extension_container.Common.{
  String, none, [], ◌∷◌, ◌≡◌, ◌≢◌, refl, sym, arith, ne_of_==-false, ok, strip_prefix,
}
use extension_container.Common.Dicts.{lookup, erase}
use extension_container.Targets.{
  get_container_target, has_disallowed_k8s_namespace_label, get_process_info_for_container,
}
use extension_container.ActionKit.{PrepareResult, Request}
use extension_container.Netns.{net_ns_id}
use extension_container.Netns.Normalize.{normalize_opts_for_dedup}
use extension_container.Netns.Claims.{Tracks}
use extension_container.Network.{NetworkActionState, applies, reverts, start, stop}
use extension_container.Network.Siblings.{claims, ns_of}
use extension_container.Network.History.{Reached, history-Tracks, idle}
use extension_container.Network.Calls.{Started, start-Started, SameIsLive, start-Reached}
use extension_container.Network.Undo.{Undone, stop-Undone}
use extension_container.Network.Leaving.{primary_leaves_first}
use extension_container.Network.Prepare.{Provider, prepare}
use extension_container.Network.Prepare.Guards.{Checked, prepare-Checked}
use extension_container.Network.Prepare.Started.{RoundTrips, prepare-start}
use extension_container.Examples.Data.{
  nf, answers, state_with, sidecar, cfg, values, info, runtime, process, request_of, Given,
}
use extension_container.Examples.Encoding.{json, decoded, encoded_object}

abbrev first_state : NetworkActionState nf
first_state = state_with "first"

known : ns_of json nf first_state ≢ ""
unfolding net_ns_id
known = ne_of_==-false (ns_of json nf first_state) "" refl

start-Started_example :
    Started json nf answers "first" first_state [] (start nf answers json first_state [])
start-Started_example = start-Started json nf answers first_state "first" refl known idle

stop-Undone_example :
    Undone json nf first_state "first" 7
      (start nf answers json first_state []).calls
      (stop nf answers (start nf answers json first_state []).state []).calls
stop-Undone_example = stop-Undone json nf answers answers first_state "first" [] [] refl refl refl

after_start :
    Reached json nf
      (start nf answers json first_state []).tracker
      ((start nf answers json first_state []).state ∷ [])
after_start = start-Reached json nf answers first_state "first" refl refl idle

history-Tracks_example :
    Tracks
      (start nf answers json first_state []).tracker
      (claims json nf ((start nf answers json first_state []).state ∷ []))
history-Tracks_example = history-Tracks json nf after_start

primary_leaves_first_example :
    let first = start nf answers json first_state [] in
    let second = start nf answers json (state_with "second") first.tracker in
    let left = stop nf answers first.state second.tracker in
    (left.calls ≡ reverts sidecar "first" 7 ∷ [])
    × ((start nf answers json (state_with "second") left.tracker).calls ≡ [])
unfolding normalize_opts_for_dedup decoded encoded_object erase
primary_leaves_first_example =
    primary_leaves_first json nf answers answers first_state (state_with "second")
      (state_with "second") "first" "second" "second" (refl, refl, refl) (refl, refl, refl) known
      (refl, refl) (refl, refl) idle refl refl refl

abbrev provider : Provider nf Given
provider _ _ = ok ("first", [])

abbrev request : Request Given
request = request_of []

-- The state that `Prepare` leaves.
abbrev prepared_state : NetworkActionState nf
prepared_state = record first_state { execution_id = "00000000-0000-0000-0000-000000000001" }

abbrev accepted : PrepareResult
accepted = record { messages = []; error = none }

prepared :
    prepare cfg values nf answers info runtime provider (state_with "") request
    ≡ (record prepared_state { target_label = "containerd://0123456789" }, ok accepted)
unfolding prepare get_container_target lookup strip_prefix has_disallowed_k8s_namespace_label
    get_process_info_for_container
prepared = refl

prepare-Checked_example :
    Checked cfg values nf answers info runtime provider
      (state_with "")
      request
      accepted
      (record prepared_state { target_label = "containerd://0123456789" })
prepare-Checked_example =
    prepare-Checked cfg values nf answers info runtime provider (state_with "") request prepared
      refl

nf-RoundTrips : RoundTrips nf
nf-RoundTrips o raw h = sym h

prepare-start_example :
    (opts : String) × (provider sidecar request ≡ ok (opts, []))
    × ((start nf answers json
          (record prepared_state { target_label = "containerd://0123456789" })
          []).calls
        ≡ applies sidecar opts ∷ [])
unfolding net_ns_id
prepare-start_example =
    prepare-start cfg values nf json info runtime provider answers answers (state_with "") request
      nf-RoundTrips prepared refl (ne_of_==-false (net_ns_id process) "" refl) idle
      (λ (same : SameIsLive json nf
          (record prepared_state { target_label = "containerd://0123456789" }) []).
        absurd (omega (arith, same.0)))
