-- ===== src/Network.antt =====
-- extcontainer/action_network.go: the action that all network attacks share. `Prepare`, `Start` and
-- `Stop` are functions from the action's state (and the tracker of netns_dedup.go) to the next one
-- with the result; netfault, the attack itself, is a library that is called: its options are
-- abstract, and what its calls answer is an argument of each step.
pub mod Prepare
pub mod Siblings
pub mod History
pub mod Calls
pub mod Undo
pub mod Leaving
use extension_container.Common.{
  ℕ, String, ◌<>◌, slice, len, Bool, true, false, Option, none, some, List, [], ◌∷◌, if◌then◌else◌,
  Result, ok, err, panic, ◌>>=◌, context, Error, failure, wrap, decimal, LinuxNamespace,
  LinuxProcessInfo, network,
}
use extension_container.Common.Dicts.{lookup}
use extension_container.ActionKit.{
  Messages, Message, info, error, info_message, PrepareResult, failed, Request, Values,
}
use extension_container.Config.{Specification}
use extension_container.Targets.{
  Container, OciRuntime, get_container_target, get_process_info_for_container, remove_prefix,
  first_eight, is_using_host_network,
}
use extension_container.Netns.{
  Tracker, ClaimResult, claim_primary, claim_shadow, claim_passthrough, net_ns_id,
  claim_netns_for_attack, release_netns_for_attack,
}
use extension_container.Netns.Normalize.{Json}

pub record SidecarOpts : Type 0 where
  pub target_process : LinuxProcessInfo
  pub id : String

pub data ApplyError : Type 0 where
  too_many_tc_commands : ℕ → ApplyError
  other_error : Error → ApplyError

-- The options and the snapshots of netfault, and the codec of one kind of options.
pub record Netfault : Type 1 where
  pub Opts : Type 0
  pub Snapshot : Type 0
  pub describe : Opts → String
  pub encode : Opts → Result String
  pub decode : String → Result Opts

-- What the calls that leave the process answer in one step.
pub record Answers (nf : Netfault) : Type 0 where
  pub preflight_check : SidecarOpts → nf.Opts → Result (Unit {0})
  pub apply : SidecarOpts → nf.Opts → nf.Snapshot × Option ApplyError
  pub namespace_gone : List LinuxNamespace → Option String
  pub revert : SidecarOpts → nf.Opts → nf.Snapshot → Result (Unit {0})

-- The calls that change the target's network.
pub data Call (nf : Netfault) : Type 0 where
  applies : SidecarOpts → nf.Opts → Call nf
  reverts : SidecarOpts → nf.Opts → nf.Snapshot → Call nf

pub record NetworkActionState (nf : Netfault) : Type 0 where
  pub execution_id : String
  pub network_opts : String
  pub sidecar : SidecarOpts
  pub container_id : String
  pub target_label : String
  pub qdisc_snapshot : nf.Snapshot
  pub is_shadow : Bool
  pub netns_claimed : Bool

pub record Outcome (nf : Netfault) : Type 0 where
  pub state : NetworkActionState nf
  pub tracker : Tracker
  pub calls : List (Call nf)
  pub result : Result Messages

-- What the switch on the tracker's verdict sets on the state.
unfoldable pub claimed_state :
    {nf : Netfault} → ClaimResult → NetworkActionState nf → NetworkActionState nf
claimed_state claim_shadow state = record state { is_shadow = true; netns_claimed = true }
claimed_state claim_primary state = record state { netns_claimed = true }
claimed_state claim_passthrough state = state

module _ (nf : Netfault) (answers : Answers nf) where
  shadow_message : NetworkActionState nf → Message
  shadow_message state = info_message (
      "Skipping apply for container "
      <> (state.target_label
          <> " — a sibling container in the same pod is already running this attack on the shared network namespace."))

  too_many_message : ℕ → Message
  too_many_message count = record {
    level = error;
    message =
        "Too many tc commands ("
        <> (decimal count
            <> ") generated. This happens when too many excludes for steadybit agent and extensions are needed. Please configure a more specific attack by adding ports, and/or CIDRs to the parameters.");
  }

  -- The claim is given back where one was taken.
  unfoldable pub give_back : NetworkActionState nf → Tracker → NetworkActionState nf × Tracker
  give_back state active =
      if state.netns_claimed
      then (
        record state { netns_claimed = false },
        release_netns_for_attack (net_ns_id state.sidecar.target_process) active,
      )
      else (state, active)

  apply_result : Message → ApplyError → Result Messages
  unfolding too_many_message
  apply_result described (too_many_tc_commands n) = ok (described ∷ too_many_message n ∷ [])
  apply_result described (other_error e) = err (wrap "Failed to apply network settings." e)

  unfoldable pub after_apply :
      Message → nf.Opts → NetworkActionState nf → Tracker → Option ApplyError → Outcome nf
  unfolding apply_result give_back
  after_apply described opts state active none = record {
    state = state;
    tracker = active;
    calls = applies state.sidecar opts ∷ [];
    result = ok (described ∷ []);
  }
  after_apply described opts state active (some e) = record {
    state = (give_back state active).0;
    tracker = (give_back state active).1;
    calls = applies state.sidecar opts ∷ [];
    result = apply_result described e;
  }

  -- `netfault.Apply` and what follows it.
  unfoldable pub apply_attack : Message → nf.Opts → NetworkActionState nf → Tracker → Outcome nf
  unfolding after_apply
  apply_attack described opts state active =
      let (snap, problem) = answers.apply state.sidecar opts in
      after_apply described opts (record state { qdisc_snapshot = snap }) active problem

  unfoldable pub on_claim : nf.Opts → NetworkActionState nf → Tracker → ClaimResult → Outcome nf
  unfolding apply_attack shadow_message claimed_state
  on_claim opts state active claim_shadow = record {
    state = claimed_state claim_shadow state;
    tracker = active;
    calls = [];
    result = ok (info_message (nf.describe opts) ∷ shadow_message state ∷ []);
  }
  on_claim opts state active claim_primary =
      apply_attack (info_message (nf.describe opts)) opts (claimed_state claim_primary state) active
  on_claim opts state active claim_passthrough =
      apply_attack (info_message (nf.describe opts)) opts (claimed_state claim_passthrough state)
        active

  -- A step that returns before it has called anything.
  abbrev unchanged : NetworkActionState nf → Tracker → Result Messages → Outcome nf
  unchanged state active result = record {
    state = state;
    tracker = active;
    calls = [];
    result = result;
  }

  unfoldable pub start : Json → NetworkActionState nf → Tracker → Outcome nf
  unfolding on_claim
  start json state active = elim (nf.decode state.network_opts) [
    | err e ↦ unchanged state active (err (wrap "Failed to deserialize network settings." e))
    | panic ↦ unchanged state active panic
    | ok opts ↦
        let (active', verdict) =
          claim_netns_for_attack json (net_ns_id state.sidecar.target_process) state.network_opts
            active in
        on_claim opts state active' verdict
  ]

  not_reverted_message : NetworkActionState nf → Message
  not_reverted_message state = info_message (
      "Skipping revert for container "
      <> (state.target_label
          <> " — a sibling container in the same pod owns the attack on the shared network namespace."))

  gone_message : NetworkActionState nf → String → Message
  gone_message state why = info_message (
      "Ingoring errors from revert network config. Target container "
      <> (state.target_label <> (" exited? " <> why)))

  revert_attack : nf.Opts → NetworkActionState nf → Tracker → Option String → Outcome nf
  unfolding gone_message
  revert_attack opts state active (some why) =
      unchanged state active (ok (gone_message state why ∷ []))
  revert_attack opts state active none = record {
    state = state;
    tracker = active;
    calls = reverts state.sidecar opts state.qdisc_snapshot ∷ [];
    result =
        context "Failed to revert network settings."
          (answers.revert state.sidecar opts state.qdisc_snapshot >>= λ _. ok []);
  }

  unfoldable pub stop_attack : NetworkActionState nf → Tracker → Outcome nf
  unfolding revert_attack not_reverted_message
  stop_attack state active =
      if state.is_shadow
      then unchanged state active (ok (not_reverted_message state ∷ []))
      else elim (nf.decode state.network_opts) [
        | err e ↦ unchanged state active (err (wrap "Failed to deserialize network settings." e))
        | panic ↦ unchanged state active panic
        | ok opts ↦
            revert_attack opts state active
              (answers.namespace_gone state.sidecar.target_process.namespaces)
      ]

  -- The deferred release runs on every path, and nothing on the paths reads the tracker.
  unfoldable pub stop : NetworkActionState nf → Tracker → Outcome nf
  unfolding stop_attack
  stop state active = stop_attack state (
      if state.netns_claimed
      then release_netns_for_attack (net_ns_id state.sidecar.target_process) active
      else active)
