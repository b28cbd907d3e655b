-- ===== src/Network/Prepare/Started.antt =====
-- `Prepare` and then `Start` of extcontainer/action_network.go.
use extension_container.Common.{String, none, List, [], ◌∷◌, ◌≡◌, ◌≢◌, Result, ok}
use extension_container.ActionKit.{PrepareResult, Request, Values}
use extension_container.Config.{Specification}
use extension_container.Targets.{Container, OciRuntime}
use extension_container.Netns.{Tracker}
use extension_container.Netns.Normalize.{Json}
use extension_container.Network.{Netfault, Answers, NetworkActionState, applies, start}
use extension_container.Network.Siblings.{ns_of}
use extension_container.Network.History.{Reached}
use extension_container.Network.Calls.{SameIsLive, start-calls}
use extension_container.Network.Prepare.{Provider, prepare}
use extension_container.Network.Prepare.Guards.{prepare-Checked}

-- Options that are encoded decode to themselves.
abbrev pub RoundTrips : Netfault → Type 0
RoundTrips nf = (o : nf.Opts) (raw : String) → nf.encode o ≡ ok raw → nf.decode raw ≡ ok o

module _ (cfg : Specification) (values : Values) (nf : Netfault) (json : Json)
    (info : String → Result Container) (runtime : OciRuntime)
    (provider : Provider nf values.Value) where
  -- What is attacked is what was prepared: after a `Prepare` without an error, and any history of
  -- other attacks, `Start` calls netfault once, with the options that the provider made for the
  -- prepared process, on that process, if the same attack is not live on its known namespace.
  -- Decoding gives back the options that were encoded.
  pub prepare-start :
      (answers later : Answers nf) (state : NetworkActionState nf) (request : Request values.Value)
      {state' : NetworkActionState nf} {res : PrepareResult} {active : Tracker}
      {live : List (NetworkActionState nf)}
      → RoundTrips nf
      → prepare cfg values nf answers info runtime provider state request ≡ (state', ok res)
      → res.error ≡ none
      → ns_of json nf state' ≢ ""
      → Reached json nf active live
      → ¬ SameIsLive json nf state' live
      → (opts : nf.Opts) × (provider state'.sidecar request ≡ ok (opts, res.messages))
        × ((start nf later json state' active).calls ≡ applies state'.sidecar opts ∷ [])
  prepare-start answers later state request {state'} law h e known r alone =
      let c = prepare-Checked cfg values nf answers info runtime provider state request h e in
      (
        c.opts,
        c.provided,
        (start-calls json nf later state' c.opts (law c.opts state'.network_opts c.encoded) known
              r).1
            alone,
      )
