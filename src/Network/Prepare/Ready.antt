-- ===== src/Network/Prepare/Ready.antt =====
-- What a `Prepare` of extcontainer/action_network.go that is past the guards on the host's network
-- has called, and the state that it leaves.
use extension_container.Common.{
  ◌⊎◌, inl, inr, Bool-cases, List, LinuxNamespace, String, Bool, true, false, Option, none, some,
  ◌≡◌, ◌≢◌, refl, sym, ◌∙◌, ap, arith, Result, ok, context, context-eq-ok, attempt-eq-ok,
}
use extension_container.ActionKit.{Messages, PrepareResult, Request, Values}
use extension_container.Config.{Specification}
use extension_container.Targets.{Container, OciRuntime, is_using_host_network}
use extension_container.Targets.HostNetwork.{HasOwnNetwork, is_using_host_network-own}
use extension_container.Network.{Netfault, Answers, NetworkActionState}
use extension_container.Network.Prepare.{
  Provider, host_network_refusal, finish, marshalled, preflighted, guarded,
}

module _ (cfg : Specification) (values : Values) (nf : Netfault) (answers : Answers nf)
    (info : String → Result Container) (runtime : OciRuntime)
    (provider : Provider nf values.Value) where
  pub host_network_refusal-none :
      (on_host : Bool) (fail_on_host : Option values.Value)
      → host_network_refusal cfg values on_host fail_on_host ≡ none
      → on_host ≡ true
      → (cfg.disallow_host_network ≡ false) × (values.to_bool fail_on_host ≡ false)
  unfolding host_network_refusal
  host_network_refusal-none on_host f h b = ground arith

  pub host_network_refusal-some :
      (on_host : Bool) (fail_on_host : Option values.Value) (r : PrepareResult)
      → host_network_refusal cfg values on_host fail_on_host ≡ some r
      → r.error ≢ none
  unfolding host_network_refusal
  host_network_refusal-some on_host f r h = ground arith

  pub own_network_where_asked :
      (namespaces : List LinuxNamespace) (fail_on_host : Option values.Value)
      → (is_using_host_network namespaces ≡ true
          → (cfg.disallow_host_network ≡ false) × (values.to_bool fail_on_host ≡ false))
      → (cfg.disallow_host_network ≡ true) ⊎ (values.to_bool fail_on_host ≡ true)
      → HasOwnNetwork namespaces
  own_network_where_asked namespaces fail_on_host host_allowed asked =
      elim (Bool-cases (is_using_host_network namespaces)) [
        | inl host ↦
            let (settings, requested) = host_allowed host in
            elim asked [
              | inl a ↦ absurd (cc (sym a ∙ settings))
              | inr b ↦ absurd (cc (sym b ∙ requested))
            ]
        | inr other ↦ is_using_host_network-own namespaces other
      ]

  finish_inv :
      (state state' : NetworkActionState nf) (request : Request values.Value)
      (provided : nf.Opts × Messages) (raw : String) {res : PrepareResult}
      → finish cfg values nf answers info runtime provider state request provided raw
        ≡ (state', ok res)
      → (state' ≡ record state { network_opts = raw; execution_id = request.execution_id })
        × (res.messages ≡ provided.1)
  unfolding finish
  finish_inv state state' request provided raw h = (sym (ap (λ p. p.0) h), ground arith)

  -- From the guards on: what a `Prepare` that ends with no error has called, and the state it leaves.
  pub record Ready (state : NetworkActionState nf) (request : Request values.Value)
      (res : PrepareResult) (state' : NetworkActionState nf) : Type 0 where
    pub opts : nf.Opts
    pub provided : provider state.sidecar request ≡ ok (opts, res.messages)
    pub preflight : answers.preflight_check state.sidecar opts ≡ ok tt
    pub encoded : nf.encode opts ≡ ok state'.network_opts
    pub left :
        state'
        ≡ record state { network_opts = state'.network_opts; execution_id = request.execution_id }

  pub guarded-Ready :
      (state state' : NetworkActionState nf) (request : Request values.Value)
      (refusal : Option PrepareResult) {res : PrepareResult}
      → ((r : PrepareResult) → refusal ≡ some r → r.error ≢ none)
      → guarded cfg values nf answers info runtime provider state request refusal ≡ (state', ok res)
      → res.error ≡ none
      → (refusal ≡ none) × Ready state request res state'
  unfolding guarded preflighted marshalled
  guarded-Ready state state' request (some r) {res} bad h e = absurd (bad r refl (ground arith))
  guarded-Ready state state' request none {res} bad h e =
      let (provided, ep, h1) =
        attempt-eq-ok (provider state.sidecar request) state
          (preflighted cfg values nf answers info runtime provider state request) h in
      let (_, ef, h2) =
        attempt-eq-ok
          (context "Cannot start network attack."
            (answers.preflight_check state.sidecar provided.0))
          state (marshalled cfg values nf answers info runtime provider state request provided)
          h1 in
      let (raw, er, h3) =
        attempt-eq-ok (context "Failed to serialize network settings." (nf.encode provided.0)) state
          (finish cfg values nf answers info runtime provider state request provided) h2 in
      let (es, em) = finish_inv state state' request provided raw h3 in
      let er' = context-eq-ok _ _ er in
      let raw_is : state'.network_opts ≡ raw =
        ap (λ (s : NetworkActionState nf). s.network_opts) es in
      (
        refl,
        record {
          opts = provided.0;
          provided = ep ∙ ap (λ m. ok (provided.0, m)) (sym em);
          preflight = context-eq-ok _ _ ef;
          encoded = er' ∙ ap ok (sym raw_is);
          left =
              es
              ∙ ap
                  (λ (r : String). record state {
                    network_opts = r;
                    execution_id = request.execution_id;
                  })
                  (sym raw_is);
        },
      )
