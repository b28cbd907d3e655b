-- ===== src/Netns/Normalize.antt =====
-- `normalizeOptsForDedup` of extcontainer/netns_dedup.go, over the JSON codec.
use extension_container.Common.{
  String, false, Option, none, some, ◌==◌, ◌≡◌, ◌≢◌, ◌↔◌, refl, ap, sym, ◌∙◌, if◌then◌else◌,
  ==-false,
}
use extension_container.Common.Dicts.{Dict, erase}

-- A `map[string]any`, its entries in the order of their keys, so that equal maps are equal lists.
-- `none` is the nil map, to which the literal `null` decodes.
abbrev pub Object : Type 0 → Type 0
Object V = Option (Dict V)

-- `json.Unmarshal` into a `map[string]any` and `json.Marshal` of one; `none` is an error.
pub record Json : Type 1 where
  pub Value : Type 0
  pub unmarshal : String → Option (Object Value)
  pub marshal : Object Value → Option String

-- The documented behaviour of `json.Marshal`: what was decoded can be encoded, and the text of a
-- map tells its entries.
pub record IsFaithful (json : Json) : Type 0 where
  pub marshal_total : (m : Dict json.Value) → (s : String) × (json.marshal (some m) ≡ some s)
  pub marshal_injective :
      (m n : Dict json.Value) → json.marshal (some m) ≡ json.marshal (some n) → m ≡ n

-- Go's `delete` on a map; it does nothing on the nil map.
abbrev pub delete {ℓ} : {V : Type ℓ} → String → Option (Dict V) → Option (Dict V)
delete k none = none
delete k (some m) = some (erase k m)

abbrev pub target_execution_id : String
target_execution_id = "TargetExecutionId"

abbrev or_raw : String → Option String → String
or_raw raw none = raw
or_raw raw (some out) = out

unfoldable pub normalize_opts_for_dedup : Json → String → String
normalize_opts_for_dedup json raw = if raw == "" then "" else elim (json.unmarshal raw) [
  | none ↦ raw
  | some m ↦ or_raw raw (json.marshal (delete target_execution_id m))
]

module _ (json : Json) where
  normalize-decoded :
      (raw : String) (m : Dict json.Value) (out : String)
      → (raw == "") ≡ false
      → json.unmarshal raw ≡ some (some m)
      → json.marshal (some (erase target_execution_id m)) ≡ some out
      → normalize_opts_for_dedup json raw ≡ out
  unfolding normalize_opts_for_dedup
  normalize-decoded raw m out h e w = rw (h, e, normalize_opts_for_dedup, w) refl

  -- Two attacks whose options decode normalise alike exactly when their options are the same in
  -- every entry but the id of the target's execution.
  pub normalize_iff :
      IsFaithful json
      → (a b : String) (m n : Dict json.Value) → a ≢ ""
      → b ≢ ""
      → json.unmarshal a ≡ some (some m)
      → json.unmarshal b ≡ some (some n)
      → (normalize_opts_for_dedup json a ≡ normalize_opts_for_dedup json b)
        ↔ (erase target_execution_id m ≡ erase target_execution_id n)
  normalize_iff law a b m n ha hb em en =
      let (s, es) = law.marshal_total (erase target_execution_id m) in
      let (t, et) = law.marshal_total (erase target_execution_id n) in
      let ra = normalize-decoded a m s (==-false a "" ha) em es in
      let rb = normalize-decoded b n t (==-false b "" hb) en et in
      (
        (λ e. law.marshal_injective _ _ (es ∙ ap some (sym ra ∙ e ∙ rb) ∙ sym et)),
        (λ e. cc (ra, rb)),
      )
