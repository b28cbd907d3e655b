-- ===== src/Examples/Encoding.antt =====
-- A codec for maps that hold keys only, whose texts tell the keys apart.
use extension_container.Common.{
  ℕ, code, arith, String, Option, none, some, [], ◌∷◌, ◌==◌, if◌then◌else◌, ◌≡◌, ne_of_==-false,
  ◌≢◌, ◌↔◌, refl, sym, ap,
}
use extension_container.Common.Dicts.{Dict, erase}
use extension_container.Netns.Normalize.{
  Json, Object, IsFaithful, normalize_iff, normalize_opts_for_dedup, target_execution_id,
}

-- Each character of a key stands behind an x, each key ends with y, the map with z.
unfoldable pub encoded_key : String → String → String
encoded_key String.[] rest = String.◌∷◌ "y" rest
encoded_key (String.◌∷◌ c s) rest = String.◌∷◌ "x" (String.◌∷◌ c (encoded_key s rest))

unfoldable pub encoded : Dict (Unit {0}) → String
unfolding encoded_key
encoded [] = "z"
encoded ((k, _) ∷ m) = encoded_key k (encoded m)

unfoldable pub encoded_object : Option (Dict (Unit {0})) → Option String
unfolding encoded
encoded_object none = some "null"
encoded_object (some m) = some (encoded m)

abbrev pub entries : String → Dict (Unit {0})
entries delay = (target_execution_id, tt) ∷ (delay, tt) ∷ []

unfoldable pub decoded : String → Option (Object (Unit {0}))
decoded s =
    if s == "first"
    then some (some (entries "Delay"))
    else if s == "second"
    then some (some (("Delay", tt) ∷ (target_execution_id, tt) ∷ []))
    else none

abbrev pub json : Json
json = record { Value = Unit {0}; unmarshal = decoded; marshal = encoded_object }

abbrev head_code : String → ℕ
head_code String.[] = 0
head_code (String.◌∷◌ c s) = code c

encoded_key-injective : (a b r s : String) → encoded_key a r ≡ encoded_key b s → (a ≡ b) × (r ≡ s)
unfolding encoded_key
encoded_key-injective String.[] String.[] r s h = (refl, cc h)
encoded_key-injective String.[] (String.◌∷◌ c b) r s h = absurd (omega (arith, ap head_code h))
encoded_key-injective (String.◌∷◌ c a) String.[] r s h = absurd (omega (arith, ap head_code h))
encoded_key-injective (String.◌∷◌ c a) (String.◌∷◌ d b) r s h =
    let (e, k) = encoded_key-injective a b r s (cc h) in (cc (h, e), k)

encoded_key-end : (k rest : String) → encoded_key k rest ≢ "z"
unfolding encoded_key
encoded_key-end String.[] rest h = omega (arith, ap head_code h)
encoded_key-end (String.◌∷◌ c k) rest h = omega (arith, ap head_code h)

encoded-injective : (m n : Dict (Unit {0})) → encoded m ≡ encoded n → m ≡ n
unfolding encoded
encoded-injective [] [] h = refl
encoded-injective [] ((k, _) ∷ n) h = absurd (encoded_key-end k (encoded n) (sym h))
encoded-injective ((k, _) ∷ m) [] h = absurd (encoded_key-end k (encoded m) h)
encoded-injective ((j, _) ∷ m) ((k, _) ∷ n) h =
    let (e, r) = encoded_key-injective j k (encoded m) (encoded n) h in
    cc (e, encoded-injective m n r)

json-IsFaithful : IsFaithful json
unfolding encoded_object
json-IsFaithful = record {
  marshal_total = λ m. (encoded m, refl);
  marshal_injective = λ m n h. encoded-injective m n (cc h);
}

normalize_iff_example :
    (normalize_opts_for_dedup json "first" ≡ normalize_opts_for_dedup json "second") ↔ (
      erase target_execution_id (entries "Delay")
      ≡ erase target_execution_id (("Delay", tt) ∷ (target_execution_id, tt) ∷ []))
unfolding decoded
normalize_iff_example =
    normalize_iff json json-IsFaithful "first" "second" (entries "Delay")
      (("Delay", tt) ∷ (target_execution_id, tt) ∷ []) (ne_of_==-false "first" "" refl)
      (ne_of_==-false "second" "" refl) refl refl
