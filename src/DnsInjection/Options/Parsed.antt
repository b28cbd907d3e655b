-- ===== src/DnsInjection/Options/Parsed.antt =====
-- What `parseDNSInjectOpts` of extcontainer/action_network_dns_error_injection.go accepts.
use extension_container.Common.{
  String, Option, none, some, List, [], ◌∷◌, map, ◌==◌, eq_iff, Bool-cases, inl, inr, ◌≡◌, ◌≢◌,
  refl, sym, ap, ◌∙◌, arith, Result, ok, >>=-ok, ok_inj, if◌then◌else◌,
}
use extension_container.Common.Dicts.{Dict, lookup}
use extension_container.ActionKit.{Values}
use extension_container.Filters.{Networks}
use extension_container.DnsInjection.Options.{
  ErrorType, nxdomain, servfail, timeout, InjectOpts, error_type, add_type, error_types,
  selected_types, port_range_of, parse_cidr_list, parse_dns_inject_opts,
}

-- The name of a type in the action's parameter.
abbrev pub name : ErrorType → String
name nxdomain = "NXDOMAIN"
name servfail = "SERVFAIL"
name timeout = "TIMEOUT"

cons_eq {ℓ} : {A : Type ℓ} {a b : A} {xs ys : List A} → a ≡ b → xs ≡ ys → a ∷ xs ≡ b ∷ ys
cons_eq h k = cc (h, k)

read_by :
    (s n : String) (t : ErrorType) (rest : Option ErrorType) {u : ErrorType}
    → name t ≡ n
    → (rest ≡ some u → name u ≡ s)
    → (if s == n then some t else rest) ≡ some u
    → name u ≡ s
read_by s n t rest {u} names other h = elim (Bool-cases (s == n)) [
  | inl e ↦
      let same : t ≡ u = ground (arith, h, e) in ap name (sym same) ∙ names ∙ sym ((eq_iff s n).0 e)
  | inr ne ↦ other (ground (arith, h, ne))
]

-- A type is read from its name only.
name-error_type : (s : String) (t : ErrorType) → error_type s ≡ some t → name t ≡ s
unfolding error_type
name-error_type s t h =
    read_by s "NXDOMAIN" nxdomain _ refl
      (λ h1.
        read_by s "SERVFAIL" servfail _ refl
          (λ h2. read_by s "TIMEOUT" timeout none refl (λ h3. absurd (cc h3)) h2) h1)
      h

add_type-names :
    (s : String) (ss : List String) (o : Option ErrorType) (others : Result (List ErrorType))
    (ts : List ErrorType)
    → ((t : ErrorType) → o ≡ some t → name t ≡ s)
    → ((us : List ErrorType) → others ≡ ok us → map name us ≡ ss)
    → add_type s o others ≡ ok ts
    → map name ts ≡ s ∷ ss
unfolding add_type
add_type-names s ss none others ts first rest h = absurd (cc h)
add_type-names s ss (some t) others ts first rest h =
    let (us, e, h1) = >>=-ok others (λ us. ok (t ∷ us)) h in
    ap (map name) (sym (ok_inj h1)) ∙ cons_eq (first t refl) (rest us e)

error_types-names :
    (ss : List String) (ts : List ErrorType) → error_types ss ≡ ok ts → map name ts ≡ ss
unfolding error_types
error_types-names [] ts h = ap (map name) (sym (ok_inj h))
error_types-names (s ∷ ss) ts h =
    add_type-names s ss (error_type s) (error_types ss) ts (name-error_type s)
      (error_types-names ss) h

selected_types-names :
    (ss : List String) (ts : List ErrorType)
    → selected_types ss ≡ ok ts
    → (map name ts ≡ ss) × (ts ≢ [])
unfolding selected_types
selected_types-names [] ts h = absurd (cc h)
selected_types-names (s ∷ ss) ts h =
    let names = error_types-names (s ∷ ss) ts h in
    (names, λ e. absurd (cc (sym names ∙ ap (map name) e)))

-- Options that are accepted hold exactly the error types that were selected by name, in their
-- order, and at least one; their ports are those of the parameter `port`, of 53 where it is empty.
pub parse_dns_inject_opts-names :
    (lib : Networks) (values : Values) (config : Dict values.Value) {o : InjectOpts lib.Net}
    → parse_dns_inject_opts lib values config ≡ ok o
    → (map name o.error_types ≡ values.to_string_array (lookup "dnsErrorType" config))
      × (o.error_types ≢ [])
      × (port_range_of lib (values.to_string (lookup "port" config)) ≡ ok o.port_range)
unfolding parse_dns_inject_opts
parse_dns_inject_opts-names lib values config {o} h =
    let array = λ (key : String). values.to_string_array (lookup key config) in
    let (types, et, h1) = >>=-ok (selected_types (array "dnsErrorType")) _ h in
    let (ports, ep, h2) =
      >>=-ok (port_range_of lib (values.to_string (lookup "port" config))) _ h1 in
    let (cidrs, ec, h3) = >>=-ok (parse_cidr_list lib (array "cidr")) _ h2 in
    let e = ok_inj h3 in
    let (names, some_type) = selected_types-names (array "dnsErrorType") types et in
    let same = ap (λ (x : InjectOpts lib.Net). x.error_types) e in
    (
      ap (map name) (sym same) ∙ names,
      (λ empty. some_type (same ∙ empty)),
      ep ∙ ap (λ (x : InjectOpts lib.Net). ok x.port_range) e,
    )
