-- ===== src/Discovery/Hosts.antt =====
-- The name of the host and its full name, in extcontainer/discovery.go. The resolver, the host name of
-- the first process and the one of the operating system are called; only the name that
-- `resolveFQDN` returns is kept, since its caller drops the error.
use extension_container.Common.{
  ℕ, String, code, Bool, true, false, ◌&&◌, eqb, leb, ◌+◌, List, [], ◌∷◌, ◌==◌, ◌≡◌, refl,
  if◌then◌else◌, Bool-cases, inl, inr, Result, ok, err, panic,
}
use extension_container.Config.{Specification}

pub record Resolver : Type 0 where
  pub lookup_cname : String → Result String
  pub lookup_ip : String → Result (List String)
  pub lookup_addr : String → Result (List String)

-- `name, _ :=` of a call.
unfoldable pub name_of : Result String → String
name_of (ok s) = s
name_of (err _) = ""
name_of panic = ""

unfoldable pub names_of : Result (List String) → List String
names_of (ok ss) = ss
names_of (err _) = []
names_of panic = []

-- `strings.TrimSuffix(s, ".")`.
unfoldable pub trim_dot : String → String
trim_dot String.[] = ""
trim_dot (String.◌∷◌ c s) =
    let rest = trim_dot s in if eqb (code c) 46 && (s == "") then "" else String.◌∷◌ c rest

-- The code of a character, of a small letter for a capital of ASCII.
abbrev folded : ℕ → ℕ
folded n = if leb 65 n && leb n 90 then n + 32 else n

-- `strings.EqualFold` on names of hosts, which are ASCII.
unfoldable pub equal_fold : String → String → Bool
equal_fold String.[] String.[] = true
equal_fold String.[] (String.◌∷◌ _ _) = false
equal_fold (String.◌∷◌ _ _) String.[] = false
equal_fold (String.◌∷◌ c s) (String.◌∷◌ d t) =
    eqb (folded (code c)) (folded (code d)) && equal_fold s t

-- The loop over the addresses.
unfoldable pub first_addressed : (String → Result (List String)) → List String → String
unfolding names_of trim_dot
first_addressed lookup_addr [] = ""
first_addressed lookup_addr (ip ∷ ips) =
    let later = first_addressed lookup_addr ips in
    elim (names_of (lookup_addr ip)) [ [] ↦ later | name ∷ _ ↦ trim_dot name ]

unfoldable pub resolve_fqdn : Resolver → String → String
unfolding name_of names_of trim_dot equal_fold first_addressed
resolve_fqdn r hostname =
    let cname = name_of (r.lookup_cname hostname) in
    if cname == ""
    then first_addressed r.lookup_addr (names_of (r.lookup_ip hostname))
    else if equal_fold (trim_dot cname) hostname
    then hostname
    else trim_dot cname

-- The second name where the first is empty.
unfoldable pub or_else : String → String → String
or_else s t = if s == "" then t else s

unfoldable pub with_fqdn : Resolver → String → String × String
unfolding or_else resolve_fqdn
with_fqdn r hostname =
    if hostname == ""
    then ("unknown", "unknown")
    else (hostname, or_else (resolve_fqdn r hostname) hostname)

unfoldable pub get_hostname :
    Specification → Resolver → Result String → Result String → String × String
unfolding or_else name_of with_fqdn
get_hostname cfg r init_hostname os_hostname =
    with_fqdn r (or_else (or_else cfg.hostname (name_of init_hostname)) (name_of os_hostname))

or_else-named : (s t : String) → (t == "") ≡ false → (or_else s t == "") ≡ false
unfolding or_else
or_else-named s t h = elim (Bool-cases (s == "")) [
  | inl e ↦ rw (or_else, e, h) refl
  | inr e ↦ rw (or_else, e) e
]

with_fqdn-named :
    (r : Resolver) (s : String)
    → (((with_fqdn r s).0 == "") ≡ false) × (((with_fqdn r s).1 == "") ≡ false)
unfolding with_fqdn
with_fqdn-named r s = elim (Bool-cases (s == "")) [
  | inl e ↦ (rw (with_fqdn, e) refl, rw (with_fqdn, e) refl)
  | inr e ↦ (rw (with_fqdn, e) e, rw (with_fqdn, e) (or_else-named (resolve_fqdn r s) s e))
]

with_fqdn-configured :
    (r : Resolver) (s t u : String)
    → (with_fqdn r (or_else (or_else s t) u)).0
      ≡ or_else s (with_fqdn r (or_else (or_else s t) u)).0
unfolding with_fqdn or_else
with_fqdn-configured r s t u = elim (Bool-cases (s == "")) [
  | inl e ↦ rw (or_else, e) refl
  | inr e ↦ rw (or_else, e, e, with_fqdn, e) refl
]

-- A target never reports an empty name of its host or an empty full name, whatever the settings, the
-- operating system and the resolver answer; and a name in the settings is the one that is reported.
pub get_hostname-named :
    (cfg : Specification) (r : Resolver) (init_hostname os_hostname : Result String)
    → ((((get_hostname cfg r init_hostname os_hostname).0 == "") ≡ false)
        × (((get_hostname cfg r init_hostname os_hostname).1 == "") ≡ false))
      × ((get_hostname cfg r init_hostname os_hostname).0
          ≡ or_else cfg.hostname (get_hostname cfg r init_hostname os_hostname).0)
unfolding get_hostname
get_hostname-named cfg r init_hostname os_hostname = (
  with_fqdn-named r _,
  with_fqdn-configured r cfg.hostname (name_of init_hostname) (name_of os_hostname),
)
