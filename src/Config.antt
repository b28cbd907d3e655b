-- ===== src/Config.antt =====
-- config/config.go: the settings that the actions and the discovery read, and the command line's
-- part of them. The variables of the environment are read by the library envconfig.
use extension_container.Common.{
  ℕ, String, Bool, ◌||◌, List, [], ◌∷◌, ◌++◌, ◌==◌, if◌then◌else◌, Result, ok, err, panic, ◌>>=◌,
  Option, none, some, split_on, trim_space,
}

-- A compiled pattern, known by the texts that it matches.
pub record DisallowedName : Type 0 where
  pub p : String
  pub g : String → Bool

-- The settings.
pub record Specification : Type 0 where
  pub container_socket : String
  pub container_runtime : String
  pub containerd_namespace : String
  pub disable_discovery_excludes : Bool
  pub discovery_call_interval : String
  pub discovery_attributes_excludes : List String
  pub port : ℕ  -- uint16
  pub health_port : ℕ  -- uint16
  pub liveness_check_interval : String
  pub hostname : String
  pub disallow_host_network : Bool
  pub disallow_k8s_namespaces : List DisallowedName
  pub network_strict_root_qdisc : Bool

unfoldable pub match : DisallowedName → String → Bool
match d value = d.g value

-- `DisallowedName.Decode`, over `glob.Compile`.
unfoldable pub decode : (String → Result (String → Bool)) → String → Result DisallowedName
decode compile value = do g ← compile value; ok (record { p = value; g = g })

-- The loop of `parseArgs` over the parts of the flag.
unfoldable pub add_disallowed :
    (String → Result (String → Bool))
    → List String
    → List DisallowedName
    → Result (List DisallowedName)
unfolding decode
add_disallowed compile [] names = ok names
add_disallowed compile (s ∷ parts) names =
    let skipped = add_disallowed compile parts names in
    let added = λ (d : DisallowedName). add_disallowed compile parts (names ++ (d ∷ [])) in
    if s == "" then skipped else (decode compile s >>= added)

-- An error ends the process.
abbrev or_exit : {A : Type 0} → Result A → Result (Option A)
or_exit (ok a) = ok (some a)
or_exit (err e) = ok none
or_exit panic = panic

-- The two flags that `flag.Parse` reads.
pub record Flags : Type 0 where
  pub disallow_host_network : Bool
  pub disallow_k8s_namespaces : String

unfoldable pub parse_args :
    (String → Result (String → Bool)) → Result Flags → Specification → Result Specification
unfolding add_disallowed split_on trim_space
parse_args compile parsed cfg = do
  flags ← parsed
  let parts = split_on b',' (trim_space flags.disallow_k8s_namespaces)
  names ← add_disallowed compile parts cfg.disallow_k8s_namespaces
  ok (record cfg {
    disallow_host_network = cfg.disallow_host_network || flags.disallow_host_network;
    disallow_k8s_namespaces = names;
  })

-- `ParseConfiguration`, from what envconfig makes of the environment. None is the end of the process,
-- which logging a fatal error is.
unfoldable pub parse_configuration :
    (String → Result (String → Bool))
    → Result Specification
    → Result Flags
    → Result (Option Specification)
unfolding parse_args
parse_configuration compile environment parsed = or_exit environment >>= λ read. elim read [
  | none ↦ ok none
  | some cfg ↦ or_exit (parse_args compile parsed cfg)
]
