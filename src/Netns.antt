-- ===== src/Netns.antt =====
-- extcontainer/netns_dedup.go: which of several network attacks on one network namespace applies
-- its rules. The tracker is the map under the mutex; each call holds the lock throughout, so a
-- call is one step from a tracker to the next. The counters are not bounded.
pub mod Claims
pub mod Normalize
pub mod Releases
use extension_container.Common.{
  ℕ, ◌+◌, ◌-◌, String, Bool, true, false, Option, none, some, List, [], ◌∷◌, ◌==◌, leb, eqb,
  decimal, if◌then◌else◌, LinuxNamespace, LinuxProcessInfo, is_network,
}
use extension_container.Common.Dicts.{Dict, lookup, insert, erase}
use Normalize.{Json, normalize_opts_for_dedup}

-- `active` of `netnsAttackTracker`.
pub record NetnsEntry : Type 0 where
  pub count : ℕ
  pub opts : String

abbrev pub Tracker : Type 0
Tracker = Dict NetnsEntry

pub data ClaimResult : Type 0 where
  claim_primary claim_shadow claim_passthrough : ClaimResult

find_network : List LinuxNamespace → String
find_network [] = ""
find_network (ns ∷ rest) =
    if is_network ns.kind
    then (if eqb ns.inode 0 then ns.path else decimal ns.inode)
    else find_network rest

unfoldable pub net_ns_id : LinuxProcessInfo → String
unfolding find_network decimal
net_ns_id process = find_network process.namespaces

module _ (json : Json) where
  unfoldable pub claim_netns_for_attack : String → String → Tracker → Tracker × ClaimResult
  claim_netns_for_attack id opts active =
      if id == ""
      then (active, claim_primary)
      else let normalized = normalize_opts_for_dedup json opts in
        elim (lookup id active) [
          | none ↦ (insert id (record { count = 1; opts = normalized }) active, claim_primary)
          | some entry ↦
              if entry.opts == normalized
              then (insert id (record entry { count = entry.count + 1 }) active, claim_shadow)
              else (active, claim_passthrough)
        ]

unfoldable pub release_netns_for_attack : String → Tracker → Tracker
release_netns_for_attack id active = if id == "" then active else elim (lookup id active) [
  | none ↦ active
  | some entry ↦
      if leb entry.count 1
      then erase id active
      else insert id (record entry { count = entry.count - 1 }) active
]
