-- ===== src/Targets/HostNetwork.antt =====
-- What `isUsingHostNetwork` of extcontainer/action_network.go decides on.
use extension_container.Common.{
  true, false, List, [], ◌∷◌, ◌≡◌, ◌≢◌, arith, Bool-cases, inl, inr, ne_of_==-false, LinuxNamespace,
  is_network,
}
use extension_container.Targets.{is_using_host_network}

-- The first namespace of the network among those of a process.
pub data FirstNetwork : List LinuxNamespace → LinuxNamespace → Type 0 where
  here :
      (n : LinuxNamespace) (ns : List LinuxNamespace)
      → is_network n.kind ≡ true
      → FirstNetwork (n ∷ ns) n
  there :
      (n m : LinuxNamespace) (ns : List LinuxNamespace)
      → is_network n.kind ≡ false
      → FirstNetwork ns m
      → FirstNetwork (n ∷ ns) m

-- The process has a network of its own: not the one of the host's first process.
abbrev pub HasOwnNetwork : List LinuxNamespace → Type 0
HasOwnNetwork ns = (n : LinuxNamespace) × FirstNetwork ns n × (n.path ≢ "/proc/1/ns/net")

pub is_using_host_network-own :
    (ns : List LinuxNamespace) → is_using_host_network ns ≡ false → HasOwnNetwork ns
unfolding is_using_host_network
is_using_host_network-own [] h = absurd (cc h)
is_using_host_network-own (n ∷ ns) h = elim (Bool-cases (is_network n.kind)) [
  | inl e ↦ (n, here n ns e, ne_of_==-false n.path "/proc/1/ns/net" (ground (arith, e, h)))
  | inr e ↦
      let (m, first, other) = is_using_host_network-own ns (ground (arith, e, h)) in
      (m, there n m ns e first, other)
]
