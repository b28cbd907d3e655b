-- ===== src/Faults/Kinds.antt =====
-- The network attacks by their kind: which provider of options and which description each
-- `NewNetwork...ContainerAction` of extcontainer/action_network_*.go gives to `networkAction`.
use extension_container.Common.{Result, ok, ◌>>=◌}
use extension_container.ActionKit.{Messages, Request, Values}
use extension_container.Filters.{Networks}
use extension_container.Faults.{
  Runner, DelayOpts, PackageLossOpts, CorruptPackagesOpts, LimitBandwidthOpts, TcpResetOpts,
  BlackholeOpts, delay, package_loss, corrupt_packages, limit_bandwidth, tcp_reset, blackhole,
  block_dns,
}
use extension_container.Describe.{ActionDescription}
use extension_container.Describe.Quality.{
  delay_description, package_loss_description, corrupt_packages_description,
  limit_bandwidth_description,
}
use extension_container.Describe.Reach.{
  tcp_reset_description, blackhole_description, block_dns_description,
}

pub data Kind : Type 0 where
  delays loses corrupts limits resets blackholes blocks_dns : Kind

-- `netfault.Opts`, the interface of the options.
pub data AttackOpts (Net : Type 0) : Type 0 where
  delay_opts : DelayOpts Net → AttackOpts Net
  package_loss_opts : PackageLossOpts Net → AttackOpts Net
  corrupt_packages_opts : CorruptPackagesOpts Net → AttackOpts Net
  limit_bandwidth_opts : LimitBandwidthOpts Net → AttackOpts Net
  tcp_reset_opts : TcpResetOpts Net → AttackOpts Net
  blackhole_opts : BlackholeOpts Net → AttackOpts Net

abbrev pub given {ℓ} :
    {Net : Type 0} {O : Type ℓ}
    → (O → AttackOpts Net)
    → Result (O × Messages)
    → Result (AttackOpts Net × Messages)
given f provided = provided >>= λ p. ok (f p.0, p.1)

unfoldable pub opts_provider :
    (lib : Networks) (values : Values)
    → Runner
    → Kind
    → Request values.Value
    → Result (AttackOpts lib.Net × Messages)
unfolding delay package_loss corrupt_packages limit_bandwidth tcp_reset blackhole block_dns
opts_provider lib values runner delays request = given delay_opts (delay lib values runner request)
opts_provider lib values runner loses request =
    given package_loss_opts (package_loss lib values runner request)
opts_provider lib values runner corrupts request =
    given corrupt_packages_opts (corrupt_packages lib values runner request)
opts_provider lib values runner limits request =
    given limit_bandwidth_opts (limit_bandwidth lib values runner request)
opts_provider lib values runner resets request =
    given tcp_reset_opts (tcp_reset lib values runner request)
opts_provider lib values runner blackholes request =
    given blackhole_opts (blackhole lib values runner request)
opts_provider lib values runner blocks_dns request =
    given blackhole_opts (block_dns lib values runner request)

unfoldable pub description : Kind → ActionDescription
unfolding delay_description package_loss_description corrupt_packages_description
    limit_bandwidth_description tcp_reset_description blackhole_description block_dns_description
description delays = delay_description
description loses = package_loss_description
description corrupts = corrupt_packages_description
description limits = limit_bandwidth_description
description resets = tcp_reset_description
description blackholes = blackhole_description
description blocks_dns = block_dns_description
