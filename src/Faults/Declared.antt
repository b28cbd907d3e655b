-- ===== src/Faults/Declared.antt =====
-- The options of the network attacks depend on the parameters that their descriptions declare, and on
-- no others.
use extension_container.Common.{◌≡◌, refl}
use extension_container.Common.Dicts.{Dict, lookup}
use extension_container.ActionKit.{Request, Values}
use extension_container.Filters.{Networks, map_to_network_filter}
use extension_container.Faults.{
  Runner, value, request_filter, affected_interfaces, delay, package_loss, corrupt_packages,
  limit_bandwidth, tcp_reset, blackhole, block_dns,
}
use extension_container.Faults.Kinds.{
  Kind, delays, loses, corrupts, limits, resets, blackholes, blocks_dns, opts_provider, description,
}
use extension_container.Describe.Shared.{common_network_parameters}
use extension_container.Describe.Declared.{Agree, with_config}

module _ (lib : Networks) (values : Values) (runner : Runner) (request : Request values.Value)
    (config : Dict values.Value) where
  filter-Agree :
      Agree common_network_parameters config request.config
      → request_filter lib values runner (with_config request config)
        ≡ request_filter lib values runner request
  unfolding request_filter map_to_network_filter common_network_parameters
  filter-Agree (_, (_, (hostname, (ip, (port, (exclude_hostname, (exclude_ip, _))))))) =
      rw (hostname, ip, port, exclude_hostname, exclude_ip) refl

  interfaces-Agree :
      lookup "networkInterface" config ≡ lookup "networkInterface" request.config
      → affected_interfaces lib values runner (with_config request config)
        ≡ affected_interfaces lib values runner request
  unfolding affected_interfaces value
  interfaces-Agree e = rw (e) refl

  pub opts_provider-Agree :
      (kind : Kind)
      → Agree (description kind).parameters config request.config
      → opts_provider lib values runner kind (with_config request config)
        ≡ opts_provider lib values runner kind request
  unfolding opts_provider description common_network_parameters delay package_loss corrupt_packages
      limit_bandwidth tcp_reset blackhole block_dns value
  opts_provider-Agree delays (a, (b, (c, (d, (e, (f, (g, (time, (jitter, (is, (psh, _))))))))))) =
      rw
        (filter-Agree (a, (b, (c, (d, (e, (f, (g, tt))))))), interfaces-Agree is, time, jitter, psh)
        refl
  opts_provider-Agree loses (a, (b, (c, (d, (e, (f, (g, (loss, (is, _))))))))) =
      rw (filter-Agree (a, (b, (c, (d, (e, (f, (g, tt))))))), interfaces-Agree is, loss) refl
  opts_provider-Agree corrupts (a, (b, (c, (d, (e, (f, (g, (corruption, (is, _))))))))) =
      rw (filter-Agree (a, (b, (c, (d, (e, (f, (g, tt))))))), interfaces-Agree is, corruption) refl
  opts_provider-Agree limits (a, (b, (c, (d, (e, (f, (g, (bandwidth, (is, _))))))))) =
      rw (filter-Agree (a, (b, (c, (d, (e, (f, (g, tt))))))), interfaces-Agree is, bandwidth) refl
  opts_provider-Agree resets (a, (b, (c, (d, (e, (f, (g, (is, _)))))))) =
      rw (filter-Agree (a, (b, (c, (d, (e, (f, (g, tt))))))), interfaces-Agree is) refl
  opts_provider-Agree blackholes (a, (b, (c, (d, (e, (f, (g, _))))))) =
      rw (filter-Agree (a, (b, (c, (d, (e, (f, (g, tt)))))))) refl
  opts_provider-Agree blocks_dns (_, (port, _)) = rw (port) refl
