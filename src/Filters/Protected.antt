-- ===== src/Filters/Protected.antt =====
-- The endpoints that `mapToNetworkFilter` of extcontainer/action_network.go keeps out of an attack.
use mathlib.Core.List.{Memᴰ}
use mathlib.Core.List.Memᴰ.{head, tail, append_left, append_right}
use mathlib.Core.List.Memᴰ
use extension_container.Common.{
  ℕ, String, List, [], ◌∷◌, ◌++◌, ◌≡◌, refl, sym, ap, subst, ◌∙◌, ok, ◌>>=◌, >>=-ok, ok_inj,
}
use extension_container.Common.Dicts.{Dict, lookup}
use extension_container.ActionKit.{Messages, RestrictedEndpoint, Values}
use extension_container.Filters.{
  PortRange, NetWithPortRange, Filter, Networks, Ranges, parse_port_ranges, endpoint_comment,
  uint16, endpoint_excludes, parsed_cidr, to_excludes, condense_excludes, named_nets, included,
  excluded, filter_of, map_to_network_filter,
}

module _ (lib : Networks) where
  -- The range of an endpoint in the filter: its network, its ports as 16-bit numbers, its comment.
  abbrev pub endpoint_range : RestrictedEndpoint → lib.Net → NetWithPortRange lib.Net
  endpoint_range e net = record {
    net = net;
    ports = record { from = uint16 lib e.port_min; to = uint16 lib e.port_max };
    comment = endpoint_comment lib e;
  }

  -- `NewNetWithPortRanges` has the range of each network and each range of ports.
  abbrev pub Combines : Type 0
  Combines =
      (net : lib.Net) (ports : PortRange)
      → Memᴰ (record { net = net; ports = ports; comment = "" })
          (lib.new_net_with_port_ranges (net ∷ []) (ports ∷ []))

  -- Sorting keeps every range.
  abbrev pub SortKeeps : Type 0
  SortKeeps = (xs : Ranges lib) (x : NetWithPortRange lib.Net) → Memᴰ x xs → Memᴰ x (lib.sorted xs)

  -- Each range that is condensed is covered by one that results.
  abbrev pub CondenseCovers :
      (NetWithPortRange lib.Net → NetWithPortRange lib.Net → Type 0) → Type 0
  CondenseCovers Covers =
      (xs : Ranges lib) (n : ℕ) (x : NetWithPortRange lib.Net)
      → Memᴰ x xs
      → (y : NetWithPortRange lib.Net) × Memᴰ y (lib.condense xs n) × Covers x y

  endpoint_excluded :
      (combines : Combines) (e : RestrictedEndpoint) (net : lib.Net)
      → Memᴰ (endpoint_range e net) (endpoint_excludes lib e net)
  endpoint_excluded combines e net =
      Memᴰ.map (λ (n : NetWithPortRange lib.Net). record n { comment = endpoint_comment lib e })
        (combines net (record { from = uint16 lib e.port_min; to = uint16 lib e.port_max }))

  parsed_cidr_ok :
      (e : RestrictedEndpoint) (net : lib.Net)
      → lib.parse_cidr e.cidr ≡ ok net
      → parsed_cidr lib e ≡ ok net
  parsed_cidr_ok e net h = rw (parsed_cidr, h) refl

  -- Each endpoint whose network is parsed stands among the excludes.
  to_excludes-mem :
      (combines : Combines) (endpoints : List RestrictedEndpoint) (xs : Ranges lib)
      (e : RestrictedEndpoint) (net : lib.Net)
      → to_excludes lib endpoints ≡ ok xs
      → Memᴰ e endpoints
      → lib.parse_cidr e.cidr ≡ ok net
      → Memᴰ (endpoint_range e net) xs
  unfolding to_excludes
  to_excludes-mem combines [] xs e net h m parsed = elim m [ ]
  to_excludes-mem combines (d ∷ endpoints) xs e net h m parsed =
      let (dnet, ed, h1) =
        >>=-ok (parsed_cidr lib d)
          (λ n. to_excludes lib endpoints >>= λ others. ok (endpoint_excludes lib d n ++ others))
          h in
      let (others, eo, h2) =
        >>=-ok (to_excludes lib endpoints) (λ others. ok (endpoint_excludes lib d dnet ++ others))
          h1 in
      subst (λ ys. Memᴰ (endpoint_range e net) ys) (ok_inj h2)
        (elim m [
          | head same ↦ append_left others (
              subst (λ k. Memᴰ (endpoint_range e net) (endpoint_excludes lib d k))
                (ok_inj (
                  sym (
                    parsed_cidr_ok d net
                      (ap (λ (k : RestrictedEndpoint). lib.parse_cidr k.cidr) (sym same) ∙ parsed))
                  ∙ ed))
                (subst
                  (λ (k : RestrictedEndpoint).
                    Memᴰ (endpoint_range e net) (endpoint_excludes lib k net))
                  same (endpoint_excluded combines e net)))
          | tail later ↦
              append_right (endpoint_excludes lib d dnet)
                (to_excludes-mem combines endpoints others e net eo later parsed)
        ])

  filter_of-covers :
      (Covers : NetWithPortRange lib.Net → NetWithPortRange lib.Net → Type 0)
      (covers : CondenseCovers Covers) (includes excludes : Ranges lib)
      (x : NetWithPortRange lib.Net)
      → Memᴰ x excludes
      → (y : NetWithPortRange lib.Net) × Memᴰ y (filter_of lib includes excludes).0.exclude
        × Covers x y
  unfolding filter_of condense_excludes
  filter_of-covers Covers covers includes excludes x m = covers excludes 500 x m

  excluded-endpoint :
      (keeps : SortKeeps) (endpoints : Ranges lib) (cidrs : List lib.Net)
      (x : NetWithPortRange lib.Net)
      → Memᴰ x endpoints
      → Memᴰ x (excluded lib endpoints cidrs)
  unfolding excluded
  excluded-endpoint keeps endpoints cidrs x m =
      keeps _ x (append_left lib.own_excludes (append_left _ m))

  -- Every restricted endpoint is kept out of the filter that is returned: a range of its excludes
  -- covers the endpoint's network with its ports, these as 16-bit numbers. The library network
  -- makes the range of a network and its ports, sorts without loss and condenses to ranges that
  -- cover the condensed ones.
  pub endpoints_excluded :
      (values : Values) (Covers : NetWithPortRange lib.Net → NetWithPortRange lib.Net → Type 0)
      → Combines
      → SortKeeps
      → CondenseCovers Covers
      → (config : Dict values.Value) (endpoints : List RestrictedEndpoint)
      → {f : Filter lib.Net} {messages : Messages}
      → map_to_network_filter lib values config endpoints ≡ ok (f, messages)
      → (e : RestrictedEndpoint) (net : lib.Net) → Memᴰ e endpoints
      → lib.parse_cidr e.cidr ≡ ok net
      → (y : NetWithPortRange lib.Net) × Memᴰ y f.exclude × Covers (endpoint_range e net) y
  unfolding map_to_network_filter
  endpoints_excluded values Covers combines keeps covers config endpoints {f} h e net m parsed =
      let array = λ (key : String). values.to_string_array (lookup key config) in
      let (cidrs, _, h1) = >>=-ok (named_nets lib (array "ip" ++ array "hostname")) _ h in
      let (ranges, _, h2) = >>=-ok (parse_port_ranges lib (array "port")) _ h1 in
      let (restricted, er, h3) = >>=-ok (to_excludes lib endpoints) _ h2 in
      let (exclude_cidrs, _, h4) =
        >>=-ok (named_nets lib (array "excludeIp" ++ array "excludeHostname")) _ h3 in
      let found = to_excludes-mem combines endpoints restricted e net er m parsed in
      let includes = included lib cidrs ranges in
      let excludes = excluded lib restricted exclude_cidrs in
      subst
        (λ (g : Filter lib.Net).
          (y : NetWithPortRange lib.Net) × Memᴰ y g.exclude × Covers (endpoint_range e net) y)
        (ap (λ (p : Filter lib.Net × Messages). p.0) (ok_inj h4))
        (filter_of-covers Covers covers includes excludes (endpoint_range e net)
          (excluded-endpoint keeps restricted exclude_cidrs (endpoint_range e net) found))
