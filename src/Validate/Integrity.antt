-- ===== src/Validate/Integrity.antt =====
-- What an accepted configuration refers to by name exists.
use las.Prelude.{
  ◌++◌, String, List, [], ◌∷◌, map, ◌≡◌, ◌≢◌, ◌↔◌, ◌⊎◌, inl, inr, All, All-imp, Any, arith, eq_iff,
  true,
}
use las.Config.{Config, RouteRule, Vlan}
use las.Names.Laws.{IsIdentifier, IsCidr, identifier-ne-empty}
use las.Validate.Platform.{validate_vlan}
use las.Validate.Platform.Valid.{IsVlanId, validate_vlan_iff}
use las.Errors.{Passes}
use las.Validate.Rules.{Listed, iff_trans}
use las.Validate.Routing.Valid.{IsValidRule}
use las.Validate.Valid.{tunnel_ids, route_set_ids, wan_group_ids, validate_iff}
use las.Validate.{add_links, known_links_of, validate}

-- The name is that of an interface, of a tunnel's device, of a VLAN, a bridge or a bond. Only an
-- interface could be nameless.
abbrev pub IsLink : Config → String → Type 0
IsLink c name =
    Any (λ i. i.name ≡ name) c.interfaces
    ⊎ ((name ≢ "")
        × (Any (λ t. t.interface_name ≡ name) c.tunnels
            ⊎ Any (λ v. v.name ≡ name) c.platform.l2.vlans
            ⊎ Any (λ b. b.name ≡ name) c.platform.l2.bridges
            ⊎ Any (λ b. b.name ≡ name) c.platform.l2.bonds))

add_links_iff :
    (links names : List String) (name : String)
    → Listed (add_links links names) name ↔ (Listed links name ⊎ ((name ≢ "") × Listed names name))
unfolding add_links
add_links_iff links [] name = ground arith
add_links_iff links (n ∷ names) name = ground (
  arith,
  eq_iff n "",
  eq_iff name "",
  add_links_iff links names name,
  add_links_iff (n ∷ links) names name,
)

Listed-map {ℓ} :
    {A : Type ℓ} (f : A → String) (xs : List A) (name : String)
    → Listed (map f xs) name ↔ Any (λ x. f x ≡ name) xs
Listed-map f [] name = (λ h. h, λ h. h)
Listed-map f (x ∷ xs) name = ground (arith, Listed-map f xs name)

add_links-map_iff {ℓ} :
    {A : Type ℓ} {P : Type 0} (links : List String) (f : A → String) (xs : List A) (name : String)
    → Listed links name ↔ P
    → Listed (add_links links (map f xs)) name ↔ (P ⊎ ((name ≢ "") × Any (λ x. f x ≡ name) xs))
add_links-map_iff links f xs name h =
    ground (arith, h, add_links_iff links (map f xs) name, Listed-map f xs name)

-- Five ways in the order of the code, and grouped.
group_links :
    (I N T V B O : Type 0)
    → ((((I ⊎ (N × T)) ⊎ (N × V)) ⊎ (N × B)) ⊎ (N × O)) ↔ (I ⊎ (N × (T ⊎ V ⊎ B ⊎ O)))
group_links I N T V B O = (
  elim [
    | inl (inl (inl (inl i))) ↦ inl i
    | inl (inl (inl (inr (n, t)))) ↦ inr (n, inl t)
    | inl (inl (inr (n, v))) ↦ inr (n, inr (inl v))
    | inl (inr (n, b)) ↦ inr (n, inr (inr (inl b)))
    | inr (n, o) ↦ inr (n, inr (inr (inr o)))
  ],
  elim [
    | inl i ↦ inl (inl (inl (inl i)))
    | inr (n, inl t) ↦ inl (inl (inl (inr (n, t))))
    | inr (n, inr (inl v)) ↦ inl (inl (inr (n, v)))
    | inr (n, inr (inr (inl b))) ↦ inl (inr (n, b))
    | inr (n, inr (inr (inr o))) ↦ inr (n, o)
  ],
)

-- The links that the checks know are exactly the declared ones.
pub known_links_of_iff :
    (c : Config) (name : String) → Listed (known_links_of c) name ↔ IsLink c name
unfolding known_links_of
known_links_of_iff c name =
    iff_trans
      (add_links-map_iff _ (λ b. b.name) c.platform.l2.bonds name
        (add_links-map_iff _ (λ b. b.name) c.platform.l2.bridges name
          (add_links-map_iff _ (λ v. v.name) c.platform.l2.vlans name
            (add_links-map_iff _ (λ t. t.interface_name) c.tunnels name
              (Listed-map (λ i. i.name) c.interfaces name)))))
      (group_links _ _ _ _ _ _)

-- What the checks look up for a rule: the interfaces, tunnels and route sets that it matches on, and
-- the target of an action to a tunnel, an interface or a WAN group. The target of another action
-- is not among them.
abbrev pub RuleResolves : Config → RouteRule → Type 0
RuleResolves c rule =
    (rule.match.input_iface ≢ "" → IsLink c rule.match.input_iface)
    × (rule.match.output_iface ≢ "" → IsLink c rule.match.output_iface)
    × All (λ id. Any (λ t. t.id ≡ id) c.tunnels) rule.match.tunnel_ids
    × All (λ id. Any (λ s. s.id ≡ id) c.routing.sets) rule.match.sets
    × (rule.action.type ≡ "tunnel" → Any (λ t. t.id ≡ rule.action.target) c.tunnels)
    × (rule.action.type ≡ "interface" → IsLink c rule.action.target)
    × ((rule.action.type ≡ "wan-group") ⊎ (rule.action.type ≡ "load-balance")
        → Any (λ g. g.id ≡ rule.action.target) c.routing.wan_groups)

rule_resolves :
    (c : Config) (rule : RouteRule)
    → IsValidRule (known_links_of c) (tunnel_ids c) (route_set_ids c) (wan_group_ids c) rule
    → RuleResolves c rule
rule_resolves c rule
      (
        _,
        (
          _,
          ((input, (output, (_, (_, (_, (_, (ids, sets))))))), (_, (tunnel, (link, (group, _))))),
        ),
      ) =
    (
      λ h. (known_links_of_iff c _).0 (input h),
      λ h. (known_links_of_iff c _).0 (output h),
      All-imp _ (λ id. (Listed-map (λ t. t.id) c.tunnels id).0) ids,
      All-imp _ (λ id. (Listed-map (λ s. s.id) c.routing.sets id).0) sets,
      λ h. (Listed-map (λ t. t.id) c.tunnels _).0 (tunnel h),
      λ h. (known_links_of_iff c _).0 (link h),
      λ h. (Listed-map (λ g. g.id) c.routing.wan_groups _).0 (group h),
    )

-- In an accepted configuration the input and output interface, the tunnels and the route sets that
-- a rule matches on are declared, and so is the target of a rule that sends to a tunnel, to an
-- interface or to a WAN group, for failover or for balancing.
pub validate-RuleResolves :
    (c : Config) → Passes (validate c) → All (RuleResolves c) c.routing.rules
validate-RuleResolves c h =
    let (_, (_, (_, (_, ((_, (_, (_, rules))), _))))) = (validate_iff c).0 h in
    All-imp c.routing.rules (rule_resolves c) rules

-- The parts of the configuration, besides the rules, whose links the checks look up.
abbrev pub LinksResolve : Config → Type 0
LinksResolve c =
    All (λ v. IsLink c v.parent) c.platform.l2.vlans
    × All (λ b. All (IsLink c) b.members) c.platform.l2.bridges
    × All (λ b. All (IsLink c) b.members) c.platform.l2.bonds
    × All (λ v. IsLink c v.interface) c.platform.l2.vrrp
    × All (λ v. All (IsLink c) v.interfaces) c.platform.routing.vrfs
    × All (λ p. p.interface ≢ "" → IsLink c p.interface)
        (c.platform.routing.bgp.peers ++ c.platform.routing.bfd.peers)
    × All (λ q. IsLink c q.interface) c.platform.qos.queues
    × All (IsLink c) c.platform.monitor.net_flow.interfaces
    × All (λ g. All (λ m. IsLink c m.interface) g.members) c.routing.wan_groups
    × All (λ r. r.interface ≢ "" → IsLink c r.interface) c.routing.static_routes
    × All (λ f. f.enabled ≡ true → f.input_iface ≢ "" → IsLink c f.input_iface)
        c.security.port_forwards
    × All (λ n. n.enabled ≡ true → All (IsLink c) n.interfaces) c.security.one_to_one_nat
    × All (IsLink c) (c.security.antivirus.interfaces ++ c.security.ips.interfaces)
    × All (IsLink c) (c.security.captive_portal.interfaces ++ c.security.upnp.internal_ifaces)
    × (c.security.upnp.external_iface ≢ "" → IsLink c c.security.upnp.external_iface)
    × All (IsLink c) c.services.dhcp_server.listen
    × All (IsLink c) c.services.dhcp_client.interfaces
    × All (IsLink c) c.services.dns_server.listen
    × All (IsLink c) c.services.ntp_server.listen
    × All (IsLink c) c.services.mpls.interfaces

-- In an accepted configuration every link that a VLAN, bridge, bond, VRRP instance, VRF, BGP or BFD
-- peer, queue, flow export, WAN group, static route, enabled port forward, enabled 1:1 NAT, the
-- antivirus, the intrusion prevention, the captive portal, UPnP, the DHCP server or client, the DNS
-- or NTP server or MPLS names is declared.
pub validate-LinksResolve : (c : Config) → Passes (validate c) → LinksResolve c
validate-LinksResolve c h =
    let link = λ (name : String). (known_links_of_iff c name).0 in
    let links = λ (names : List String). All-imp {Q = IsLink c} names link in
    let (
      _,
      (
        _,
        (
          _,
          (
            (
              (vlans, (bridges, (bonds, vrrps))),
              ((vrfs, (_, (_, (peers, _)))), (queues, ((flows, _), _))),
            ),
            (
              (_, ((groups, _), (routes, _))),
              (
                ((_, (_, (_, (dhcp, (_, dhcp_client))))), ((dns, _), (ntp, (_, (_, (mpls, _)))))),
                (_, (forwards, (nats, (scanned, (_, (_, (_, (portals, upnp)))))))),
              ),
            ),
          ),
        ),
      ),
    ) =
      (validate_iff c).0 h in
    (
      All-imp _ (λ v p. link v.parent p.1.0) vlans,
      All-imp _ (λ b p. links b.members p.1.0) bridges,
      All-imp _ (λ b p. links b.members p.1.1) bonds,
      All-imp _ (λ v p. link v.interface p.1.0) vrrps,
      All-imp _ (λ v p. links v.interfaces p.1.1) vrfs,
      All-imp _ (λ v p given. link v.interface (p.1 given)) peers,
      All-imp _ (λ q p. link q.interface p.1) queues,
      links _ flows,
      All-imp _ (λ g p. All-imp _ (λ m q. link m.interface q.0) p.1.1.1.1.1) groups,
      All-imp _ (λ r p given. link r.interface (p.1.1.1.0 given)) routes,
      All-imp _ (λ f p on given. link f.input_iface ((p.1 on).0 given)) forwards,
      All-imp _ (λ n p on. links n.interfaces (p.1 on).1.1) nats,
      links _ scanned,
      links _ portals,
      λ given. link _ (upnp given),
      links _ dhcp,
      links _ dhcp_client,
      links _ dns,
      links _ ntp,
      links _ mpls,
    )

-- A VLAN that is its own parent passes the checks: a name is known as soon as it is declared.
pub validate_vlan_own_parent :
    (c : Config) (vlan : Vlan)
    → Any (λ v. v.name ≡ vlan.name) c.platform.l2.vlans
    → IsIdentifier vlan.name
    → vlan.parent ≡ vlan.name
    → IsVlanId vlan.id
    → All IsCidr vlan.ips
    → Passes (validate_vlan (known_links_of c) vlan)
validate_vlan_own_parent c vlan declared named own id ips =
    let listed =
      (known_links_of_iff c vlan.parent).1
        (rw own (inr (identifier-ne-empty vlan.name named, inr (inl declared)))) in
    (validate_vlan_iff (known_links_of c) vlan).1 (named, (listed, (id, ips)))
