-- ===== src/Validate.antt =====
-- internal/config/validate.go: `Config.Validate`. The children model the functions that it calls.
pub mod Rules
pub mod Interfaces
pub mod Routing
pub mod Services
pub mod Platform
pub mod Security
pub mod Valid
pub mod Integrity
pub mod Sample
pub mod Run
mod Tests
use las.Prelude.{
  ℤ, pos, int_eq, int_lt, String, not, List, [], ◌∷◌, ◌++◌, map, str_eq, if◌then◌else◌,
}
use las.Errors.{str, int, errorf, wrapf, Check, ◌>>◌, fail_if, wrap, each, each_new}
use las.Names.{validate_cidr}
use las.Config.{Config, current_version, Interface, Tunnel, RouteSet, WanGroup}
use las.Validate.Interfaces.{validate_interface, validate_tunnel}
use las.Validate.Routing.{
  validate_route_set, validate_wan_group, validate_static_route, validate_route_rule,
}
use las.Validate.Platform.{validate_platform}
use las.Validate.Services.{validate_services}
use las.Validate.Security.{validate_security}

-- `if name != "" { knownLinks[name] = struct{}{} }` for each name.
unfoldable pub add_links : List String → List String → List String
add_links known_links [] = known_links
add_links known_links (name ∷ names) =
    add_links (if str_eq name "" then known_links else name ∷ known_links) names

-- The keys of `knownLinks` when `validatePlatform` is called.
unfoldable pub known_links_of : Config → List String
unfolding add_links
known_links_of c =
    let links = map (λ i. i.name) c.interfaces in
    let links = add_links links (map (λ t. t.interface_name) c.tunnels) in
    let links = add_links links (map (λ v. v.name) c.platform.l2.vlans) in
    let links = add_links links (map (λ b. b.name) c.platform.l2.bridges) in
    add_links links (map (λ b. b.name) c.platform.l2.bonds)

-- The fields that the function looks at first.
unfoldable pub validate_host : Config → Check
validate_host c = do
  fail_if (not (int_eq c.version current_version))
      (errorf "unsupported config version %d" (int c.version ∷ []))
  fail_if (str_eq c.ui.listen "") (errorf "ui.listen is required" [])
  fail_if (int_lt c.host.conntrack_max (pos 0)) (errorf "host.conntrackMax must be non-negative" [])
  each c.host.management_cidrs
      λ cidr. wrap (wrapf "host.managementCIDRs %q: %w" (str cidr ∷ [])) (validate_cidr cidr)

-- The function from the route sets on.
unfoldable pub validate_routing : List String → Config → Check
validate_routing known_links c = do
  each_new (λ s. s.id) validate_route_set
      (λ s. errorf "duplicate routing set id %q" (str s.id ∷ [])) [] c.routing.sets
  each_new (λ g. g.id) (validate_wan_group known_links)
      (λ g. errorf "duplicate WAN group id %q" (str g.id ∷ [])) [] c.routing.wan_groups
  each c.routing.static_routes (validate_static_route known_links)
  each c.routing.rules (
      validate_route_rule known_links (map (λ t. t.id) c.tunnels) (map (λ s. s.id) c.routing.sets)
        (map (λ g. g.id) c.routing.wan_groups))

unfoldable pub validate : Config → Check
validate c = do
  validate_host c
  each_new (λ i. i.name) validate_interface (λ i. errorf "duplicate interface %q" (str i.name ∷ []))
      [] c.interfaces
  each_new (λ t. t.id) validate_tunnel (λ t. errorf "duplicate tunnel id %q" (str t.id ∷ [])) []
      c.tunnels
  validate_platform (known_links_of c) c.platform
  validate_routing (known_links_of c) c
  validate_services (known_links_of c) c.services
  validate_security (known_links_of c) c.security
