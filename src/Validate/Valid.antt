-- ===== src/Validate/Valid.antt =====
-- The configurations that `Config.Validate` accepts.
use las.Prelude.{pos, ◌≤ℤ◌, String, List, map, ◌≡◌, ◌≢◌, ◌↔◌, All, Distinct, arith}
use las.Errors.{Passes}
use las.Errors.Laws.{each-All_iff, each_new_iff}
use las.Names.Laws.{IsCidr}
use las.Config.{Config, current_version}
use las.Validate.Rules.{◌and◌, ◌&◌, Passes-fail_if, given_iff, at_least_iff, IsCidr-iff}
use las.Validate.Interfaces.Valid.{
  IsValidInterface, IsValidTunnel, validate_interface_iff, validate_tunnel_iff,
}
use las.Validate.Routing.Valid.{
  IsValidRouteSet, IsValidWanGroup, IsValidStaticRoute, IsValidRule, validate_route_set_iff,
  validate_wan_group_iff, validate_static_route_iff, validate_route_rule_iff,
}
use las.Validate.Services.Valid.{IsValidServices, validate_services_iff}
use las.Validate.Platform.Valid.{IsValidPlatform, validate_platform_iff}
use las.Validate.Security.Valid.{IsValidSecurity, validate_security_iff}
use las.Validate.{known_links_of, validate_host, validate_routing, validate}

abbrev pub interface_names : Config → List String
interface_names c = map (λ i. i.name) c.interfaces

abbrev pub tunnel_ids : Config → List String
tunnel_ids c = map (λ t. t.id) c.tunnels

abbrev pub route_set_ids : Config → List String
route_set_ids c = map (λ s. s.id) c.routing.sets

abbrev pub wan_group_ids : Config → List String
wan_group_ids c = map (λ g. g.id) c.routing.wan_groups

abbrev pub IsValidHost : Config → Type 0
IsValidHost c =
    (c.version ≡ current_version)
    and (c.ui.listen ≢ "")
    and (pos 0 ≤ℤ c.host.conntrack_max)
    and All IsCidr c.host.management_cidrs

abbrev pub IsValidRouting : List String → Config → Type 0
IsValidRouting links c =
    (All IsValidRouteSet c.routing.sets × Distinct (route_set_ids c))
    and (All (IsValidWanGroup links) c.routing.wan_groups × Distinct (wan_group_ids c))
    and All (IsValidStaticRoute links) c.routing.static_routes
    and All (IsValidRule links (tunnel_ids c) (route_set_ids c) (wan_group_ids c)) c.routing.rules

-- Every part is well formed, and what a part refers to by name is declared in the configuration.
abbrev pub IsValidConfig : Config → Type 0
IsValidConfig c =
    IsValidHost c
    and (All IsValidInterface c.interfaces × Distinct (interface_names c))
    and (All IsValidTunnel c.tunnels × Distinct (tunnel_ids c))
    and IsValidPlatform (known_links_of c) c.platform
    and IsValidRouting (known_links_of c) c
    and IsValidServices (known_links_of c) c.services
    and IsValidSecurity (known_links_of c) c.security

validate_host_iff : (c : Config) → Passes (validate_host c) ↔ IsValidHost c
unfolding validate_host
validate_host_iff c =
    Passes-fail_if _ _ (ground arith)
    & given_iff _ c.ui.listen
    & at_least_iff _ (pos 0) c.host.conntrack_max
    & each-All_iff c.host.management_cidrs _ (λ cidr. IsCidr-iff _ cidr)

validate_routing_iff :
    (links : List String) (c : Config) → Passes (validate_routing links c) ↔ IsValidRouting links c
unfolding validate_routing
validate_routing_iff links c =
    each_new_iff (λ s. s.id) _ _ validate_route_set_iff c.routing.sets
    & each_new_iff (λ g. g.id) _ _ (validate_wan_group_iff links) c.routing.wan_groups
    & each-All_iff c.routing.static_routes _ (validate_static_route_iff links)
    & each-All_iff c.routing.rules _
        (validate_route_rule_iff links (tunnel_ids c) (route_set_ids c) (wan_group_ids c))

-- `Validate` returns no error exactly for the configurations that are valid.
pub validate_iff : (c : Config) → Passes (validate c) ↔ IsValidConfig c
unfolding validate
validate_iff c =
    validate_host_iff c
    & each_new_iff (λ i. i.name) _ _ validate_interface_iff c.interfaces
    & each_new_iff (λ t. t.id) _ _ validate_tunnel_iff c.tunnels
    & validate_platform_iff (known_links_of c) c.platform
    & validate_routing_iff (known_links_of c) c
    & validate_services_iff (known_links_of c) c.services
    & validate_security_iff (known_links_of c) c.security
