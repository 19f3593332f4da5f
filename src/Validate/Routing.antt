-- ===== src/Validate/Routing.antt =====
-- internal/config/validate.go: `validateRouteSet`, `validateWANGroup`, `validateStaticRoute` and
-- `validateRouteRule`. A map that is only asked whether it holds a key is the list of its keys.
pub mod Valid
use las.Prelude.{
  ℤ, pos, int_lt, String, not, ◌&&◌, ◌||◌, List, [], ◌∷◌, ◌++◌, contains, is_empty, str_eq,
}
use las.Errors.{str, int, errorf, wrapf, Check, ok, ◌>>◌, fail_if, wrap, check_when, each}
use las.Names.{is_identifier, validate_cidr, is_ip}
use las.Config.{RouteSet, WanMember, WanGroup, StaticRoute, PortRange, RouteRule}

abbrev pub route_set_types : List String
route_set_types = "country" ∷ "application" ∷ "service" ∷ "custom" ∷ []

abbrev pub wan_group_modes : List String
wan_group_modes = "weighted-ecmp" ∷ "failover" ∷ "active-backup" ∷ []

abbrev pub action_types : List String
action_types =
    "direct" ∷ "interface" ∷ "tunnel" ∷ "wan-group" ∷ "load-balance" ∷ "blackhole" ∷ "reject"
    ∷ "scan" ∷ "mirror" ∷ []

abbrev pub protocols : List String
protocols = "tcp" ∷ "udp" ∷ "icmp" ∷ "icmpv6" ∷ "gre" ∷ "esp" ∷ "ah" ∷ []

unfoldable pub validate_route_set : RouteSet → Check
validate_route_set route_set = do
  fail_if (not (is_identifier route_set.id))
      (errorf "invalid route set id %q" (str route_set.id ∷ []))
  fail_if (not (contains route_set_types route_set.type))
      (errorf "route set %s has unsupported type %q" (str route_set.id ∷ str route_set.type ∷ []))
  each route_set.cidrs λ cidr.
      wrap (wrapf "route set %s cidr %q: %w" (str route_set.id ∷ str cidr ∷ []))
        (validate_cidr cidr)

unfoldable pub validate_wan_member : WanGroup → List String → WanMember → Check
validate_wan_member group known_links member = do
  fail_if (not (contains known_links member.interface))
      (errorf "WAN group %s references unknown link %q" (str group.id ∷ str member.interface ∷ []))
  fail_if (not (str_eq member.gateway "") && not (is_ip member.gateway)) (
      errorf "WAN group %s gateway %q is not an IP address"
        (str group.id ∷ str member.gateway ∷ []))
  fail_if (int_lt member.weight (pos 0)) (
      errorf "WAN group %s member %s weight must be non-negative"
        (str group.id ∷ str member.interface ∷ []))
  fail_if (int_lt member.priority (pos 0)) (
      errorf "WAN group %s member %s priority must be non-negative"
        (str group.id ∷ str member.interface ∷ []))

unfoldable pub validate_wan_group : List String → WanGroup → Check
validate_wan_group known_links group = do
  fail_if (not (is_identifier group.id)) (errorf "invalid WAN group id %q" (str group.id ∷ []))
  fail_if (not (contains wan_group_modes group.mode))
      (errorf "WAN group %s has unsupported mode %q" (str group.id ∷ str group.mode ∷ []))
  fail_if (int_lt group.mark (pos 0) || int_lt (pos 0xfffffff) group.mark)
      (errorf "WAN group %s mark must fit in a Linux fwmark" (str group.id ∷ []))
  fail_if (int_lt group.table (pos 0) || int_lt (pos 252) group.table)
      (errorf "WAN group %s table must be 0-252" (str group.id ∷ []))
  fail_if (is_empty group.members)
      (errorf "WAN group %s requires at least one member" (str group.id ∷ []))
  each group.members (validate_wan_member group known_links)

unfoldable pub validate_static_route : List String → StaticRoute → Check
validate_static_route known_links route = do
  wrap (wrapf "static route destination %q: %w" (str route.destination ∷ []))
      (validate_cidr route.destination)
  fail_if (str_eq route.gateway "" && str_eq route.interface "")
      (errorf "static route %s requires gateway or interface" (str route.destination ∷ []))
  fail_if (not (str_eq route.gateway "") && not (is_ip route.gateway))
      (errorf "static route gateway %q is not an IP address" (str route.gateway ∷ []))
  check_when (not (str_eq route.interface "")) (
      fail_if (not (contains known_links route.interface))
        (errorf "static route references unknown link %q" (str route.interface ∷ [])))
  fail_if (int_lt route.table (pos 0) || int_lt (pos 252) route.table)
      (errorf "static route %s table must be 0-252" (str route.destination ∷ []))
  fail_if (int_lt route.metric (pos 0))
      (errorf "static route %s metric must be non-negative" (str route.destination ∷ []))

unfoldable pub validate_port_range : RouteRule → PortRange → Check
validate_port_range rule range =
    fail_if
      (int_lt range.from (pos 1)
        || int_lt (pos 65535) range.from
        || int_lt range.to (pos 1)
        || int_lt (pos 65535) range.to
        || int_lt range.to range.from)
      (errorf "rule %s has invalid port range %d-%d"
        (str rule.id ∷ int range.from ∷ int range.to ∷ []))

-- The fields of `rule.Match`.
unfoldable pub validate_rule_match : List String → List String → List String → RouteRule → Check
validate_rule_match known_links tunnels route_sets rule = do
  check_when (not (str_eq rule.match.input_iface "")) (
      fail_if (not (contains known_links rule.match.input_iface)) (
        errorf "rule %s references unknown input link %q"
          (str rule.id ∷ str rule.match.input_iface ∷ [])))
  check_when (not (str_eq rule.match.output_iface "")) (
      fail_if (not (contains known_links rule.match.output_iface)) (
        errorf "rule %s references unknown output link %q"
          (str rule.id ∷ str rule.match.output_iface ∷ [])))
  each rule.match.source_cidrs λ cidr.
      wrap (wrapf "rule %s source cidr %q: %w" (str rule.id ∷ str cidr ∷ [])) (validate_cidr cidr)
  each rule.match.destination_cidrs λ cidr.
      wrap (wrapf "rule %s destination cidr %q: %w" (str rule.id ∷ str cidr ∷ []))
        (validate_cidr cidr)
  each (rule.match.source_ports ++ rule.match.destination_ports) (validate_port_range rule)
  each rule.match.protocols λ proto.
      fail_if (not (contains protocols proto))
        (errorf "rule %s has unsupported protocol %q" (str rule.id ∷ str proto ∷ []))
  each rule.match.tunnel_ids λ tunnel_id.
      fail_if (not (contains tunnels tunnel_id))
        (errorf "rule %s references unknown match tunnel %q" (str rule.id ∷ str tunnel_id ∷ []))
  each rule.match.sets λ set_id.
      fail_if (not (contains route_sets set_id))
        (errorf "rule %s references unknown route set %q" (str rule.id ∷ str set_id ∷ []))

-- The fields of `rule.Action`.
unfoldable pub validate_rule_action : List String → List String → List String → RouteRule → Check
validate_rule_action known_links tunnels wan_groups rule = do
  fail_if (not (contains action_types rule.action.type))
      (errorf "rule %s has unsupported action %q" (str rule.id ∷ str rule.action.type ∷ []))
  check_when (str_eq rule.action.type "tunnel") (
      fail_if (not (contains tunnels rule.action.target))
        (errorf "rule %s targets unknown tunnel %q" (str rule.id ∷ str rule.action.target ∷ [])))
  check_when (str_eq rule.action.type "interface") (
      fail_if (not (contains known_links rule.action.target))
        (errorf "rule %s targets unknown link %q" (str rule.id ∷ str rule.action.target ∷ [])))
  check_when (str_eq rule.action.type "wan-group" || str_eq rule.action.type "load-balance") (
      fail_if (not (contains wan_groups rule.action.target))
        (errorf "rule %s targets unknown WAN group %q" (str rule.id ∷ str rule.action.target ∷ [])))
  fail_if (int_lt rule.action.mark (pos 0) || int_lt (pos 0xfffffff) rule.action.mark)
      (errorf "rule %s action mark must fit in a Linux fwmark" (str rule.id ∷ []))
  fail_if (int_lt rule.action.table (pos 0) || int_lt (pos 252) rule.action.table)
      (errorf "rule %s action table must be 0-252" (str rule.id ∷ []))

unfoldable pub validate_route_rule :
    List String → List String → List String → List String → RouteRule → Check
validate_route_rule known_links tunnels route_sets wan_groups rule = do
  fail_if (not (is_identifier rule.id)) (errorf "invalid rule id %q" (str rule.id ∷ []))
  fail_if (int_lt rule.priority (pos 1) || int_lt (pos 32765) rule.priority)
      (errorf "rule %s priority must be 1-32765" (str rule.id ∷ []))
  validate_rule_match known_links tunnels route_sets rule
  validate_rule_action known_links tunnels wan_groups rule
