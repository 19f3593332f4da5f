-- ===== src/Builder/Routing.antt =====
-- internal/router/builder.go: `addRoutingPlan`, with the routes of WAN groups and the policy rules.
pub mod Marks
pub mod Present
use las.Prelude.{ℤ, pos, String, ◌||◌, List, [], ◌∷◌, ◌++◌, str_eq, ◌<>◌, if◌then◌else◌}
use las.Errors.{str, int}
use las.Fmt.{sprintf, itoa}
use las.Config.{Config, RouteRule, StaticRoute, Tunnel, WanGroup, WanMember}
use las.Router.Order.{sort_rules}
use las.Builder.Trace.{
  Calls, command, warning, only_if, one, for_each, has_text, is_positive, is_zero, or_number,
}

-- The mark and the table of the first tunnel with the identifier, where the rule has none.
unfoldable pub tunnel_route : ℤ × ℤ → String → List Tunnel → ℤ × ℤ
tunnel_route (mark, table) target [] = (mark, table)
tunnel_route (mark, table) target (t ∷ ts) =
    let more = tunnel_route (mark, table) target ts in
    if str_eq t.id target then (or_number mark t.mark, or_number table t.table) else more

unfoldable pub group_route : ℤ × ℤ → String → List WanGroup → ℤ × ℤ
group_route (mark, table) target [] = (mark, table)
group_route (mark, table) target (g ∷ gs) =
    let more = group_route (mark, table) target gs in
    if str_eq g.id target then (or_number mark g.mark, or_number table g.table) else more

unfoldable pub resolve_rule_route : RouteRule → List Tunnel → ℤ × ℤ
unfolding tunnel_route
resolve_rule_route rule tunnels =
    let own : ℤ × ℤ = (rule.action.mark, rule.action.table) in
    if str_eq rule.action.type "tunnel" then tunnel_route own rule.action.target tunnels else own

unfoldable pub resolve_rule_route_with_groups : RouteRule → List Tunnel → List WanGroup → ℤ × ℤ
unfolding group_route
resolve_rule_route_with_groups rule tunnels groups =
    let route = resolve_rule_route rule tunnels in
    if str_eq rule.action.type "wan-group" || str_eq rule.action.type "load-balance"
    then group_route route rule.action.target groups
    else route

nexthop : WanMember → List String
nexthop m =
    "nexthop"
    ∷ (only_if (has_text m.gateway) ("via" ∷ m.gateway ∷ [])
        ++ "dev" ∷ m.interface ∷ only_if (is_positive m.weight) ("weight" ∷ itoa m.weight ∷ []))

failover_member : WanGroup → WanMember → Calls
failover_member group m =
    let metric = itoa (or_number m.priority (pos 100)) in
    one (
      command ("install failover WAN member " <> group.id <> "/" <> m.interface) "ip" (
        "route"
        ∷ "replace"
        ∷ "default"
        ∷ "table"
        ∷ itoa group.table
        ∷ (only_if (has_text m.gateway) ("via" ∷ m.gateway ∷ [])
            ++ "dev" ∷ m.interface ∷ "metric" ∷ metric ∷ [])))

unfoldable pub add_wan_group_plan : WanGroup → Calls
unfolding nexthop failover_member
add_wan_group_plan group =
    if is_zero group.table
    then one (
        warning
          "WAN group %s is enabled without table; it can be edited but cannot install a routing table"
          (str group.id ∷ []))
    else if str_eq group.mode "weighted-ecmp"
    then one (
        command ("install weighted WAN group " <> group.id) "ip" (
          "route"
          ∷ "replace"
          ∷ "default"
          ∷ "table"
          ∷ itoa group.table
          ∷ for_each group.members nexthop))
    else for_each group.members (failover_member group)

static_route_plan : StaticRoute → Calls
static_route_plan route = one (
    command ("add static route " <> route.destination) "ip" (
      "route"
      ∷ "replace"
      ∷ route.destination
      ∷ (only_if (has_text route.gateway) ("via" ∷ route.gateway ∷ [])
          ++ only_if (has_text route.interface) ("dev" ∷ route.interface ∷ [])
          ++ only_if (is_positive route.table) ("table" ∷ itoa route.table ∷ [])
          ++ only_if (is_positive route.metric) ("metric" ∷ itoa route.metric ∷ []))))

-- The command that installs a policy rule.
abbrev pub policy_command : RouteRule → ℤ × ℤ → String
policy_command rule (mark, table) =
    sprintf
      "ip rule del priority %d 2>/dev/null || true; ip rule add priority %d fwmark %d table %d"
      (int rule.priority ∷ int rule.priority ∷ int mark ∷ int table ∷ [])

pub policy_rule : RouteRule → ℤ × ℤ → Calls
policy_rule rule (mark, table) =
    if is_zero mark || is_zero table
    then []
    else one (
        command ("install policy rule " <> rule.id) "sh"
          ("-c" ∷ policy_command rule (mark, table) ∷ []))

unfoldable pub policy_rules : Config → Calls
unfolding policy_rule
policy_rules c = for_each (sort_rules c.routing.rules) λ rule.
    only_if rule.enabled
      (policy_rule rule (resolve_rule_route_with_groups rule c.tunnels c.routing.wan_groups))

unfoldable pub add_routing_plan : Config → Calls
unfolding static_route_plan
add_routing_plan c =
    for_each c.routing.wan_groups (λ group. only_if group.enabled (add_wan_group_plan group))
    ++ for_each c.routing.static_routes static_route_plan
    ++ policy_rules c
