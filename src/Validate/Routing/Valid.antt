-- ===== src/Validate/Routing/Valid.antt =====
-- What an accepted route set, WAN group, static route and rule look like.
use las.Prelude.{
  ℤ, pos, ◌≤ℤ◌, Between, String, List, [], ◌++◌, ◌≡◌, ◌≢◌, ◌↔◌, ◌⊎◌, All, eq_iff, arith,
}
use las.Errors.{Passes}
use las.Errors.Laws.{each-All_iff}
use las.Names.Laws.{IsIdentifier, IsCidr}
use las.Config.{
  RouteSet, WanMember, WanGroup, StaticRoute, PortRange, RuleMatch, RuleAction, RouteRule,
}
use las.Validate.Rules.{
  Listed, IsIp, ◌and◌, ◌&◌, Passes-fail_if, check_when-true_iff, IsIdentifier-iff, Listed-iff,
  Between-iff, at_least_iff, unless_empty_iff, IsCidr-iff, is_empty-false_iff, link_given_iff,
}
use las.Validate.Interfaces.Valid.{IsFwmark, IsTable}
use las.Validate.Routing.{
  route_set_types, wan_group_modes, action_types, protocols, validate_route_set,
  validate_wan_member, validate_wan_group, validate_static_route, validate_port_range,
  validate_rule_match, validate_rule_action, validate_route_rule,
}

abbrev pub IsValidRouteSet : RouteSet → Type 0
IsValidRouteSet route_set =
    IsIdentifier route_set.id
    and Listed route_set_types route_set.type
    and All IsCidr route_set.cidrs

abbrev pub IsValidWanMember : List String → WanMember → Type 0
IsValidWanMember links member =
    Listed links member.interface
    and ((member.gateway ≡ "") ⊎ IsIp member.gateway)
    and (pos 0 ≤ℤ member.weight)
    and (pos 0 ≤ℤ member.priority)

abbrev pub IsValidWanGroup : List String → WanGroup → Type 0
IsValidWanGroup links group =
    IsIdentifier group.id
    and Listed wan_group_modes group.mode
    and IsFwmark group.mark
    and IsTable group.table
    and (group.members ≢ [])
    and All (IsValidWanMember links) group.members

abbrev pub IsValidStaticRoute : List String → StaticRoute → Type 0
IsValidStaticRoute links route =
    IsCidr route.destination
    and ((route.gateway ≢ "") ⊎ (route.interface ≢ ""))
    and ((route.gateway ≡ "") ⊎ IsIp route.gateway)
    and (route.interface ≢ "" → Listed links route.interface)
    and IsTable route.table
    and (pos 0 ≤ℤ route.metric)

abbrev pub IsPort : ℤ → Type 0
IsPort = Between (pos 1) (pos 65535)

abbrev pub IsValidPortRange : PortRange → Type 0
IsValidPortRange range = IsPort range.from × IsPort range.to × (range.from ≤ℤ range.to)

abbrev pub IsValidMatch : List String → List String → List String → RuleMatch → Type 0
IsValidMatch links tunnels route_sets match =
    (match.input_iface ≢ "" → Listed links match.input_iface)
    and (match.output_iface ≢ "" → Listed links match.output_iface)
    and All IsCidr match.source_cidrs
    and All IsCidr match.destination_cidrs
    and All IsValidPortRange (match.source_ports ++ match.destination_ports)
    and All (Listed protocols) match.protocols
    and All (Listed tunnels) match.tunnel_ids
    and All (Listed route_sets) match.sets

abbrev pub IsValidAction : List String → List String → List String → RuleAction → Type 0
IsValidAction links tunnels wan_groups action =
    Listed action_types action.type
    and (action.type ≡ "tunnel" → Listed tunnels action.target)
    and (action.type ≡ "interface" → Listed links action.target)
    and ((action.type ≡ "wan-group") ⊎ (action.type ≡ "load-balance")
        → Listed wan_groups action.target)
    and IsFwmark action.mark
    and IsTable action.table

abbrev pub IsValidRule : List String → List String → List String → List String → RouteRule → Type 0
IsValidRule links tunnels route_sets wan_groups rule =
    IsIdentifier rule.id
    and Between (pos 1) (pos 32765) rule.priority
    and IsValidMatch links tunnels route_sets rule.match
    and IsValidAction links tunnels wan_groups rule.action

pub validate_route_set_iff :
    (route_set : RouteSet) → Passes (validate_route_set route_set) ↔ IsValidRouteSet route_set
unfolding validate_route_set
validate_route_set_iff route_set =
    IsIdentifier-iff _ route_set.id
    & Listed-iff _ route_set_types route_set.type
    & each-All_iff route_set.cidrs _ (λ cidr. IsCidr-iff _ cidr)

module _ (links : List String) where
  validate_wan_member_iff :
      (group : WanGroup) (member : WanMember)
      → Passes (validate_wan_member group links member) ↔ IsValidWanMember links member
  unfolding validate_wan_member
  validate_wan_member_iff group member =
      Listed-iff _ links member.interface
      & unless_empty_iff _ member.gateway _ (λ h. h, λ h. h)
      & at_least_iff _ (pos 0) member.weight
      & at_least_iff _ (pos 0) member.priority

  pub validate_wan_group_iff :
      (group : WanGroup) → Passes (validate_wan_group links group) ↔ IsValidWanGroup links group
  unfolding validate_wan_group
  validate_wan_group_iff group =
      IsIdentifier-iff _ group.id
      & Listed-iff _ wan_group_modes group.mode
      & Between-iff _ (pos 0) (pos 0xfffffff) group.mark
      & Between-iff _ (pos 0) (pos 252) group.table
      & Passes-fail_if _ _ (is_empty-false_iff group.members)
      & each-All_iff group.members _ (validate_wan_member_iff group)

  pub validate_static_route_iff :
      (route : StaticRoute)
      → Passes (validate_static_route links route) ↔ IsValidStaticRoute links route
  unfolding validate_static_route
  validate_static_route_iff route =
      IsCidr-iff _ route.destination
      & Passes-fail_if _ _ (ground (arith, eq_iff route.gateway "", eq_iff route.interface ""))
      & unless_empty_iff _ route.gateway _ (λ h. h, λ h. h)
      & link_given_iff _ links route.interface
      & Between-iff _ (pos 0) (pos 252) route.table
      & at_least_iff _ (pos 0) route.metric

validate_port_range_iff :
    (rule : RouteRule) (range : PortRange)
    → Passes (validate_port_range rule range) ↔ IsValidPortRange range
unfolding validate_port_range
validate_port_range_iff rule range = Passes-fail_if _ _ (ground arith)

module _ (links tunnels route_sets wan_groups : List String) (rule : RouteRule) where
  validate_rule_match_iff :
      Passes (validate_rule_match links tunnels route_sets rule)
      ↔ IsValidMatch links tunnels route_sets rule.match
  unfolding validate_rule_match
  validate_rule_match_iff =
      link_given_iff _ links rule.match.input_iface
      & link_given_iff _ links rule.match.output_iface
      & each-All_iff rule.match.source_cidrs _ (λ cidr. IsCidr-iff _ cidr)
      & each-All_iff rule.match.destination_cidrs _ (λ cidr. IsCidr-iff _ cidr)
      & each-All_iff (rule.match.source_ports ++ rule.match.destination_ports) _
          (validate_port_range_iff rule)
      & each-All_iff rule.match.protocols _ (λ proto. Listed-iff _ protocols proto)
      & each-All_iff rule.match.tunnel_ids _ (λ tunnel_id. Listed-iff _ tunnels tunnel_id)
      & each-All_iff rule.match.sets _ (λ set_id. Listed-iff _ route_sets set_id)

  validate_rule_action_iff :
      Passes (validate_rule_action links tunnels wan_groups rule)
      ↔ IsValidAction links tunnels wan_groups rule.action
  unfolding validate_rule_action
  validate_rule_action_iff =
      let kind = rule.action.type in
      Listed-iff _ action_types kind
      & check_when-true_iff _ _ (eq_iff kind "tunnel") (Listed-iff _ tunnels rule.action.target)
      & check_when-true_iff _ _ (eq_iff kind "interface") (Listed-iff _ links rule.action.target)
      & check_when-true_iff _ _
          (ground (arith, eq_iff kind "wan-group", eq_iff kind "load-balance"))
          (Listed-iff _ wan_groups rule.action.target)
      & Between-iff _ (pos 0) (pos 0xfffffff) rule.action.mark
      & Between-iff _ (pos 0) (pos 252) rule.action.table

  pub validate_route_rule_iff :
      Passes (validate_route_rule links tunnels route_sets wan_groups rule)
      ↔ IsValidRule links tunnels route_sets wan_groups rule
  unfolding validate_route_rule
  validate_route_rule_iff =
      IsIdentifier-iff _ rule.id
      & Between-iff _ (pos 1) (pos 32765) rule.priority
      & validate_rule_match_iff
      & validate_rule_action_iff
