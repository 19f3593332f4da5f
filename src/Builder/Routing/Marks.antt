-- ===== src/Builder/Routing/Marks.antt =====
-- The marks of the packet filter and of the policy rules.
use las.Prelude.{
  ℤ, pos, String, Bool, true, false, not, ◌||◌, List, [], ◌∷◌, int_eq, int_eq_iff, str_eq, eq_iff,
  ◌≡◌, refl, ap, ◌∙◌, arith, if◌then◌else◌,
}
use las.Config.{RouteRule, Tunnel, WanGroup}
use las.Router.Matches.{rule_mark, tunnel_mark, group_mark}
use las.Builder.Routing.{
  tunnel_route, group_route, resolve_rule_route, resolve_rule_route_with_groups,
}

clash : ¬ (true ≡ false)
clash e = cc

tunnel_route-mark :
    (mark table : ℤ) (target : String) (ts : List Tunnel)
    → (tunnel_route (mark, table) target ts).0
      ≡ (if int_eq mark (pos 0) then tunnel_mark target ts else mark)
unfolding tunnel_route tunnel_mark
tunnel_route-mark mark table target [] = ground (arith, int_eq_iff mark (pos 0))
tunnel_route-mark mark table target (t ∷ ts) =
    ground (arith, tunnel_route-mark mark table target ts)

group_route-mark :
    (mark table : ℤ) (target : String) (gs : List WanGroup)
    → (group_route (mark, table) target gs).0
      ≡ (if int_eq mark (pos 0) then group_mark target gs else mark)
unfolding group_route group_mark
group_route-mark mark table target [] = ground (arith, int_eq_iff mark (pos 0))
group_route-mark mark table target (g ∷ gs) = ground (arith, group_route-mark mark table target gs)

flip :
    (n : ℤ) (a : ℤ)
    → (if int_eq n (pos 0) then a else n) ≡ (if not (int_eq n (pos 0)) then n else a)
flip n a = ground arith

-- The two searches, by the two tests on the type, which exclude one another.
by_type :
    (is_tunnel is_group : Bool) (mark table : ℤ) (target : String) (ts : List Tunnel)
    (gs : List WanGroup)
    → (is_tunnel ≡ true → is_group ≡ false)
    → (if is_group
        then group_route
            (if is_tunnel then tunnel_route (mark, table) target ts else (mark, table))
            target
            gs
        else (if is_tunnel then tunnel_route (mark, table) target ts else (mark, table))).0
      ≡ (if not (int_eq mark (pos 0))
          then mark
          else if is_tunnel
          then tunnel_mark target ts
          else if is_group
          then group_mark target gs
          else pos 0)
by_type true true mark table target ts gs h = absurd (clash (h refl))
by_type true false mark table target ts gs h =
    tunnel_route-mark mark table target ts ∙ flip mark (tunnel_mark target ts)
by_type false true mark table target ts gs h =
    group_route-mark mark table target gs ∙ flip mark (group_mark target gs)
by_type false false mark table target ts gs h = ground (arith, int_eq_iff mark (pos 0))

one_type :
    (type : String)
    → str_eq type "tunnel" ≡ true
    → (str_eq type "wan-group" || str_eq type "load-balance") ≡ false
one_type type h =
    ap (λ (t : String). str_eq t "wan-group" || str_eq t "load-balance")
      ((eq_iff type "tunnel").0 h)

pub resolve_rule_route_with_groups-rule_mark :
    (rule : RouteRule) (tunnels : List Tunnel) (groups : List WanGroup)
    → (resolve_rule_route_with_groups rule tunnels groups).0 ≡ rule_mark rule tunnels groups
unfolding resolve_rule_route_with_groups resolve_rule_route rule_mark
resolve_rule_route_with_groups-rule_mark rule tunnels groups =
    let a = rule.action in
    by_type (str_eq a.type "tunnel") (str_eq a.type "wan-group" || str_eq a.type "load-balance")
      a.mark a.table a.target tunnels groups (one_type a.type)
