-- ===== src/Builder/Routing/Present.antt =====
-- The policy rules of a plan: none is missing.
use mathlib.Core.Path.{subst}
use las.Builder.Trace.{only_if, Call, Calls, command, for_each}
use las.Prelude.{
  ◌++◌, Any-left, Any-right, Bool, true, ℤ, pos, int_eq, int_eq_iff, String, Bool, true, false,
  List, [], ◌∷◌, ◌<>◌, Any, Any-left, Any-right, inl, inr, ◌≡◌, ◌≢◌, refl, sym, arith,
}
use las.Builder.Host.{add_host_plan, add_interface_plan}
use las.Builder.Certificates.{add_certificate_store_plan}
use las.Builder.Tunnels.{add_tunnel_plan}
use las.Builder.Services.{add_services_plan}
use las.Builder.Platform.{add_platform_plan}
use las.Builder.Security.{add_security_plan}
use las.Builder.{nft_calls, system_calls, plan_calls}
use las.Builder.Routing.{
  add_wan_group_plan, static_route_plan, add_routing_plan, resolve_rule_route_with_groups,
  policy_command, policy_rule, policy_rules,
}
use las.Config.{Config, RouteRule}
use las.Router.Matches.{rule_mark}
use las.Router.Order.Laws.{sort_rules-Any}
use las.Builder.Routing.Marks.{resolve_rule_route_with_groups-rule_mark}

pub for_each-Any :
    {A : Type 0} (P : Call → Type 0) (f : A → Calls) (x : A) (xs : List A)
    → Any (λ y. y ≡ x) xs
    → Any P (f x)
    → Any P (for_each xs f)
unfolding for_each
for_each-Any P f x [] k h = absurd k
for_each-Any P f x (y ∷ ys) (inl e) h =
    Any-left P (f y) (for_each ys f) (subst (λ z. Any P (f z)) (sym e) h)
for_each-Any P f x (y ∷ ys) (inr k) h =
    Any-right P (f y) (for_each ys f) (for_each-Any P f x ys k h)

int_eq-false : (n : ℤ) → n ≢ pos 0 → int_eq n (pos 0) ≡ false
int_eq-false n h = ground (arith, int_eq_iff n (pos 0), h)

-- The command that installs the policy rule of a rule, for a mark and a table.
abbrev pub install : RouteRule → ℤ → ℤ → Call
install rule mark table =
    command ("install policy rule " <> rule.id) "sh" ("-c" ∷ policy_command rule (mark, table) ∷ [])

policy_rule-Any :
    (rule : RouteRule) (route : ℤ × ℤ)
    → route.0 ≢ pos 0
    → route.1 ≢ pos 0
    → Any (λ call. call ≡ install rule route.0 route.1) (policy_rule rule route)
unfolding policy_rule
policy_rule-Any rule (mark, table) m t = rw (int_eq-false mark m, int_eq-false table t) (inl refl)

only_if-Any :
    (P : Call → Type 0) (b : Bool) (calls : Calls)
    → b ≡ true
    → Any P calls
    → Any P (only_if b calls)
unfolding only_if
only_if-Any P b calls h k = rw h k

policy_rules-Any :
    (c : Config) (rule : RouteRule)
    → let route = resolve_rule_route_with_groups rule c.tunnels c.routing.wan_groups in
      Any (λ r. r ≡ rule) c.routing.rules
      → rule.enabled ≡ true
      → route.0 ≢ pos 0
      → route.1 ≢ pos 0
      → Any (λ call. call ≡ install rule route.0 route.1) (policy_rules c)
unfolding policy_rules
policy_rules-Any c rule member on m t =
    for_each-Any _ _ rule _ (sort_rules-Any _ _ member)
      (only_if-Any _ rule.enabled _ on (policy_rule-Any rule _ m t))

add_routing_plan-Any :
    (P : Call → Type 0) (c : Config) → Any P (policy_rules c) → Any P (add_routing_plan c)
unfolding add_routing_plan
add_routing_plan-Any P c h =
    Any-right P
      (for_each c.routing.wan_groups (λ group. only_if group.enabled (add_wan_group_plan group))
        ++ for_each c.routing.static_routes static_route_plan)
      (policy_rules c) h

plan_calls-Any :
    (P : Call → Type 0) (order : List String → List String) (c : Config)
    → Any P (add_routing_plan c)
    → Any P (plan_calls order c)
unfolding plan_calls system_calls
plan_calls-Any P order c h =
    let before =
      add_host_plan c
      ++ add_interface_plan c.interfaces
      ++ add_certificate_store_plan order c.services.certificate_store
      ++ add_tunnel_plan c.tunnels in
    let routed = before ++ add_routing_plan c in
    let served = routed ++ add_services_plan c in
    let platform = served ++ add_platform_plan c in
    Any-left P (system_calls order c) (nft_calls c) (
      Any-left P platform (add_security_plan c) (
        Any-left P served (add_platform_plan c)
          (Any-left P routed (add_services_plan c) (Any-right P before (add_routing_plan c) h))))

-- For every enabled rule to which the packet filter gives a mark, and which has a table, a plan has
-- the command that sends the packets with that mark to that table.
pub plan_calls-policy_rules :
    (order : List String → List String) (c : Config) (rule : RouteRule)
    → Any (λ r. r ≡ rule) c.routing.rules
    → rule.enabled ≡ true
    → rule_mark rule c.tunnels c.routing.wan_groups ≢ pos 0
    → (resolve_rule_route_with_groups rule c.tunnels c.routing.wan_groups).1 ≢ pos 0
    → Any
        (λ call.
          call
          ≡ install rule
              (rule_mark rule c.tunnels c.routing.wan_groups)
              (resolve_rule_route_with_groups rule c.tunnels c.routing.wan_groups).1)
        (plan_calls order c)
plan_calls-policy_rules order c rule member on m t =
    let marks = resolve_rule_route_with_groups-rule_mark rule c.tunnels c.routing.wan_groups in
    subst
      (λ mark.
        mark ≢ pos 0
        → Any
            (λ call.
              call
              ≡ install rule mark
                  (resolve_rule_route_with_groups rule c.tunnels c.routing.wan_groups).1)
            (plan_calls order c))
      marks
      (λ n.
        plan_calls-Any _ order c (add_routing_plan-Any _ c (policy_rules-Any c rule member on n t)))
      m
