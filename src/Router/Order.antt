-- ===== src/Router/Order.antt =====
-- internal/router/nft.go: `sort.SliceStable` of the rules by priority.
pub mod Laws
use las.Prelude.{List, [], ◌∷◌, int_lt, if◌then◌else◌}
use las.Config.{RouteRule}

-- A rule goes in front of the rules that have its priority or a greater one.
insert_rule : RouteRule → List RouteRule → List RouteRule
insert_rule r [] = r ∷ []
insert_rule r (x ∷ xs) =
    let rest = insert_rule r xs in if int_lt x.priority r.priority then x ∷ rest else r ∷ x ∷ xs

unfoldable pub sort_rules : List RouteRule → List RouteRule
unfolding insert_rule
sort_rules [] = []
sort_rules (r ∷ rs) = insert_rule r (sort_rules rs)
