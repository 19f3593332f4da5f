-- ===== src/Router/Chains/Order.antt =====
-- The order of the rules in the two chains that are made from them.
use las.Prelude.{ℤ, Bool, List, [], ◌∷◌, ◌≡◌, if◌then◌else◌}
use las.Config.{Config, RouteRule}
use las.Router.Matches.{Out, ◌⊕◌, out_each}
use las.Router.Order.Laws.{IsSorted, with_priority}
use las.Router.Chains.{rule_text}

-- The rules that a chain takes.
unfoldable pub taken : (RouteRule → Bool) → List RouteRule → List RouteRule
taken takes [] = []
taken takes (r ∷ rs) = let rest = taken takes rs in if takes r then r ∷ rest else rest

-- The rules of a chain: those of the configuration that it takes, by rising priority, and those of
-- one priority in the order of the configuration.
abbrev pub AreInOrder : (RouteRule → Bool) → List RouteRule → List RouteRule → Type 0
AreInOrder takes rules rs =
    IsSorted rs × ((p : ℤ) → with_priority p rs ≡ taken takes (with_priority p rules))

-- A part of the text is that of the rules of the chain, one behind the other.
abbrev pub HoldsRules : (RouteRule → Bool) → Config → Out → Type 0
HoldsRules takes c chain =
    (before : Out) × (rs : List RouteRule) × (behind : Out) × AreInOrder takes c.routing.rules rs
    × (chain ≡ before ⊕ out_each rs (rule_text c) ⊕ behind)
