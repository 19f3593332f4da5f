-- ===== src/Router/Matches/Laws.antt =====
-- What the match expressions of a rule say.
use las.Prelude.{
  join, String, false, Option, none, some, List, [], ◌∷◌, All, All-imp, ◌≡◌, ◌≢◌, refl, ◌⊎◌, inl,
  inr, str_eq, eq_iff, Bool-cases, if◌then◌else◌,
}
use las.Config.{RouteRule, RouteSet, RuleMatch}
use las.Router.Cidrs.{split_cidrs, combine_cidrs}
use las.Router.Matches.{
  Out, out_each, find_set, set_matches, ports_of, port_part, nft_port_expressions,
  nft_route_set_expressions, nft_match_expressions, base_parts, combinations,
}

-- No enabled route set of the list has the identifier.
abbrev pub IsUnused : List RouteSet → String → Type 0
IsUnused sets id = All (λ s. (s.id ≢ id) ⊎ (s.enabled ≡ false)) sets

abbrev IsGone : Option RouteSet → Type 0
IsGone none = Unit
IsGone (some s) = s.enabled ≡ false

pick :
    (s : RouteSet) (id : String) (o : Option RouteSet)
    → (s.id ≢ id) ⊎ (s.enabled ≡ false)
    → IsGone o
    → IsGone (elim o [ some t ↦ some t | none ↦ if str_eq s.id id then some s else none ])
pick s id (some t) h g = g
pick s id none h g = elim (Bool-cases (str_eq s.id id)) [
  | inl e ↦ rw e (elim h [ inl n ↦ absurd (n ((eq_iff s.id id).0 e)) | inr off ↦ off ])
  | inr e ↦ rw e tt
]

find_set-IsGone :
    (sets : List RouteSet) (id : String) → IsUnused sets id → IsGone (find_set sets id)
unfolding find_set
find_set-IsGone [] id h = tt
find_set-IsGone (s ∷ sets) id (h, hs) = pick s id (find_set sets id) h (find_set-IsGone sets id hs)

set_matches-IsGone :
    (rule : RouteRule) (id : String) (o : Option RouteSet)
    → IsGone o
    → set_matches rule id o ≡ ([], [])
unfolding set_matches
set_matches-IsGone rule id none h = refl
set_matches-IsGone rule id (some s) h = rw h

out_each-nothing :
    {A : Type 0} (xs : List A) (f : A → Out)
    → All (λ x. f x ≡ ([], [])) xs
    → out_each xs f ≡ ([], [])
unfolding out_each
out_each-nothing [] f h = refl
out_each-nothing (x ∷ xs) f (h, hs) = rw (h, out_each-nothing xs f hs)

-- The rule has no criterion but route sets, domains and the like.
abbrev pub HasNoStaticMatch : RuleMatch → Type 0
HasNoStaticMatch m =
    (m.input_iface ≡ "")
    × (m.output_iface ≡ "")
    × (m.protocols ≡ [])
    × (m.source_cidrs ≡ [])
    × (m.destination_cidrs ≡ [])
    × (m.source_ports ≡ [])
    × (m.destination_ports ≡ [])

route_sets-IsUnused :
    (rule : RouteRule) (sets : List RouteSet)
    → All (IsUnused sets) rule.match.sets
    → (nft_route_set_expressions rule sets).0 ≡ []
unfolding nft_route_set_expressions
route_sets-IsUnused rule sets h =
    let none_left =
      out_each-nothing rule.match.sets (λ id. set_matches rule id (find_set sets id))
        (All-imp rule.match.sets
          (λ id u. set_matches-IsGone rule id (find_set sets id) (find_set-IsGone sets id u)) h) in
    rw none_left

ports-none : (rule : RouteRule) → HasNoStaticMatch rule.match → (nft_port_expressions rule).0 ≡ []
unfolding nft_port_expressions ports_of port_part out_each
ports-none rule (i, o, p, s, d, sp, dp) = rw (p, sp, dp)

base-none : (rule : RouteRule) → HasNoStaticMatch rule.match → base_parts rule ≡ []
unfolding base_parts
base-none rule (i, o, p, s, d, sp, dp) = rw (i, o, p)

no_cidrs :
    combine_cidrs (split_cidrs []).0 (split_cidrs []).1 (split_cidrs []).0 (split_cidrs []).1 ≡ []
unfolding combine_cidrs split_cidrs
no_cidrs = refl

one_empty : combinations [] ("" ∷ []) ("" ∷ []) ("" ∷ []) ≡ "" ∷ []
unfolding combinations out_each join
one_empty = refl

-- A rule that matches on route sets alone, none of which is an enabled one, or on domains, countries,
-- applications or services alone, has the empty match expression and no other.
pub nft_match_expressions-IsUnused :
    (rule : RouteRule) (sets : List RouteSet)
    → HasNoStaticMatch rule.match
    → All (IsUnused sets) rule.match.sets
    → (nft_match_expressions rule sets).0 ≡ "" ∷ []
unfolding nft_match_expressions
nft_match_expressions-IsUnused rule sets h u =
    let (_, _, _, s, d, _, _) = h in
    rw (route_sets-IsUnused rule sets u, ports-none rule h, base-none rule h, s, d, no_cidrs)
      one_empty
