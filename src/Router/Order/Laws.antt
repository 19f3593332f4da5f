-- ===== src/Router/Order/Laws.antt =====
-- The sort of the rules by priority is stable and loses none.
use las.Prelude.{
  Any, ℤ, ◌≤ℤ◌, true, List, [], ◌∷◌, All, int_lt, int_eq, int_eq_iff, int_lt_iff, int_lt-false_iff,
  if◌then◌else◌, ◌≡◌, refl, ◌∙◌, ap, Bool-cases, inl, inr, arith,
}
use las.Config.{RouteRule}
use las.Router.Order.{insert_rule, sort_rules}

insert_rule-Any :
    (P : RouteRule → Type 0) (r : RouteRule) (xs : List RouteRule)
    → Any P (r ∷ xs)
    → Any P (insert_rule r xs)
unfolding insert_rule
insert_rule-Any P r [] h = h
insert_rule-Any P r (x ∷ xs) h = elim (Bool-cases (int_lt x.priority r.priority)) [
  | inl e ↦ rw e (elim h [
    | inl p ↦ inr (insert_rule-Any P r xs (inl p))
    | inr (inl q) ↦ inl q
    | inr (inr k) ↦ inr (insert_rule-Any P r xs (inr k))
  ])
  | inr e ↦ rw e h
]

-- No rule is lost.
pub sort_rules-Any :
    (P : RouteRule → Type 0) (rs : List RouteRule) → Any P rs → Any P (sort_rules rs)
unfolding sort_rules
sort_rules-Any P [] h = absurd h
sort_rules-Any P (r ∷ rs) (inl p) = insert_rule-Any P r (sort_rules rs) (inl p)
sort_rules-Any P (r ∷ rs) (inr h) =
    insert_rule-Any P r (sort_rules rs) (inr (sort_rules-Any P rs h))

-- No rule is behind one of a greater priority.
abbrev pub IsSorted : List RouteRule → Type 0
IsSorted [] = Unit
IsSorted (r ∷ rs) = All (λ x. r.priority ≤ℤ x.priority) rs × IsSorted rs

-- The rules of one priority, in their order.
unfoldable pub with_priority : ℤ → List RouteRule → List RouteRule
with_priority p [] = []
with_priority p (r ∷ rs) =
    let rest = with_priority p rs in if int_eq r.priority p then r ∷ rest else rest

insert_rule-All :
    (p : ℤ) (r : RouteRule) (xs : List RouteRule)
    → p ≤ℤ r.priority
    → All (λ x. p ≤ℤ x.priority) xs
    → All (λ x. p ≤ℤ x.priority) (insert_rule r xs)
unfolding insert_rule
insert_rule-All p r [] h a = (h, tt)
insert_rule-All p r (x ∷ xs) h (a, more) = elim (Bool-cases (int_lt x.priority r.priority)) [
  | inl e ↦ rw e (a, insert_rule-All p r xs h more)
  | inr e ↦ rw e (h, (a, more))
]

All-trans :
    (p q : ℤ) (xs : List RouteRule)
    → p ≤ℤ q
    → All (λ x. q ≤ℤ x.priority) xs
    → All (λ x. p ≤ℤ x.priority) xs
All-trans p q [] h a = tt
All-trans p q (x ∷ xs) h (a, more) = (omega arith, All-trans p q xs h more)

insert_rule-IsSorted :
    (r : RouteRule) (xs : List RouteRule) → IsSorted xs → IsSorted (insert_rule r xs)
unfolding insert_rule
insert_rule-IsSorted r [] s = (tt, tt)
insert_rule-IsSorted r (x ∷ xs) (a, s) = elim (Bool-cases (int_lt x.priority r.priority)) [
  | inl e ↦
      let below : x.priority ≤ℤ r.priority =
        omega (arith, (int_lt_iff x.priority r.priority).0 e) in
      rw e (insert_rule-All x.priority r xs below a, insert_rule-IsSorted r xs s)
  | inr e ↦
      let above = (int_lt-false_iff x.priority r.priority).0 e in
      rw e ((above, All-trans r.priority x.priority xs above a), (a, s))
]

sort_rules-IsSorted : (rs : List RouteRule) → IsSorted (sort_rules rs)
unfolding sort_rules
sort_rules-IsSorted [] = tt
sort_rules-IsSorted (r ∷ rs) = insert_rule-IsSorted r (sort_rules rs) (sort_rules-IsSorted rs)

-- Rules of different priorities can change places.
apart :
    (p : ℤ) (r x : RouteRule) (rest : List RouteRule)
    → int_lt x.priority r.priority ≡ true
    → (if int_eq x.priority p
        then x ∷ (if int_eq r.priority p then r ∷ rest else rest)
        else (if int_eq r.priority p then r ∷ rest else rest))
      ≡ (if int_eq r.priority p
          then r ∷ (if int_eq x.priority p then x ∷ rest else rest)
          else (if int_eq x.priority p then x ∷ rest else rest))
apart p r x rest e =
    ground
      (arith, int_eq_iff x.priority p, int_eq_iff r.priority p, int_lt_iff x.priority r.priority)

insert_rule-with_priority :
    (p : ℤ) (r : RouteRule) (xs : List RouteRule)
    → with_priority p (insert_rule r xs) ≡ with_priority p (r ∷ xs)
unfolding insert_rule with_priority
insert_rule-with_priority p r [] = refl
insert_rule-with_priority p r (x ∷ xs) = elim (Bool-cases (int_lt x.priority r.priority)) [
  | inl e ↦ rw (e, insert_rule-with_priority p r xs) (apart p r x (with_priority p xs) e)
  | inr e ↦ rw e
]

keep_first :
    (p : ℤ) (r : RouteRule) (xs ys : List RouteRule)
    → with_priority p xs ≡ with_priority p ys
    → with_priority p (r ∷ xs) ≡ with_priority p (r ∷ ys)
unfolding with_priority
keep_first p r xs ys e = ap (λ rest. if int_eq r.priority p then r ∷ rest else rest) e

with_priority-sort_rules :
    (p : ℤ) (rs : List RouteRule) → with_priority p (sort_rules rs) ≡ with_priority p rs
unfolding sort_rules
with_priority-sort_rules p [] = refl
with_priority-sort_rules p (r ∷ rs) =
    insert_rule-with_priority p r (sort_rules rs)
    ∙ keep_first p r _ _ (with_priority-sort_rules p rs)

-- The sorted rules stand by rising priority, and those of each one priority in the order that they
-- had.
pub sort_rules_lem :
    (rs : List RouteRule)
    → IsSorted (sort_rules rs) × ((p : ℤ) → with_priority p (sort_rules rs) ≡ with_priority p rs)
sort_rules_lem rs = (sort_rules-IsSorted rs, λ p. with_priority-sort_rules p rs)
