-- ===== src/Router/Chains/Laws.antt =====
-- The sets that the rules refer to are in the table.
use mathlib.Core.Path.{subst}
use las.Prelude.{
  sym, ap, sym, ◌↔◌, String, Bool, true, false, not, Option, none, some, List, [], ◌∷◌, ◌++◌, Any,
  Any-imp, ◌≡◌, refl, ◌⊎◌, inl, inr, is_empty, str_eq, Bool-cases, if◌then◌else◌,
}
use las.Errors.{str}
use las.Fmt.{sprintf}
use las.Config.{RouteRule, RouteSet}
use las.Router.Cidrs.{split_cidrs, nft_identifier, nft_elements}
use las.Router.Matches.{Out, out_each, set_matches, find_set, nft_route_set_expressions}
use las.Router.Chains.{set_text, route_set_text, write_route_sets}

abbrev IsIn : List String → String → Type 0
IsIn xs v = Any (λ (x : String). x ≡ v) xs

Any-append :
    {A : Type 0} (P : A → Type 0) (xs ys : List A) → Any P (xs ++ ys) ↔ (Any P xs ⊎ Any P ys)
Any-append P [] ys = (λ h. inr h, λ h. elim h [ inl a ↦ absurd a | inr b ↦ b ])
Any-append P (x ∷ xs) ys = (
  λ h. elim h [
    | inl p ↦ inl (inl p)
    | inr r ↦ elim ((Any-append P xs ys).0 r) [ inl a ↦ inl (inr a) | inr b ↦ inr b ]
  ],
  λ h. elim h [
    | inl a ↦ elim a [ inl p ↦ inl p | inr r ↦ inr ((Any-append P xs ys).1 (inl r)) ]
    | inr b ↦ inr ((Any-append P xs ys).1 (inr b))
  ],
)

IsIn-out_each :
    {A : Type 0} (xs : List A) (f : A → Out) (v : String)
    → IsIn (out_each xs f).0 v ↔ Any (λ x. IsIn (f x).0 v) xs
unfolding out_each
IsIn-out_each [] f v = (λ h. h, λ h. h)
IsIn-out_each (x ∷ xs) f v =
    let (split, unite) = Any-append (λ (e : String). e ≡ v) (f x).0 (out_each xs f).0 in
    let (find, put) = IsIn-out_each xs f v in
    (
      λ h. elim (split h) [ inl a ↦ inl a | inr b ↦ inr (find b) ],
      λ h. elim h [ inl a ↦ unite (inl a) | inr b ↦ unite (inr (put b)) ],
    )

-- The text of a set of the one version, and what a rule writes to refer to it.
abbrev pub declaration : String → String → RouteSet → List String → String
declaration version type s values =
    sprintf "  set %s_%s {\n    type %s; flags interval;\n    elements = %s\n  }\n"
      (str (nft_identifier s.id) ∷ str version ∷ str type ∷ str (nft_elements values) ∷ [])

abbrev pub IsDeclared : List String → RouteSet → String → Type 0
IsDeclared texts s e =
    ((e ≡ sprintf "ip daddr @%s_v4" (str (nft_identifier s.id) ∷ []))
      × IsIn texts (declaration "v4" "ipv4_addr" s (split_cidrs s.cidrs).0))
    ⊎ ((e ≡ sprintf "ip6 daddr @%s_v6" (str (nft_identifier s.id) ∷ []))
        × IsIn texts (declaration "v6" "ipv6_addr" s (split_cidrs s.cidrs).1))

-- A list with one text, unless the other list is empty.
IsIn-unless :
    (xs : List String) (x v : String)
    → IsIn (if is_empty xs then [] else x ∷ []) v
    → (is_empty xs ≡ false) × (v ≡ x)
IsIn-unless [] x v h = absurd h
IsIn-unless (y ∷ ys) x v (inr k) = absurd k
IsIn-unless (y ∷ ys) x v (inl e) = (refl, sym e)

set_text-holds :
    (version type : String) (s : RouteSet) (values : List String)
    → is_empty values ≡ false
    → IsIn (set_text version type s values).0 (declaration version type s values)
unfolding set_text
set_text-holds version type s values e = rw e (inl refl)

-- The texts of an enabled set, and those that a rule refers to it by.
declarations : RouteSet → List String
declarations s =
    (set_text "v4" "ipv4_addr" s (split_cidrs s.cidrs).0).0
    ++ (set_text "v6" "ipv6_addr" s (split_cidrs s.cidrs).1).0

references : RouteSet → List String
references s =
    (if is_empty (split_cidrs s.cidrs).0
      then []
      else sprintf "ip daddr @%s_v4" (str (nft_identifier s.id) ∷ []) ∷ [])
    ++ (if is_empty (split_cidrs s.cidrs).1
        then []
        else sprintf "ip6 daddr @%s_v6" (str (nft_identifier s.id) ∷ []) ∷ [])

choose : (b : Bool) (x y : Out) → b ≡ true → (if not b then x else y) ≡ y
choose true x y e = refl
choose false x y e = cc

route_set_text-enabled : (s : RouteSet) → s.enabled ≡ true → (route_set_text s).0 ≡ declarations s
unfolding route_set_text declarations
route_set_text-enabled s on = ap (λ (o : Out). o.0) (choose s.enabled _ _ on)

set_matches-enabled :
    (rule : RouteRule) (id : String) (s : RouteSet)
    → s.enabled ≡ true
    → (set_matches rule id (some s)).0 ≡ references s
unfolding set_matches references
set_matches-enabled rule id s on = ap (λ (o : Out). o.0) (choose s.enabled _ _ on)

set_matches-off :
    (rule : RouteRule) (id : String) (s : RouteSet)
    → s.enabled ≡ false
    → (set_matches rule id (some s)).0 ≡ []
unfolding set_matches
set_matches-off rule id s off = rw off

references-IsDeclared :
    (s : RouteSet) (e : String) → IsIn (references s) e → IsDeclared (declarations s) s e
unfolding references declarations
references-IsDeclared s e h =
    let (v4s, v6s) = split_cidrs s.cidrs in
    let four = set_text "v4" "ipv4_addr" s v4s in
    let six = set_text "v6" "ipv6_addr" s v6s in
    elim ((Any-append (λ (x : String). x ≡ e) _ _).0 h) [
      | inl a ↦
          let (some4, same) = IsIn-unless v4s _ e a in
          inl (
            same,
            (Any-append _ four.0 six.0).1 (inl (set_text-holds "v4" "ipv4_addr" s v4s some4)),
          )
      | inr b ↦
          let (some6, same) = IsIn-unless v6s _ e b in
          inr (
            same,
            (Any-append _ four.0 six.0).1 (inr (set_text-holds "v6" "ipv6_addr" s v6s some6)),
          )
    ]

set_matches-IsDeclared :
    (rule : RouteRule) (id e : String) (s : RouteSet)
    → IsIn (set_matches rule id (some s)).0 e
    → IsDeclared (route_set_text s).0 s e
set_matches-IsDeclared rule id e s h = elim (Bool-cases s.enabled) [
  | inl on ↦
      subst (λ texts. IsDeclared texts s e) (sym (route_set_text-enabled s on))
        (references-IsDeclared s e
          (subst (λ refs. IsIn refs e) (set_matches-enabled rule id s on) h))
  | inr off ↦ absurd (subst (λ refs. IsIn refs e) (set_matches-off rule id s off) h)
]

-- What a look-up finds is in the list.
module _ (P : RouteSet → Type 0) (Q : Option RouteSet → Type 0)
    (f : (s : RouteSet) → Q (some s) → P s) (n : ¬ Q none) where
  find_step :
      (s : RouteSet) (sets : List RouteSet) (b : Bool) (o : Option RouteSet)
      → (Q o → Any P sets)
      → Q (elim o [ some t ↦ some t | none ↦ if b then some s else none ])
      → Any P (s ∷ sets)
  find_step s sets b (some t) k h = inr (k h)
  find_step s sets true none k h = inl (f s h)
  find_step s sets false none k h = absurd (n h)

  find_set-Any : (sets : List RouteSet) (id : String) → Q (find_set sets id) → Any P sets
  unfolding find_set
  find_set-Any [] id h = absurd (n h)
  find_set-Any (s ∷ sets) id h =
      find_step s sets (str_eq s.id id) (find_set sets id) (find_set-Any sets id) h

IsDeclared-imp :
    (texts texts' : List String) (s : RouteSet) (e : String)
    → ((v : String) → IsIn texts v → IsIn texts' v)
    → IsDeclared texts s e
    → IsDeclared texts' s e
IsDeclared-imp texts texts' s e f (inl (same, i)) = inl (same, f _ i)
IsDeclared-imp texts texts' s e f (inr (same, i)) = inr (same, f _ i)

write_route_sets-IsDeclared :
    (sets : List RouteSet) (e : String)
    → Any (λ s. IsDeclared (route_set_text s).0 s e) sets
    → Any (λ s. IsDeclared (write_route_sets sets).0 s e) sets
unfolding write_route_sets out_each
write_route_sets-IsDeclared [] e h = h
write_route_sets-IsDeclared (s ∷ sets) e (inl h) =
    inl (IsDeclared-imp _ _ s e (λ v i. (Any-append (λ (x : String). x ≡ v) _ _).1 (inl i)) h)
write_route_sets-IsDeclared (s ∷ sets) e (inr h) = inr (
    Any-imp sets
      (λ t d. IsDeclared-imp _ _ t e (λ v i. (Any-append (λ (x : String). x ≡ v) _ _).1 (inr i)) d)
      (write_route_sets-IsDeclared sets e h))

set_expression :
    (rule : RouteRule) (sets : List RouteSet) (e : String)
    → IsIn (nft_route_set_expressions rule sets).0 e
    → Any (λ id. IsIn (set_matches rule id (find_set sets id)).0 e) rule.match.sets
unfolding nft_route_set_expressions
set_expression rule sets e h =
    (IsIn-out_each rule.match.sets (λ id. set_matches rule id (find_set sets id)) e).0
      (elim ((Any-append (λ (x : String). x ≡ e) _ []).0 h) [
        | inl i ↦ elim ((Any-append (λ (x : String). x ≡ e) _ []).0 i) [
          | inl j ↦ j
          | inr k ↦ absurd k
        ]
        | inr k ↦ absurd k
      ])

no_set : (rule : RouteRule) (id e : String) → ¬ IsIn (set_matches rule id none).0 e
unfolding set_matches
no_set rule id e h = h

any_of :
    {A : Type 0} {X : Type 0} (xs : List A) {P : A → Type 0} → ((x : A) → P x → X) → Any P xs → X
any_of [] f h = absurd h
any_of (x ∷ xs) f (inl p) = f x p
any_of (x ∷ xs) f (inr r) = any_of xs f r

-- Each set that the match expressions of a rule name is one that the table declares: it belongs to a
-- route set of the configuration, whose declaration is among the texts that are written, with the
-- prefixes of the family that the expression says.
pub nft_route_set_expressions-IsDeclared :
    (rule : RouteRule) (sets : List RouteSet) (e : String)
    → IsIn (nft_route_set_expressions rule sets).0 e
    → Any (λ s. IsDeclared (write_route_sets sets).0 s e) sets
nft_route_set_expressions-IsDeclared rule sets e h = write_route_sets-IsDeclared sets e (
    any_of rule.match.sets
      (λ id i.
        find_set-Any (λ s. IsDeclared (route_set_text s).0 s e)
          (λ o. IsIn (set_matches rule id o).0 e) (λ s m. set_matches-IsDeclared rule id e s m)
          (no_set rule id e) sets id i)
      (set_expression rule sets e h))
