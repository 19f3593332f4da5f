-- ===== src/Prelude/Lists.antt =====
-- Lists: length over the native numbers, membership of texts, a predicate at every element.
use Prim.Native.Nat.{ℕ, suc}
use Prim.Native.String.{String}
use mathlib.Core.Path.{◌≡◌}
use mathlib.Core.Logic.{◌↔◌, ◌⊎◌, inl, inr}
use mathlib.Core.Bool.{Bool, true, false, ◌||◌}
use mathlib.Core.List.{List, [], ◌∷◌, ◌++◌}
use native.Mathlib.Omega.{arith}
use text.Mathlib.Text.{◌==◌}
use text.Mathlib.TextEquality.{eq_iff}

module _ {ℓ} {A : Type ℓ} where
  abbrev pub length : List A → ℕ
  length [] = 0
  length (x ∷ xs) = suc (length xs)

  abbrev pub is_empty : List A → Bool
  is_empty [] = true
  is_empty (x ∷ xs) = false

module _ {ℓ} {A : Type ℓ} (P : A → Type 0) where
  abbrev pub All : List A → Type 0
  All [] = Unit
  All (x ∷ xs) = P x × All xs

  -- A witness among the elements, by its position.
  abbrev pub Any : List A → Type 0
  Any [] = ⊥
  Any (x ∷ xs) = P x ⊎ Any xs

  pub All-append : (xs ys : List A) → All (xs ++ ys) ↔ (All xs × All ys)
  All-append [] ys = (λ h. (tt, h), λ h. h.1)
  All-append (x ∷ xs) ys = (
    λ h. ((h.0, ((All-append xs ys).0 h.1).0), ((All-append xs ys).0 h.1).1),
    λ h. (h.0.0, (All-append xs ys).1 (h.0.1, h.1)),
  )

module _ {ℓ} {A : Type ℓ} {P : A → Type 0} {Q : A → Type 0} where
  pub All-imp : (xs : List A) → ((x : A) → P x → Q x) → All P xs → All Q xs
  All-imp [] f h = tt
  All-imp (x ∷ xs) f (p, h) = (f x p, All-imp xs f h)

  pub Any-imp : (xs : List A) → ((x : A) → P x → Q x) → Any P xs → Any Q xs
  Any-imp [] f h = absurd h
  Any-imp (x ∷ xs) f (inl p) = inl (f x p)
  Any-imp (x ∷ xs) f (inr h) = inr (Any-imp xs f h)

-- slices.Contains, and the look-up of a key in a map that is used as a set.
unfoldable pub contains : List String → String → Bool
contains [] a = false
contains (x ∷ xs) a = x == a || contains xs a

pub Any-left {ℓ} : {A : Type ℓ} (P : A → Type 0) (xs ys : List A) → Any P xs → Any P (xs ++ ys)
Any-left P [] ys h = absurd h
Any-left P (x ∷ xs) ys (inl p) = inl p
Any-left P (x ∷ xs) ys (inr h) = inr (Any-left P xs ys h)

pub Any-right {ℓ} : {A : Type ℓ} (P : A → Type 0) (xs ys : List A) → Any P ys → Any P (xs ++ ys)
Any-right P [] ys h = h
Any-right P (x ∷ xs) ys h = inr (Any-right P xs ys h)

pub contains_iff : (xs : List String) (a : String) → (contains xs a ≡ true) ↔ Any (λ x. x ≡ a) xs
unfolding contains
contains_iff [] a = ground arith
contains_iff (x ∷ xs) a = ground (arith, eq_iff x a, contains_iff xs a)

-- No two elements have the same text.
abbrev pub Distinct : List String → Type 0
Distinct [] = Unit
Distinct (x ∷ xs) = ¬ Any (λ y. y ≡ x) xs × Distinct xs
