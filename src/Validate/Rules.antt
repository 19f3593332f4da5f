-- ===== src/Validate/Rules.antt =====
-- When each kind of check passes. `◌&◌` joins the conditions of a sequence of checks.
use las.Prelude.{
  refl, ◌∷◌, All, [], is_empty, ℤ, pos, ◌≤ℤ◌, Between, int_lt, int_eq, String, Bool, true, false,
  not, ◌&&◌, ◌||◌, List, contains, contains_iff, Any, str_eq, eq_iff, ◌≡◌, ◌≢◌, ◌↔◌, ◌⊎◌, arith,
}
use las.Errors.Laws.{each-All_iff, >>_iff, fail_if_iff, wrap_iff, check_when_iff}
use las.Errors.{each, Error, Check, Passes, ◌>>◌, fail_if, wrap, check_when}
use las.Names.{is_identifier, validate_cidr, is_ip}
use las.Names.Laws.{IsIdentifier, IsCidr, is_identifier_iff, validate_cidr_iff}

-- The text stands in the list.
abbrev pub Listed : List String → String → Type 0
Listed xs a = Any (λ x. x ≡ a) xs

abbrev pub IsIp : String → Type 0
IsIp value = is_ip value ≡ true

infixr 3 ◌and◌ ◌&◌
abbrev pub ◌and◌ : Type 0 → Type 0 → Type 0
P and Q = P × Q

module _ {P Q : Type 0} where
  pub ◌&◌ : {m k : Check} → Passes m ↔ P → Passes k ↔ Q → Passes (m >> k) ↔ (P and Q)
  ◌&◌ {m} {k} p q =
      (λ h. let (a, b) = (>>_iff m k).0 h in (p.0 a, q.0 b), λ h. (>>_iff m k).1 (p.1 h.0, q.1 h.1))

  pub iff_trans : {R : Type 0} → P ↔ Q → Q ↔ R → P ↔ R
  iff_trans f g = (λ p. g.0 (f.0 p), λ r. f.1 (g.1 r))

module _ {P : Type 0} (b : Bool) (e : Error) where
  -- The condition of the error is false exactly if `P` holds.
  pub Passes-fail_if : (b ≡ false) ↔ P → Passes (fail_if b e) ↔ P
  Passes-fail_if h = iff_trans (fail_if_iff b e) h

pub check_when-true_iff :
    {P Q : Type 0} (b : Bool) (c : Check)
    → (b ≡ true) ↔ P
    → Passes c ↔ Q
    → Passes (check_when b c) ↔ (P → Q)
check_when-true_iff b c h k = (
  λ p x. k.0 ((check_when_iff b c).0 p (h.1 x)),
  λ f. (check_when_iff b c).1 (λ x. k.1 (f (h.0 x))),
)

-- The error's text `e` is left open in all that follows.
module _ (e : Error) where
  pub IsIdentifier-iff : (v : String) → Passes (fail_if (not (is_identifier v)) e) ↔ IsIdentifier v
  IsIdentifier-iff v = Passes-fail_if _ e (ground (arith, is_identifier_iff v))

  pub Listed-iff :
      (xs : List String) (v : String) → Passes (fail_if (not (contains xs v)) e) ↔ Listed xs v
  Listed-iff xs v = Passes-fail_if _ e (ground (arith, contains_iff xs v))

  pub IsIp-iff : (v : String) → Passes (fail_if (not (is_ip v)) e) ↔ IsIp v
  IsIp-iff v = Passes-fail_if _ e (ground arith)

  pub given_iff : (v : String) → Passes (fail_if (str_eq v "") e) ↔ (v ≢ "")
  given_iff v = Passes-fail_if _ e (ground (arith, eq_iff v ""))

  pub Between-iff :
      (lo hi a : ℤ) → Passes (fail_if (int_lt a lo || int_lt hi a) e) ↔ Between lo hi a
  Between-iff lo hi a = Passes-fail_if _ e (ground arith)

  pub at_least_iff : (lo a : ℤ) → Passes (fail_if (int_lt a lo) e) ↔ (lo ≤ℤ a)
  at_least_iff lo a = Passes-fail_if _ e (ground arith)

  pub zero_or_Between_iff :
      (lo hi a : ℤ)
      → Passes (fail_if (not (int_eq a (pos 0)) && (int_lt a lo || int_lt hi a)) e)
        ↔ ((a ≡ pos 0) ⊎ Between lo hi a)
  zero_or_Between_iff lo hi a = Passes-fail_if _ e (ground arith)

  -- A field that may be empty.
  pub unless_empty_iff :
      {P : Type 0} (v : String) (b : Bool)
      → (b ≡ true) ↔ P
      → Passes (fail_if (not (str_eq v "") && not b) e) ↔ ((v ≡ "") ⊎ P)
  unless_empty_iff v b h = Passes-fail_if _ e (ground (arith, eq_iff v "", h))

pub IsCidr-iff : (f : Error → Error) (v : String) → Passes (wrap f (validate_cidr v)) ↔ IsCidr v
IsCidr-iff f v = iff_trans (wrap_iff f _) (validate_cidr_iff v)

pub is_empty-false_iff {ℓ} : {A : Type ℓ} (xs : List A) → (is_empty xs ≡ false) ↔ (xs ≢ [])
is_empty-false_iff [] = (λ h. cc, λ h. absurd (h refl))
is_empty-false_iff (x ∷ xs) = (λ _. cc, λ _. refl)

-- A check that is made of a field unless the field is empty.
pub link_given_iff :
    (e : Error) (links : List String) (v : String)
    → Passes (check_when (not (str_eq v "")) (fail_if (not (contains links v)) e))
      ↔ (v ≢ "" → Listed links v)
link_given_iff e links v =
    check_when-true_iff _ _ (ground (arith, eq_iff v "")) (Listed-iff e links v)

-- A list of fields that must all name a link, and one that must hold addresses.
pub All-Listed_iff :
    (e : String → Error) (xs values : List String)
    → Passes (each values (λ v. fail_if (not (contains xs v)) (e v))) ↔ All (Listed xs) values
All-Listed_iff e xs values = each-All_iff values _ (λ v. Listed-iff (e v) xs v)

pub same_iff : (b : Bool) → (b ≡ true) ↔ (b ≡ true)
same_iff b = (λ h. h, λ h. h)
