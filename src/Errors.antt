-- ===== src/Errors.antt =====
-- Go's `error` values, and the control flow `if cond { return err }` and `for … { if err := … }`.
-- An error keeps the format and the arguments that `fmt.Errorf` is given; it is not rendered.
pub mod Laws
use las.Prelude.{
  ℤ, String, Bool, true, false, List, [], ◌∷◌, map, contains, All, Any, Distinct, ◌≡◌, refl, ◌↔◌,
  ◌⊎◌, inl, inr, arith, contains_iff,
}

pub data Arg : Type 0 where
  str : String → Arg
  int : ℤ → Arg

-- `wrapf` is `fmt.Errorf` with a last argument `%w`; `parse_error` the error of `netip.ParsePrefix`.
pub data Error : Type 0 where
  errorf : String → List Arg → Error
  wrapf : String → List Arg → Error → Error
  parse_error : String → Error

pub data Result {ℓ} (A : Type ℓ) : Type ℓ where
  ok : A → Result A
  err : Error → Result A

-- A function that returns an `error` alone.
abbrev pub Check : Type 0
Check = Result (Unit {0})

infixl 5 ◌>>=◌ ◌>>◌
abbrev pub ◌>>=◌ {ℓ κ} : {A : Type ℓ} {B : Type κ} → Result A → (A → Result B) → Result B
ok a >>= f = f a
err e >>= f = err e

unfoldable pub ◌>>◌ {ℓ} : {B : Type ℓ} → Check → Result B → Result B
ok _ >> k = k
err e >> k = err e

unfoldable pub fail_if : Bool → Error → Check
fail_if true e = err e
fail_if false e = ok tt

-- `if err := …; err != nil { return fmt.Errorf("…%w", err) }`
unfoldable pub wrap : (Error → Error) → Check → Check
wrap f (ok _) = ok tt
wrap f (err e) = err (f e)

-- `if cond { … }` around checks.
unfoldable pub check_when : Bool → Check → Check
check_when true c = c
check_when false c = ok tt

abbrev pub Passes : Check → Type 0
Passes c = c ≡ ok tt

module _ {ℓ} {A : Type ℓ} where
  -- A loop that returns the first error.
  unfoldable pub each : List A → (A → Check) → Check
  unfolding ◌>>◌
  each [] f = ok tt
  each (x ∷ xs) f = f x >> each xs f

  -- A loop that also fills a map, and refuses a key that it holds already.
  unfoldable pub each_new : (A → String) → (A → Check) → (A → Error) → List String → List A → Check
  unfolding ◌>>◌ fail_if
  each_new key check duplicate seen [] = ok tt
  each_new key check duplicate seen (x ∷ xs) = do
    check x
    fail_if (contains seen (key x)) (duplicate x)
    each_new key check duplicate (key x ∷ seen) xs
