-- ===== src/Errors/Laws.antt =====
-- When checks pass, and which error a loop reports.
use las.Prelude.{
  String, Bool, true, false, List, [], ◌∷◌, ◌++◌, map, contains, All, Any, Distinct, ◌≡◌, refl, ◌↔◌,
  ◌⊎◌, inl, inr, sym, ap, ◌∙◌, arith, contains_iff, Bool-cases,
}
use las.Errors.{Error, Check, ok, err, ◌>>◌, fail_if, wrap, check_when, Passes, each, each_new}

pub Check-cases : (c : Check) → Passes c ⊎ ((e : Error) × (c ≡ err e))
Check-cases (ok _) = inl refl
Check-cases (err e) = inr (e, refl)

pub >>_iff : (m k : Check) → Passes (m >> k) ↔ (Passes m × Passes k)
unfolding ◌>>◌
>>_iff (ok _) k = (λ h. (refl, h), λ h. h.1)
>>_iff (err e) k = (λ h. cc, λ h. cc (h.0))

pub fail_if_iff : (b : Bool) (e : Error) → Passes (fail_if b e) ↔ (b ≡ false)
unfolding fail_if
fail_if_iff b e = ground arith

pub wrap_iff : (f : Error → Error) (c : Check) → Passes (wrap f c) ↔ Passes c
unfolding wrap
wrap_iff f (ok _) = (λ h. refl, λ h. refl)
wrap_iff f (err e) = (λ h. cc, λ h. cc)

pub check_when_iff : (b : Bool) (c : Check) → Passes (check_when b c) ↔ (b ≡ true → Passes c)
unfolding check_when
check_when_iff true c = (λ h _. h, λ h. h refl)
check_when_iff false c = (λ h e. cc, λ h. refl)

module _ {ℓ} {A : Type ℓ} where
  pub each_iff : (xs : List A) (f : A → Check) → Passes (each xs f) ↔ All (λ x. Passes (f x)) xs
  unfolding each
  each_iff [] f = (λ h. tt, λ h. refl)
  each_iff (x ∷ xs) f = (
    λ h. let (p, q) = (>>_iff (f x) (each xs f)).0 h in (p, (each_iff xs f).0 q),
    λ h. (>>_iff (f x) (each xs f)).1 (h.0, (each_iff xs f).1 h.1),
  )

  -- Checks that pass exactly where a predicate holds give a loop that passes exactly where it holds
  -- of every element.
  pub each-All_iff :
      {P : A → Type 0} (xs : List A) (f : A → Check)
      → ((x : A) → Passes (f x) ↔ P x)
      → Passes (each xs f) ↔ All P xs
  unfolding each
  each-All_iff [] f h = (λ _. tt, λ _. refl)
  each-All_iff (x ∷ xs) f h = (
    λ e. let (p, q) = (>>_iff (f x) (each xs f)).0 e in ((h x).0 p, (each-All_iff xs f h).0 q),
    λ e. (>>_iff (f x) (each xs f)).1 ((h x).1 e.0, (each-All_iff xs f h).1 e.1),
  )

  -- What a loop returns is the error of the first element that fails.
  pub each-eq-err :
      (xs : List A) (f : A → Check) {e : Error}
      → each xs f ≡ err e
      → (before : List A) × (x : A) × (after : List A) × (xs ≡ before ++ x ∷ after)
        × All (λ y. Passes (f y)) before
        × (f x ≡ err e)
  unfolding each
  each-eq-err [] f h = cc
  each-eq-err (x ∷ xs) f h = elim (Check-cases (f x)) [
    | inl p ↦
        let (before, y, after, q, passed, failed) = each-eq-err xs f (rw p at h) in
        (x ∷ before, y, after, ap (λ t. x ∷ t) q, (p, passed), failed)
    | inr (e, p) ↦ ([], x, xs, refl, tt, p ∙ (rw p at h))
  ]

-- The keys of the elements are new to `seen`.
abbrev pub AllNew {ℓ} : {A : Type ℓ} → (A → String) → List String → List A → Type 0
AllNew key seen xs = All (λ x. ¬ Any (λ y. y ≡ key x) seen) xs

module _ {ℓ} {A : Type ℓ} (key : A → String) where
  pub AllNew-nil : (xs : List A) → AllNew key [] xs
  AllNew-nil [] = tt
  AllNew-nil (x ∷ xs) = (λ h. h, AllNew-nil xs)

  pub AllNew-cons_iff :
      (x : A) (seen : List String) (xs : List A)
      → AllNew key (key x ∷ seen) xs ↔ (AllNew key seen xs × ¬ Any (λ y. y ≡ key x) (map key xs))
  AllNew-cons_iff x seen [] = (λ h. (tt, λ a. a), λ h. tt)
  AllNew-cons_iff x seen (z ∷ xs) = (
    λ h.
        let (rest, none_same) = (AllNew-cons_iff x seen xs).0 h.1 in
        ((λ a. h.0 (inr a), rest), elim [ inl e ↦ h.0 (inl (sym e)) | inr a ↦ none_same a ]),
    λ h. (
      elim [ inl e ↦ h.1 (inl (sym e)) | inr a ↦ h.0.0 a ],
      (AllNew-cons_iff x seen xs).1 (h.0.1, λ a. h.1 (inr a)),
    ),
  )

  pub contains-false_iff :
      (xs : List String) (a : String) → (contains xs a ≡ false) ↔ (¬ Any (λ x. x ≡ a) xs)
  contains-false_iff xs a = (
    λ h m. cc (h, (contains_iff xs a).1 m),
    λ h. elim (Bool-cases (contains xs a)) [
      | inl e ↦ absurd (h ((contains_iff xs a).0 e))
      | inr e ↦ e
    ],
  )

  module _ {P : A → Type 0} (check : A → Check) (duplicate : A → Error)
      (check_iff : (x : A) → Passes (check x) ↔ P x) where
    each_new_from_iff :
        (seen : List String) (xs : List A)
        → Passes (each_new key check duplicate seen xs)
          ↔ (All P xs × AllNew key seen xs × Distinct (map key xs))
    unfolding each_new
    each_new_from_iff seen [] = (λ h. (tt, tt, tt), λ h. refl)
    each_new_from_iff seen (x ∷ xs) = (
      λ h.
          let (p, q) = (>>_iff _ _).0 h in
          let (r, s) = (>>_iff _ _).0 q in
          let (ps, new, distinct) = (each_new_from_iff (key x ∷ seen) xs).0 s in
          let (new', fresh) = (AllNew-cons_iff x seen xs).0 new in
          (
            ((check_iff x).0 p, ps),
            ((contains-false_iff seen (key x)).0 ((fail_if_iff _ (duplicate x)).0 r), new'),
            (fresh, distinct),
          ),
      λ h. (>>_iff (check x) _).1 (
        (check_iff x).1 h.0.0,
        (>>_iff (fail_if (contains seen (key x)) (duplicate x)) _).1 (
          (fail_if_iff _ (duplicate x)).1 ((contains-false_iff seen (key x)).1 h.1.0),
          (each_new_from_iff (key x ∷ seen) xs).1
              (h.0.1, (AllNew-cons_iff x seen xs).1 (h.1.1, h.2.0), h.2.1),
        ),
      ),
    )

    -- A loop that refuses repeated keys passes exactly where every element passes and the keys are
    -- distinct.
    pub each_new_iff :
        (xs : List A)
        → Passes (each_new key check duplicate [] xs) ↔ (All P xs × Distinct (map key xs))
    each_new_iff xs = (
      λ h. let (ps, _, distinct) = (each_new_from_iff [] xs).0 h in (ps, distinct),
      λ h. (each_new_from_iff [] xs).1 (h.0, AllNew-nil xs, h.1),
    )
