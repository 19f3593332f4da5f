-- ===== src/Names/Domains.antt =====
-- The domain names that `validDomainName` accepts, described by their labels.
use las.Prelude.{
  ℕ, ◌≤◌, Bool, true, false, ◌||◌, List, [], ◌∷◌, ◌++◌, Codes, ◌≡◌, ◌≢◌, ◌↔◌, ◌⊎◌, inl, inr, refl,
  sym, ap, ◌∙◌, arith, All, byte_len, is_empty, ltb, ◌==◌, Bool-cases, if◌then◌else◌,
}
use las.Names.{
  split, ends_with, trim_suffix, is_label_code, valid_label, all_labels, valid_domain_name,
}
use las.Names.Laws.{IsAlnum, all_codes_iff}

abbrev pub IsLabelCode : ℕ → Type 0
IsLabelCode c = IsAlnum c ⊎ (c ≡ b'-') ⊎ (c ≡ b'_') ⊎ (c ≡ b'*')

-- The text ends with the character.
abbrev pub Ends : ℕ → Codes → Type 0
Ends a s = (t : Codes) × (s ≡ t ++ a ∷ [])

-- 1 to 63 bytes, all of the class, with no dash at either end.
abbrev pub IsLabel : Codes → Type 0
IsLabel [] = ⊥
IsLabel (c ∷ s) =
    (byte_len (c ∷ s) ≤ 63) × (c ≢ b'-') × ¬ Ends b'-' (c ∷ s) × All IsLabelCode (c ∷ s)

-- `strings.Join(labels, ".")`
abbrev pub join_labels : List Codes → Codes
join_labels [] = []
join_labels (l ∷ []) = l
join_labels (l ∷ m ∷ ls) = l ++ (b'.' ∷ join_labels (m ∷ ls))

-- One or more labels with dots between them, and perhaps a dot behind, of at most 253 bytes.
abbrev pub IsDomainName : Codes → Type 0
IsDomainName value =
    (byte_len value ≤ 253)
    × ((labels : List Codes) × (labels ≢ [])
        × All IsLabel labels
        × ((value ≡ join_labels labels) ⊎ (value ≡ join_labels labels ++ b'.' ∷ [])))

ends_with_iff : (a : ℕ) (s : Codes) → (ends_with a s ≡ true) ↔ Ends a s
ends_with_iff a [] = (λ h. cc, λ (t, e). absurd (empty t e))
  where
    empty : (t : Codes) → [] ≡ t ++ a ∷ [] → ⊥
    empty [] e = cc
    empty (x ∷ t) e = cc
ends_with_iff a (c ∷ []) = (λ h. ([], ground arith), λ (t, e). last t e)
  where
    last : (t : Codes) → c ∷ [] ≡ t ++ a ∷ [] → ends_with a (c ∷ []) ≡ true
    last [] e = ground arith
    last (x ∷ []) e = cc
    last (x ∷ y ∷ t) e = cc
ends_with_iff a (c ∷ d ∷ s) =
    let ih = ends_with_iff a (d ∷ s) in
    (λ h. let (t, e) = ih.0 h in (c ∷ t, ap (λ r. c ∷ r) e), λ (t, e). ih.1 (shorter t e))
  where
    shorter : (t : Codes) → c ∷ d ∷ s ≡ t ++ a ∷ [] → Ends a (d ∷ s)
    shorter [] e = cc
    shorter (x ∷ t) e = (t, cc)

IsLabelCode-iff : (c : ℕ) → (is_label_code c ≡ true) ↔ IsLabelCode c
IsLabelCode-iff c = ground arith

valid_label_iff : (l : Codes) → (valid_label l ≡ true) ↔ IsLabel l
unfolding valid_label
valid_label_iff [] = ground arith
valid_label_iff (c ∷ s) = (
  λ h. (
    ground arith,
    ground arith,
    λ e. let k = (ends_with_iff b'-' (c ∷ s)).1 e in ground (arith, k),
    (all_codes_iff _ _ IsLabelCode-iff (c ∷ s)).0 (ground arith),
  ),
  λ (size, first, last, class).
      let k = (all_codes_iff _ _ IsLabelCode-iff (c ∷ s)).1 class in
      elim (Bool-cases (ends_with b'-' (c ∷ s))) [
        | inl e ↦ absurd (last ((ends_with_iff b'-' (c ∷ s)).0 e))
        | inr e ↦ ground (arith, k, e)
      ],
)

all_labels_iff : (ls : List Codes) → (all_labels ls ≡ true) ↔ All IsLabel ls
unfolding all_labels
all_labels_iff [] = (λ _. tt, λ _. refl)
all_labels_iff (l ∷ ls) = ground (arith, valid_label_iff l, all_labels_iff ls)

-- A split has a first part.
split-cons :
    (a : ℕ) (s : Codes) → (part : Codes) × (parts : List Codes) × (split a s ≡ part ∷ parts)
unfolding split
split-cons a [] = ([], [], refl)
split-cons a (c ∷ s) =
    let (part, parts, e) = split-cons a s in
    elim (Bool-cases (c == a)) [
      | inl h ↦ ([], part ∷ parts, rw (e, h, split))
      | inr h ↦ (c ∷ part, parts, rw (e, h, split))
    ]

join_labels-split : (s : Codes) → join_labels (split b'.' s) ≡ s
unfolding split
join_labels-split [] = refl
join_labels-split (c ∷ s) =
    let (part, parts, e) = split-cons b'.' s in
    let ih = rw e at (join_labels-split s) in
    elim (Bool-cases (c == b'.')) [
      | inl h ↦ rw (e, h, split) (ground (arith, h, ih))
      | inr h ↦ rw (e, h, split) (joined c part parts s ih)
    ]
  where
    joined :
        (d : ℕ) (part : Codes) (parts : List Codes) (t : Codes)
        → join_labels (part ∷ parts) ≡ t
        → join_labels ((d ∷ part) ∷ parts) ≡ d ∷ t
    joined d part [] t e = ap (λ r. d ∷ r) e
    joined d part (m ∷ ms) t e = ap (λ r. d ∷ r) e

abbrev HasNoDot : Codes → Type 0
HasNoDot = All (λ c. c ≢ b'.')

split-HasNoDot : (l : Codes) → HasNoDot l → split b'.' l ≡ l ∷ []
unfolding split
split-HasNoDot [] _ = refl
split-HasNoDot (c ∷ l) (p, h) = ground (arith, split-HasNoDot l h)

split-append : (l r : Codes) → HasNoDot l → split b'.' (l ++ b'.' ∷ r) ≡ l ∷ split b'.' r
unfolding split
split-append [] r _ = let (part, parts, e) = split-cons b'.' r in rw (e, split)
split-append (c ∷ l) r (p, h) = ground (arith, split-append l r h)

split-join_labels : (ls : List Codes) → ls ≢ [] → All HasNoDot ls → split b'.' (join_labels ls) ≡ ls
split-join_labels [] h _ = absurd (h refl)
split-join_labels (l ∷ []) _ (p, _) = split-HasNoDot l p
split-join_labels (l ∷ m ∷ ls) _ (p, ps) =
    split-append l _ p ∙ ap (λ r. l ∷ r) (split-join_labels (m ∷ ls) (cc) ps)

-- Trimming takes the character away, or there is none at the end.
trim_suffix-cases :
    (a : ℕ) (s : Codes)
    → (s ≡ trim_suffix a s ++ a ∷ []) ⊎ ((trim_suffix a s ≡ s) × (ends_with a s ≡ false))
unfolding trim_suffix
trim_suffix-cases a [] = inr (refl, refl)
trim_suffix-cases a (c ∷ []) = ground arith
trim_suffix-cases a (c ∷ d ∷ s) = elim (trim_suffix-cases a (d ∷ s)) [
  | inl e ↦ inl (ap (λ r. c ∷ r) e)
  | inr (e, h) ↦ inr (ap (λ r. c ∷ r) e, h)
]

trim_suffix-append : (a : ℕ) (s : Codes) → trim_suffix a (s ++ a ∷ []) ≡ s
unfolding trim_suffix
trim_suffix-append a [] = ground arith
trim_suffix-append a (c ∷ []) = ap (λ r. c ∷ r) (trim_suffix-append a [])
trim_suffix-append a (c ∷ d ∷ s) = ap (λ r. c ∷ r) (trim_suffix-append a (d ∷ s))

trim_suffix_same : (a : ℕ) (s : Codes) → ends_with a s ≡ false → trim_suffix a s ≡ s
unfolding trim_suffix
trim_suffix_same a [] _ = refl
trim_suffix_same a (c ∷ []) h = ground arith
trim_suffix_same a (c ∷ d ∷ s) h = ap (λ r. c ∷ r) (trim_suffix_same a (d ∷ s) h)

ends_with-append : (a : ℕ) (s t : Codes) → t ≢ [] → ends_with a (s ++ t) ≡ ends_with a t
ends_with-append a [] t h = refl
ends_with-append a (c ∷ []) [] h = absurd (h refl)
ends_with-append a (c ∷ []) (d ∷ t) h = refl
ends_with-append a (c ∷ d ∷ s) t h = ends_with-append a (d ∷ s) t h

ends_with-HasNoDot : (s : Codes) → HasNoDot s → ends_with b'.' s ≡ false
ends_with-HasNoDot [] _ = refl
ends_with-HasNoDot (c ∷ []) (p, _) = ground arith
ends_with-HasNoDot (c ∷ d ∷ s) (_, h) = ends_with-HasNoDot (d ∷ s) h

label_codes-HasNoDot : (s : Codes) → All IsLabelCode s → HasNoDot s
label_codes-HasNoDot [] _ = tt
label_codes-HasNoDot (c ∷ s) (p, h) = (ground arith, label_codes-HasNoDot s h)

IsLabel-HasNoDot : (l : Codes) → IsLabel l → HasNoDot l
IsLabel-HasNoDot [] h = absurd h
IsLabel-HasNoDot (c ∷ s) h = label_codes-HasNoDot (c ∷ s) h.3

labels-HasNoDot : (ls : List Codes) → All IsLabel ls → All HasNoDot ls
labels-HasNoDot [] _ = tt
labels-HasNoDot (l ∷ ls) (p, h) = (IsLabel-HasNoDot l p, labels-HasNoDot ls h)

join_labels-ne-nil : (ls : List Codes) → ls ≢ [] → All IsLabel ls → join_labels ls ≢ []
join_labels-ne-nil [] h _ = absurd (h refl)
join_labels-ne-nil ([] ∷ ls) _ (p, _) = absurd p
join_labels-ne-nil ((c ∷ l) ∷ []) _ _ = cc
join_labels-ne-nil ((c ∷ l) ∷ m ∷ ls) _ _ = cc

ends_with-join_labels :
    (ls : List Codes) → ls ≢ [] → All IsLabel ls → ends_with b'.' (join_labels ls) ≡ false
ends_with-join_labels [] h _ = absurd (h refl)
ends_with-join_labels (l ∷ []) _ (p, _) = ends_with-HasNoDot l (IsLabel-HasNoDot l p)
ends_with-join_labels (l ∷ m ∷ ls) _ (_, ps) =
    let rest = join_labels (m ∷ ls) in
    ends_with-append b'.' l (b'.' ∷ rest) (cc)
    ∙ ends_with-append b'.' (b'.' ∷ []) rest (join_labels-ne-nil (m ∷ ls) (cc) ps)
    ∙ ends_with-join_labels (m ∷ ls) (cc) ps

-- The test on what is left when the last dot is trimmed.
trimmed_iff :
    (s : Codes)
    → ((s ≢ []) × (all_labels (split b'.' s) ≡ true))
      ↔ ((labels : List Codes) × (labels ≢ []) × All IsLabel labels × (s ≡ join_labels labels))
trimmed_iff s = (
  λ (_, h).
      let (part, parts, e) = split-cons b'.' s in
      (split b'.' s, rw e (cc), (all_labels_iff _).0 h, sym (join_labels-split s)),
  λ (labels, some_label, valid, e).
      let parts = split-join_labels labels some_label (labels-HasNoDot labels valid) in
      (
        rw e (join_labels-ne-nil labels some_label valid),
        rw (e, parts) ((all_labels_iff labels).1 valid),
      ),
)

guards_iff :
    (n : ℕ) (t : Codes) (b : Bool)
    → ((if false || ltb 253 n then false else if is_empty t then false else b) ≡ true)
      ↔ ((n ≤ 253) × ((t ≢ []) × (b ≡ true)))
guards_iff n [] b = ground arith
guards_iff n (c ∷ t) b = ground arith

valid_domain_name-trim_iff :
    (value : Codes)
    → (valid_domain_name value ≡ true) ↔ (
        (byte_len value ≤ 253)
        × ((trim_suffix b'.' value ≢ [])
            × (all_labels (split b'.' (trim_suffix b'.' value)) ≡ true)))
unfolding valid_domain_name
valid_domain_name-trim_iff [] = (λ h. cc, λ h. absurd (h.1.0 refl))
valid_domain_name-trim_iff (c ∷ s) = guards_iff _ _ _

labels_of_trim :
    (value : Codes) (labels : List Codes)
    → trim_suffix b'.' value ≡ join_labels labels
    → (value ≡ join_labels labels) ⊎ (value ≡ join_labels labels ++ b'.' ∷ [])
labels_of_trim value labels e = elim (trim_suffix-cases b'.' value) [
  | inl h ↦ inr (h ∙ ap (λ r. r ++ b'.' ∷ []) e)
  | inr (h, _) ↦ inl (sym h ∙ e)
]

trim_of_labels :
    (value : Codes) (labels : List Codes)
    → labels ≢ []
    → All IsLabel labels
    → (value ≡ join_labels labels) ⊎ (value ≡ join_labels labels ++ b'.' ∷ [])
    → trim_suffix b'.' value ≡ join_labels labels
trim_of_labels value labels some_label valid (inl e) =
    ap (trim_suffix b'.') e
    ∙ trim_suffix_same b'.' _ (ends_with-join_labels labels some_label valid)
trim_of_labels value labels some_label valid (inr e) =
    ap (trim_suffix b'.') e ∙ trim_suffix-append b'.' (join_labels labels)

-- `validDomainName` accepts exactly the texts of at most 253 bytes that are one or more labels with
-- dots between them and perhaps one dot behind, each label of 1 to 63 letters, digits, `-`, `_` and
-- `*` with no dash at its ends.
pub valid_domain_name_iff : (value : Codes) → (valid_domain_name value ≡ true) ↔ IsDomainName value
valid_domain_name_iff value = (
  λ h.
      let (size, rest) = (valid_domain_name-trim_iff value).0 h in
      let (labels, some_label, valid, e) = (trimmed_iff _).0 rest in
      (size, (labels, some_label, valid, labels_of_trim value labels e)),
  λ (size, (labels, some_label, valid, spelled)).
      let e = trim_of_labels value labels some_label valid spelled in
      (valid_domain_name-trim_iff value).1 (size, (trimmed_iff _).1 (labels, some_label, valid, e)),
)
