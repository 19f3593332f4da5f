-- ===== src/Router/Cidrs/Laws.antt =====
-- Families of prefixes, and the names of nftables sets.
use Prim.Native.Char.{Char}
use text.Mathlib.TextLemmas.{nil-append, cons-append, append_assoc}
use las.Prelude.{
  ℕ, String, Bool, true, false, Option, none, some, List, [], ◌∷◌, Any, All, not, All-append, code,
  codes, codes-append, is_digit, in_range, ◌<>◌, ◌≡◌, refl, sym, ◌∙◌, ap, ◌↔◌, ◌⊎◌, inl, inr,
  Bool-cases, if◌then◌else◌,
}
use mathlib.Core.Path.{subst}
use las.Net.{v4, v6, Addr, Prefix, parse_prefix, is4, is6}
use las.Router.Cidrs.{place, split_cidrs, mask, lead, is_name_code, nft_identifier}

-- What was parsed is a prefix of the family.
abbrev pub Fits : (Addr → Bool) → Option Prefix → Type 0
Fits family none = ⊥
Fits family (some p) = family p.addr ≡ true

abbrev pub IsV4 : String → Type 0
IsV4 v = Fits is4 (parse_prefix v)

abbrev pub IsV6 : String → Type 0
IsV6 v = Fits is6 (parse_prefix v)

abbrev pub IsIn : List String → String → Type 0
IsIn xs v = Any (λ (x : String). x ≡ v) xs

abbrev mask_code : Char → String
mask_code c = if is_name_code (code c) then String.◌∷◌ c "" else "_"

mask-append : (a b : String) → mask (a <> b) ≡ mask a <> mask b
unfolding mask
mask-append String.[] b = ap mask (nil-append b) ∙ sym (nil-append (mask b))
mask-append (String.◌∷◌ c s) b =
    ap mask (cons-append c s b)
    ∙ ap (λ r. mask_code c <> r) (mask-append s b)
    ∙ sym (append_assoc (mask_code c) (mask s) (mask b))

mask_between : (a b x y : String) → mask x ≡ mask y → mask (a <> x <> b) ≡ mask (a <> y <> b)
mask_between a b x y e =
    mask-append (a <> x) b
    ∙ ap (λ r. r <> mask b) (mask-append a x)
    ∙ ap (λ m. mask a <> m <> mask b) e
    ∙ sym (ap (λ r. r <> mask b) (mask-append a y))
    ∙ sym (mask-append (a <> y) b)

dash-underscore : mask "-" ≡ mask "_"
unfolding mask
dash-underscore = refl

-- Route sets whose identifiers differ only in that one has a dash where the other has an underscore
-- have the same name in the nftables table.
pub nft_identifier-dash :
    (a b : String) → nft_identifier (a <> "-" <> b) ≡ nft_identifier (a <> "_" <> b)
unfolding nft_identifier
nft_identifier-dash a b = ap lead (mask_between a b "-" "_" dash-underscore)

-- A name of nftables: letters, digits and underscores, not empty, with no digit in front.
abbrev pub IsSetName : List ℕ → Type 0
IsSetName [] = ⊥
IsSetName (c ∷ s) = (is_digit c ≡ false) × All (λ k. is_name_code k ≡ true) (c ∷ s)

mask_code-All : (c : Char) → All (λ k. is_name_code k ≡ true) (codes (mask_code c))
mask_code-All c = elim (Bool-cases (is_name_code (code c))) [
  | inl e ↦ rw e (e, tt)
  | inr e ↦ rw e (refl, tt)
]

mask-All : (s : String) → All (λ k. is_name_code k ≡ true) (codes (mask s))
unfolding mask
mask-All String.[] = tt
mask-All (String.◌∷◌ c s) = rw (codes-append (mask_code c) (mask s)) (
    (All-append (λ k. is_name_code k ≡ true) (codes (mask_code c)) (codes (mask s))).1
      (mask_code-All c, mask-All s))

lead-IsSetName :
    (s : String) → All (λ k. is_name_code k ≡ true) (codes s) → IsSetName (codes (lead s))
unfolding lead
lead-IsSetName String.[] h =
    (refl, (refl, (refl, (refl, (refl, (refl, (refl, (refl, (refl, tt)))))))))
lead-IsSetName (String.◌∷◌ c s) h = elim (Bool-cases (in_range b'0' b'9' (code c))) [
  | inl e ↦ rw (e, codes-append "rs_" (String.◌∷◌ c s)) (refl, (refl, (refl, (refl, h))))
  | inr e ↦ rw e (e, h)
]

-- The name of a route set in the nftables table is one of letters, digits and underscores that does
-- not begin with a digit, whatever the identifier.
pub nft_identifier-IsSetName : (value : String) → IsSetName (codes (nft_identifier value))
unfolding nft_identifier
nft_identifier-IsSetName value = lead-IsSetName (mask value) (mask-All value)

is6-is4 : (a : Addr) → is6 a ≡ not (is4 a)
is6-is4 (v4 _) = refl
is6-is4 (v6 _ _) = refl

module _ (value v : String) (v4s v6s : List String) where
  placed_v4 :
      (o : Option Prefix)
      → IsIn (place o value (v4s, v6s)).0 v ↔ (IsIn v4s v ⊎ ((value ≡ v) × Fits is4 o))
  unfolding place
  placed_v4 none = (λ h. inl h, λ h. elim h [ inl i ↦ i | inr (_, f) ↦ absurd f ])
  placed_v4 (some p) = elim (Bool-cases (is4 p.addr)) [
    | inl e ↦ rw e (
      λ h. elim h [ inl i ↦ inr (i, refl) | inr i ↦ inl i ],
      λ h. elim h [ inl i ↦ inr i | inr (i, _) ↦ inl i ],
    )
    | inr e ↦ rw e (λ h. inl h, λ h. elim h [ inl i ↦ i | inr (_, f) ↦ cc ])
  ]

  placed_v6 :
      (o : Option Prefix)
      → IsIn (place o value (v4s, v6s)).1 v ↔ (IsIn v6s v ⊎ ((value ≡ v) × Fits is6 o))
  unfolding place
  placed_v6 none = (λ h. inl h, λ h. elim h [ inl i ↦ i | inr (_, f) ↦ absurd f ])
  placed_v6 (some p) = elim (Bool-cases (is4 p.addr)) [
    | inl e ↦ rw (is6-is4 p.addr, e) (λ h. inl h, λ h. elim h [ inl i ↦ i | inr (_, f) ↦ cc ])
    | inr e ↦
        rw (is6-is4 p.addr, e)
          (
            λ h. elim h [ inl i ↦ inr (i, refl) | inr i ↦ inl i ],
            λ h. elim h [ inl i ↦ inr i | inr (i, _) ↦ inl i ],
          )
  ]

extend :
    {X Y I : Type 0} (P : String → Type 0) (value v : String)
    → X ↔ (Y ⊎ ((value ≡ v) × P value))
    → Y ↔ (I × P v)
    → X ↔ (((value ≡ v) ⊎ I) × P v)
extend P value v (f, g) (h, k) = (
  λ x. elim (f x) [ inl y ↦ let (i, p) = h y in (inr i, p) | inr (e, p) ↦ (inl e, subst P e p) ],
  λ (s, p). elim s [ inl e ↦ g (inr (e, subst P (sym e) p)) | inr i ↦ g (inl (k (i, p))) ],
)

-- The two lists hold the IPv4 prefixes and the IPv6 prefixes of the values, and nothing else.
pub split_cidrs_iff :
    (values : List String) (v : String)
    → (IsIn (split_cidrs values).0 v ↔ (IsIn values v × IsV4 v))
      × (IsIn (split_cidrs values).1 v ↔ (IsIn values v × IsV6 v))
unfolding split_cidrs
split_cidrs_iff [] v = ((λ h. absurd h, λ h. h.0), (λ h. absurd h, λ h. h.0))
split_cidrs_iff (value ∷ values) v =
    let (four, six) = split_cidrs_iff values v in
    let (v4s, v6s) = split_cidrs values in
    (
      extend (λ x. IsV4 x) value v (placed_v4 value v v4s v6s (parse_prefix value)) four,
      extend (λ x. IsV6 x) value v (placed_v6 value v v4s v6s (parse_prefix value)) six,
    )
