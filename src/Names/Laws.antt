-- ===== src/Names/Laws.antt =====
-- What the tests of names accept.
use las.Names.{
  valid_domain_name, resolver_host, parse_ip, same_codes, validate_resolver, is_identifier_code,
  matches_identifier, is_identifier, validate_cidr,
}
use las.Prelude.{
  ℕ, ◌≤◌, String, Bool, true, none, some, [], ◌∷◌, Codes, codes, ◌≡◌, ◌≢◌, ◌↔◌, ◌⊎◌, inl, inr, refl,
  arith, All, length, all_codes, eq_iff, Option-cases,
}
use las.Net.{Prefix, parse_prefix}
use las.Errors.{Passes, ◌>>◌, fail_if}

abbrev pub IsAlnum : ℕ → Type 0
IsAlnum c = ((b'A' ≤ c) × (c ≤ b'Z')) ⊎ ((b'a' ≤ c) × (c ≤ b'z')) ⊎ ((b'0' ≤ c) × (c ≤ b'9'))

abbrev pub IsIdentifierCode : ℕ → Type 0
IsIdentifierCode c = IsAlnum c ⊎ (c ≡ b'_') ⊎ (c ≡ b'.') ⊎ (c ≡ b':') ⊎ (c ≡ b'-')

-- A letter or a digit, then at most 63 letters, digits and `_.:-`.
abbrev pub IsIdentifierText : Codes → Type 0
IsIdentifierText [] = ⊥
IsIdentifierText (c ∷ s) = IsAlnum c × All IsIdentifierCode s × (length s ≤ 63)

abbrev pub IsIdentifier : String → Type 0
IsIdentifier value = IsIdentifierText (codes value)

pub all_codes_iff :
    (p : ℕ → Bool) (P : ℕ → Type 0)
    → ((c : ℕ) → (p c ≡ true) ↔ P c)
    → (s : Codes) → (all_codes p s ≡ true) ↔ All P s
all_codes_iff p P h [] = (λ _. tt, λ _. refl)
all_codes_iff p P h (c ∷ s) = ground (arith, h c, all_codes_iff p P h s)

IsIdentifierCode-iff : (c : ℕ) → (is_identifier_code c ≡ true) ↔ IsIdentifierCode c
IsIdentifierCode-iff c = ground arith

matches_identifier_iff : (s : Codes) → (matches_identifier s ≡ true) ↔ IsIdentifierText s
unfolding matches_identifier
matches_identifier_iff [] = ground arith
matches_identifier_iff (c ∷ s) = ground (arith, all_codes_iff _ _ IsIdentifierCode-iff s)

-- The identifiers are a letter or digit and at most 63 characters of the class behind it.
pub is_identifier_iff : (value : String) → (is_identifier value ≡ true) ↔ IsIdentifier value
unfolding is_identifier
is_identifier_iff value = matches_identifier_iff (codes value)

abbrev pub IsCidr : String → Type 0
IsCidr value = (p : Prefix) × (parse_prefix value ≡ some p)

parse_prefix-empty : parse_prefix "" ≡ none
unfolding parse_prefix
parse_prefix-empty = refl

pub validate_cidr_iff : (value : String) → Passes (validate_cidr value) ↔ IsCidr value
unfolding validate_cidr ◌>>◌ fail_if
validate_cidr_iff value = elim (Option-cases (parse_prefix value)) [
  | inl e ↦ ground (arith, e)
  | inr (p, e) ↦ (λ _. (p, e), λ _. ground (arith, e, eq_iff value "", parse_prefix-empty))
]

-- A host that `validateResolver` finds in the text is an address or a domain name.
abbrev pub IsResolver : String → Type 0
IsResolver value =
    (value ≢ "")
    × ((parse_ip (resolver_host (codes value)) ≡ true)
        ⊎ (valid_domain_name (resolver_host (codes value)) ≡ true))

pub validate_resolver_iff : (value : String) → Passes (validate_resolver value) ↔ IsResolver value
unfolding validate_resolver ◌>>◌ fail_if
validate_resolver_iff value = ground (arith, eq_iff value "")

pub same_codes_iff : (s t : Codes) → (same_codes s t ≡ true) ↔ (s ≡ t)
same_codes_iff [] [] = ground arith
same_codes_iff [] (d ∷ t) = ground arith
same_codes_iff (c ∷ s) [] = ground arith
same_codes_iff (c ∷ s) (d ∷ t) = ground (arith, same_codes_iff s t)

pub identifier-ne-empty : (value : String) → IsIdentifier value → value ≢ ""
identifier-ne-empty value h e = rw e at h
