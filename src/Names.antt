-- ===== src/Names.antt =====
-- The texts that internal/config/validate.go accepts: identifiers, host names, CIDRs and resolvers.
pub mod Laws
pub mod Domains
mod Tests
use las.Prelude.{
  ℕ, ◌+◌, ◌-◌, String, Bool, true, false, not, ◌&&◌, ◌||◌, Option, none, some, List, [], ◌∷◌, Codes,
  codes, byte_len, in_range, is_digit, is_letter, all_codes, has_code, cut_first, is_empty, ltb,
  leb, ◌==◌, str_eq, if◌then◌else◌, length,
}
use las.Net.{parse_ip, parse_prefix, split_host_port}
use las.Errors.{errorf, parse_error, Check, Result, ok, err, ◌>>=◌, ◌>>◌, fail_if}

-- `net.ParseIP(value) != nil`
unfoldable pub is_ip : String → Bool
is_ip value = parse_ip (codes value)

abbrev pub is_identifier_code : ℕ → Bool
is_identifier_code c = is_letter c || is_digit c || c == b'_' || c == b'.' || c == b':' || c == b'-'

-- `identifierRE`: a letter or digit, then at most 63 characters of the class.
pub matches_identifier : Codes → Bool
matches_identifier [] = false
matches_identifier (c ∷ s) =
    (is_letter c || is_digit c) && all_codes is_identifier_code s && leb (length s) 63

unfoldable pub is_identifier : String → Bool
unfolding matches_identifier
is_identifier value = matches_identifier (codes value)

unfoldable pub validate_cidr : String → Check
validate_cidr value = do
  fail_if (str_eq value "") (errorf "empty CIDR" [])
  elim (parse_prefix value) [ none ↦ err (parse_error value) | some _ ↦ ok tt ]

-- `strings.Split` of the code points at a separator.
unfoldable pub split : ℕ → Codes → List Codes
split sep [] = [] ∷ []
split sep (c ∷ s) = elim (split sep s) [
  | [] ↦ []
  | part ∷ parts ↦ if c == sep then [] ∷ part ∷ parts else (c ∷ part) ∷ parts
]

abbrev pub ends_with : ℕ → Codes → Bool
ends_with a [] = false
ends_with a (c ∷ []) = c == a
ends_with a (c ∷ d ∷ s) = ends_with a (d ∷ s)

-- `strings.TrimSuffix` of one character.
unfoldable pub trim_suffix : ℕ → Codes → Codes
trim_suffix a [] = []
trim_suffix a (c ∷ []) = if c == a then [] else c ∷ []
trim_suffix a (c ∷ d ∷ s) = c ∷ trim_suffix a (d ∷ s)

abbrev pub is_label_code : ℕ → Bool
is_label_code c = is_letter c || is_digit c || c == b'-' || c == b'_' || c == b'*'

-- The body of the loop over the labels.
unfoldable pub valid_label : Codes → Bool
valid_label [] = false
valid_label (c ∷ s) =
    not (ltb 63 (byte_len (c ∷ s)))
    && not (c == b'-' || ends_with b'-' (c ∷ s))
    && all_codes is_label_code (c ∷ s)

unfoldable pub all_labels : List Codes → Bool
all_labels [] = true
all_labels (label ∷ labels) = valid_label label && all_labels labels

-- `validDomainName`, over the code points of its argument.
unfoldable pub valid_domain_name : Codes → Bool
unfolding split trim_suffix valid_label all_labels
valid_domain_name value =
    if is_empty value || ltb 253 (byte_len value)
    then false
    else let trimmed = trim_suffix b'.' value in
      if is_empty trimmed then false else all_labels (split b'.' trimmed)

unfoldable pub valid_hostname : Codes → Bool
unfolding valid_domain_name
valid_hostname = valid_domain_name

-- `strings.TrimPrefix`.
pub trim_prefix : Codes → Codes → Option Codes
trim_prefix [] s = some s
trim_prefix (p ∷ ps) [] = none
trim_prefix (p ∷ ps) (c ∷ s) = if p == c then trim_prefix ps s else none

abbrev is_bracket : ℕ → Bool
is_bracket c = c == b'[' || c == b']'

-- `strings.Trim(s, "[]")`.
trim_left : Codes → Codes
trim_left [] = []
trim_left (c ∷ s) = let rest = trim_left s in if is_bracket c then rest else c ∷ s

trim_right : Codes → Codes
trim_right [] = []
trim_right (c ∷ s) = elim (trim_right s) [
  | [] ↦ if is_bracket c then [] else c ∷ []
  | d ∷ t ↦ c ∷ d ∷ t
]

abbrev trim_brackets : Codes → Codes
trim_brackets s = trim_right (trim_left s)

-- `strings.ToUpper`, as far as the result can be one of the record types: the characters whose
-- upper case is ASCII are the small letters, the dotless i and the long s.
upper : ℕ → ℕ
upper c =
    if in_range b'a' b'z' c
    then c - 32
    else if c == 0x131
    then b'I'
    else if c == 0x17f
    then b'S'
    else c

unfoldable pub to_upper : Codes → Codes
unfolding upper
to_upper [] = []
to_upper (c ∷ s) = upper c ∷ to_upper s

abbrev pub same_codes : Codes → Codes → Bool
same_codes [] [] = true
same_codes [] (d ∷ t) = false
same_codes (c ∷ s) [] = false
same_codes (c ∷ s) (d ∷ t) = c == d && same_codes s t

-- The host that `validateResolver` looks at.
unfoldable pub resolver_host : Codes → Codes
unfolding trim_prefix trim_left trim_right cut_first split_host_port
resolver_host value =
    let bare : Codes = elim (trim_prefix (codes "tls://") value) [
      | none ↦ value
      | some rest ↦ rest
    ] in
    let named : Codes = if has_code b'#' bare then (cut_first b'#' bare).0 else bare in
    let host : Codes = elim (split_host_port named) [
      | none ↦ named
      | some parsed ↦ trim_brackets parsed
    ] in
    trim_brackets (if has_code b':' named then host else named)

unfoldable pub validate_resolver : String → Check
validate_resolver value = do
  fail_if (str_eq value "") (errorf "empty resolver" [])
  let host = resolver_host (codes value)
  fail_if (not (parse_ip host || valid_domain_name host))
      (errorf "expected IP address or DNS hostname" [])
