-- ===== src/Prelude/Text.antt =====
-- Go's strings and bytes. A string is a native text; a function that walks one goes over its code
-- points, which are its bytes where the text is ASCII.
use Prim.Native.String
use text.Mathlib.TextLemmas.{nil-append, cons-append}
use mathlib.Core.Path.{◌≡◌, ap, ◌∙◌}
use mathlib.Core.List.{◌++◌, List, [], ◌∷◌}
use Prim.Native.Nat.{ℕ, ◌+◌}
use Prim.Native.Char.{code}
use Prim.Native.String.{String}
use mathlib.Core.Bool.{Bool, true, false, ◌&&◌, ◌||◌}
use mathlib.Core.Option.{Option, none, some}
use las.Prelude.Tests.{ltb, leb, ◌==◌, if◌then◌else◌}

abbrev pub Codes : Type 0
Codes = List ℕ

abbrev pub codes : String → Codes
codes String.[] = []
codes (String.◌∷◌ c s) = code c ∷ codes s

-- The number of bytes of a code point in UTF-8.
abbrev utf8_len : ℕ → ℕ
utf8_len c = if ltb c 0x80 then 1 else if ltb c 0x800 then 2 else if ltb c 0x10000 then 3 else 4

-- `len` of a string.
abbrev pub byte_len : Codes → ℕ
byte_len [] = 0
byte_len (c ∷ s) = utf8_len c + byte_len s

abbrev pub in_range : ℕ → ℕ → ℕ → Bool
in_range lo hi c = leb lo c && leb c hi

abbrev pub is_digit : ℕ → Bool
is_digit = in_range b'0' b'9'

abbrev pub is_letter : ℕ → Bool
is_letter c = in_range b'A' b'Z' c || in_range b'a' b'z' c

abbrev pub all_codes : (ℕ → Bool) → Codes → Bool
all_codes p [] = true
all_codes p (c ∷ s) = p c && all_codes p s

abbrev pub has_code : ℕ → Codes → Bool
has_code a [] = false
has_code a (c ∷ s) = c == a || has_code a s

-- The text before the first `sep`, and the text behind it if there is one.
unfoldable pub cut_first : ℕ → Codes → Codes × Option Codes
cut_first sep [] = ([], none)
cut_first sep (c ∷ s) =
    let (before, after) = cut_first sep s in if c == sep then ([], some s) else (c ∷ before, after)

-- The texts before and behind the last `sep`.
unfoldable pub cut_last : ℕ → Codes → Option (Codes × Codes)
cut_last sep [] = none
cut_last sep (c ∷ s) = elim (cut_last sep s) [
  | some (before, after) ↦ some (c ∷ before, after)
  | none ↦ if c == sep then some ([], s) else none
]

-- The sum of two strings.
infixl 65 ◌<>◌
abbrev pub ◌<>◌ : String → String → String
s <> t = String.◌++◌ s t

-- `strings.Join`
unfoldable pub join : List String → String → String
join [] sep = ""
join (s ∷ []) sep = s
join (s ∷ t ∷ ts) sep = s <> sep <> join (t ∷ ts) sep

pub codes-append : (s t : String) → codes (s <> t) ≡ codes s ++ codes t
codes-append String.[] t = ap codes (nil-append t)
codes-append (String.◌∷◌ c s) t =
    ap codes (cons-append c s t) ∙ ap (λ r. code c ∷ r) (codes-append s t)
