-- ===== src/Builder/Options.antt =====
-- internal/router/builder.go: options of a tunnel, endpoints, paths and shell words.
mod Tests
pub mod Words
use Prim.Native.Char.{Char}
use las.Prelude.{
  ℕ, String, Bool, true, false, not, ◌||◌, ◌&&◌, ◌==◌, Option, none, some, List, [], ◌∷◌, ◌++◌, map,
  code, in_range, ◌<>◌, join, str_eq, if◌then◌else◌, codes, ◌+◌,
}
use las.Fmt.{quote}
use las.Names.{same_codes}
use las.Control.{all_plain, replace_quotes}
use las.Builder.Trace.{has_text, or_text}

-- `options[key]`: the empty text for a key that is not there.
unfoldable pub option : List (String × String) → String → String
option [] key = ""
option ((k, v) ∷ rest) key = let more = option rest key in if str_eq k key then v else more

unfoldable pub option_default : List (String × String) → String → String → String
option_default options key fallback = or_text (option options key) fallback

-- The text of one character.
abbrev char_text : Char → String
char_text c = String.◌∷◌ c ""

-- `strings.TrimPrefix`
unfoldable pub without_prefix : String → String → String → String
without_prefix String.[] s whole = s
without_prefix (String.◌∷◌ p ps) String.[] whole = whole
without_prefix (String.◌∷◌ p ps) (String.◌∷◌ c s) whole =
    let more = without_prefix ps s whole in if code p == code c then more else whole

abbrev pub trim_prefix : String → String → String
trim_prefix prefix s = without_prefix prefix s s

-- `strings.HasPrefix(s, prefix)`
unfoldable pub has_prefix : String → String → Bool
has_prefix String.[] s = true
has_prefix (String.◌∷◌ p ps) String.[] = false
has_prefix (String.◌∷◌ p ps) (String.◌∷◌ c s) = code p == code c && has_prefix ps s

-- The text before the first `sep`, and the text behind it; all of it and nothing if there is none.
unfoldable pub cut : ℕ → String → String × String
cut sep String.[] = ("", "")
cut sep (String.◌∷◌ c s) =
    let (before, after) = cut sep s in
    if code c == sep then ("", s) else (char_text c <> before, after)

-- `strings.Count(s, sep)`, of one character.
unfoldable pub occurrences : ℕ → String → ℕ
occurrences sep String.[] = 0
occurrences sep (String.◌∷◌ c s) =
    let more = occurrences sep s in if code c == sep then more + 1 else more

-- `strings.TrimLeftFunc` and `strings.TrimRightFunc`.
unfoldable pub trim_left : (ℕ → Bool) → String → String
trim_left p String.[] = ""
trim_left p (String.◌∷◌ c s) =
    let more = trim_left p s in if p (code c) then more else String.◌∷◌ c s

unfoldable pub trim_right : (ℕ → Bool) → String → String
trim_right p String.[] = ""
trim_right p (String.◌∷◌ c s) =
    let more = trim_right p s in if p (code c) && str_eq more "" then "" else char_text c <> more

abbrev pub trim : (ℕ → Bool) → String → String
trim p s = trim_right p (trim_left p s)

abbrev pub is_bracket : ℕ → Bool
is_bracket c = c == b'[' || c == b']'

-- `unicode.IsSpace`
abbrev pub is_space : ℕ → Bool
is_space c =
    in_range 9 13 c
    || c == 32
    || c == 0x85
    || c == 0xa0
    || c == 0x1680
    || in_range 0x2000 0x200a c
    || c == 0x2028
    || c == 0x2029
    || c == 0x202f
    || c == 0x205f
    || c == 0x3000

unfoldable pub endpoint_host_port : String → String × String
unfolding without_prefix cut occurrences trim_left trim_right
endpoint_host_port endpoint =
    let bare = trim_prefix "http://" (trim_prefix "https://" endpoint) in
    let value = (cut b'/' bare).0 in
    if occurrences b':' value == 1 then cut b':' value else (trim is_bracket value, "")

abbrev pub is_list_separator : ℕ → Bool
is_list_separator c = c == b',' || c == b';' || c == 10

-- `strings.FieldsFunc`: the runs of characters that are no separators.
fields_from : (ℕ → Bool) → String → String → List String
fields_from p String.[] field = if str_eq field "" then [] else field ∷ []
fields_from p (String.◌∷◌ c s) field =
    let inside = fields_from p s (field <> char_text c) in
    let behind = fields_from p s "" in
    if p (code c) then (if str_eq field "" then behind else field ∷ behind) else inside

kept : List String → List String
kept [] = []
kept (part ∷ parts) =
    let trimmed = trim is_space part in
    let more = kept parts in if str_eq trimmed "" then more else trimmed ∷ more

unfoldable pub option_list : String → List String
unfolding fields_from kept trim_left trim_right
option_list value = if str_eq value "" then [] else kept (fields_from is_list_separator value "")

-- `strings.ToLower`, as far as the result can be one of the words below: no character that is not a
-- letter of ASCII has a lower case among theirs.
lower : ℕ → ℕ
lower c = if in_range b'A' b'Z' c then c + 32 else c

unfoldable pub bool_option : String → Bool
unfolding lower
bool_option value =
    let word = map lower (codes value) in
    same_codes word (codes "1")
    || same_codes word (codes "true")
    || same_codes word (codes "yes")
    || same_codes word (codes "on")
    || same_codes word (codes "enabled")

unfoldable pub systemd_env_line : String → String → String
systemd_env_line key value = key <> "=" <> quote value <> "\n"

-- The text up to the last slash, if there is one.
last_slash : String → Option String
last_slash String.[] = none
last_slash (String.◌∷◌ c s) = elim (last_slash s) [
  | some before ↦ some (char_text c <> before)
  | none ↦ if code c == b'/' then some "" else none
]

unfoldable pub filepath_dir : String → String
unfolding last_slash
filepath_dir path = elim (last_slash path) [ none ↦ "." | some before ↦ or_text before "." ]

unfoldable pub shell_quote : String → String
unfolding all_plain replace_quotes
shell_quote value =
    if str_eq value ""
    then "''"
    else if all_plain value
    then value
    else "'" <> replace_quotes value <> "'"

unfoldable pub join_args : List String → String
join_args args = join (map shell_quote args) " "

unfoldable pub join_command : String → List String → String
join_command program args = join (map shell_quote (program ∷ args)) " "
