-- ===== src/Control/Shell.antt =====
-- The shell text of a command, read by the quoting rules of a POSIX shell.
use Prim.Native.Char.{Char}
use mathlib.Core.List.{append_assoc, append-nil}
use las.Prelude.{
  ℕ, String, Bool, true, false, ◌==◌, Option, none, some, List, [], ◌∷◌, ◌++◌, map, code, Codes,
  codes, codes-append, has_code, ◌<>◌, join, str_eq, eq_iff, if◌then◌else◌, ◌≡◌, ◌≢◌, inl, inr,
  refl, ap, ◌∙◌, arith, Bool-cases,
}
use las.Control.{Command, is_plain, all_plain, replace_quotes, shell_quote, command_string}

data Mode : Type 0 where
  bare single double : Mode

-- What a shell gives a meaning to outside quotes, quotes and blanks apart.
abbrev is_special : ℕ → Bool
is_special c = has_code c (codes "|&;<>()$`\\*?[]#~!{}\t\n")

-- The words read so far behind the one that is being read, if there is one.
abbrev close_word : Option Codes → List Codes → List Codes
close_word none words = words
close_word (some word) words = word ∷ words

-- A quote begins a word, or goes on with one.
abbrev begin : Option Codes → Option Codes
begin none = some []
begin (some word) = some word

abbrev extend : Option Codes → Codes → Option Codes
extend none s = some s
extend (some word) s = some (word ++ s)

-- Splits a text into words: blanks part them, single quotes keep all but themselves, and double
-- quotes all but `"`, `$`, a backquote and a backslash. `none` is a text in which a character has
-- another meaning, or a quote that is not closed.
read : Mode → Option Codes → Codes → Option (List Codes)
read bare word [] = some (close_word word [])
read single word [] = none
read double word [] = none
read bare word (c ∷ s) =
    let stop = read bare none s in
    let quoted = read single (begin word) s in
    let held = read double (begin word) s in
    let more = read bare (extend word (c ∷ [])) s in
    if c == b' '
    then elim stop [ none ↦ none | some words ↦ some (close_word word words) ]
    else if c == b'\''
    then quoted
    else if c == b'"'
    then held
    else if is_special c
    then none
    else more
read single word (c ∷ s) =
    let close = read bare word s in
    let more = read single (extend word (c ∷ [])) s in if c == b'\'' then close else more
read double word (c ∷ s) =
    let close = read bare word s in
    let more = read double (extend word (c ∷ [])) s in
    if c == b'"' then close else if has_code c (codes "$`\\") then none else more

-- The words of a shell text.
pub shell_words : Codes → Option (List Codes)
unfolding read
shell_words = read bare none

module _ (rest : Codes) where
  read_plain :
      (c : ℕ) (word : Option Codes)
      → is_plain c ≡ true
      → read bare word (c ∷ rest) ≡ read bare (extend word (c ∷ [])) rest
  unfolding read
  read_plain c word h = ground arith

read-all_plain :
    (s : String) (word : Codes) (rest : Codes)
    → all_plain s ≡ true
    → read bare (some word) (codes s ++ rest) ≡ read bare (some (word ++ codes s)) rest
unfolding all_plain
read-all_plain String.[] word rest h = rw append-nil
read-all_plain (String.◌∷◌ c s) word rest h =
    read_plain (codes s ++ rest) (code c) (some word) (ground arith)
    ∙ read-all_plain s (word ++ code c ∷ []) rest (ground arith)
    ∙ ap (λ w. read bare (some w) rest) (append_assoc word (code c ∷ []) (codes s))

-- What stands for a character between single quotes.
abbrev hidden : ℕ → Codes
hidden n = if n == b'\'' then codes "'\"'\"'" else n ∷ []

replace_quotes-cons :
    (c : Char) (s : String)
    → codes (replace_quotes (String.◌∷◌ c s)) ≡ hidden (code c) ++ codes (replace_quotes s)
unfolding replace_quotes
replace_quotes-cons c s = elim (Bool-cases (code c == b'\'')) [
  | inl e ↦ rw e (codes-append "'\"'\"'" (replace_quotes s))
  | inr e ↦ rw e (codes-append (String.◌∷◌ c "") (replace_quotes s))
]

read-hidden :
    (n : ℕ) (word t : Codes)
    → read single (some word) (hidden n ++ t) ≡ read single (some (word ++ n ∷ [])) t
unfolding read
read-hidden n word t = ground arith

-- A quoted text up to its closing quote.
read-replace_quotes :
    (s : String) (word : Codes) (rest : Codes)
    → read single (some word) (codes (replace_quotes s) ++ b'\'' ∷ rest)
      ≡ read bare (some (word ++ codes s)) rest
read-replace_quotes String.[] word rest = unfold replace_quotes read in rw append-nil
read-replace_quotes (String.◌∷◌ c s) word rest =
    rw (replace_quotes-cons, append_assoc, read-hidden)
      (read-replace_quotes s (word ++ code c ∷ []) rest
        ∙ ap (λ w. read bare (some w) rest) (append_assoc word (code c ∷ []) (codes s)))

shell_quote_plain :
    (value : String) → str_eq value "" ≡ false → all_plain value ≡ true → shell_quote value ≡ value
unfolding shell_quote
shell_quote_plain value e p = rw (e, p)

shell_quote_quoted :
    (value : String)
    → str_eq value "" ≡ false
    → all_plain value ≡ false
    → shell_quote value ≡ "'" <> replace_quotes value <> "'"
unfolding shell_quote
shell_quote_quoted value e p = rw (e, p)

read-plain_word :
    (value : String) (rest : Codes)
    → value ≢ ""
    → all_plain value ≡ true
    → read bare none (codes value ++ rest) ≡ read bare (some (codes value)) rest
read-plain_word String.[] rest h p = absurd (h refl)
read-plain_word (String.◌∷◌ c s) rest h p =
    read_plain (codes s ++ rest) (code c) none (unfold all_plain in ground arith)
    ∙ read-all_plain s (code c ∷ []) rest (unfold all_plain in ground arith)

read-quoted_word :
    (value : String) (rest : Codes)
    → read bare none (codes ("'" <> replace_quotes value <> "'") ++ rest)
      ≡ read bare (some (codes value)) rest
read-quoted_word value rest =
    rw (codes-append, codes-append, append_assoc, append_assoc)
      (opened ∙ read-replace_quotes value [] rest)
  where
    opened :
        read bare none (b'\'' ∷ (codes (replace_quotes value) ++ b'\'' ∷ rest))
        ≡ read single (some []) (codes (replace_quotes value) ++ b'\'' ∷ rest)
    opened = unfold read in refl

-- A quoted text is read as one word, whatever follows.
read-shell_quote :
    (value : String) (rest : Codes)
    → read bare none (codes (shell_quote value) ++ rest) ≡ read bare (some (codes value)) rest
read-shell_quote value rest = elim (Bool-cases (str_eq value "")) [
  | inl e ↦ rw ((eq_iff value "").0 e) (unfold shell_quote read in refl)
  | inr e ↦ elim (Bool-cases (all_plain value)) [
    | inl p ↦
        rw (shell_quote_plain value e p)
          (read-plain_word value rest (λ h. cc (e, (eq_iff value "").1 h)) p)
    | inr p ↦ rw (shell_quote_quoted value e p) (read-quoted_word value rest)
  ]
]

next_word :
    (word s : Codes) {words : List Codes}
    → read bare none s ≡ some words
    → read bare (some word) (b' ' ∷ s) ≡ some (word ∷ words)
unfolding read
next_word word s h = rw h

read-join :
    (w : String) (ws : List String)
    → read bare none (codes (join (map shell_quote (w ∷ ws)) " ")) ≡ some (map codes (w ∷ ws))
unfolding join
read-join w [] =
    let e = read-shell_quote w [] in
    rw (← append-nil (codes (shell_quote w))) (e ∙ unfold read in refl)
read-join w (v ∷ ws) =
    let tail = join (map shell_quote (v ∷ ws)) " " in
    rw (codes-append, codes-append, append_assoc)
      (read-shell_quote w (b' ' ∷ codes tail) ∙ next_word (codes w) (codes tail) (read-join v ws))

-- A shell reads the text of a command as its program and its arguments, each one word, whatever
-- characters they hold: nothing in them is given another meaning.
pub shell_words-command_string :
    (c : Command) → shell_words (codes (command_string c)) ≡ some (map codes (c.program ∷ c.args))
unfolding shell_words command_string
shell_words-command_string c = read-join c.program c.args
