-- ===== src/Fmt.antt =====
-- Go's `fmt.Sprintf` and `strconv.Itoa`, for the verbs that the program's formats use: `%s`, `%d`,
-- `%q`, `%x`, `%w` and `%%`. A format with fewer arguments than verbs shows Go's `%!v(MISSING)`.
mod Tests
use Prim.Native.Char.{Char}
use las.Prelude.{
  ℕ, zero, suc, ◌+◌, ◌-◌, ◌/◌, ◌%◌, ℤ, pos, negsuc, String, code, ltb, ◌==◌, ◌||◌, ◌<>◌, List, [],
  ◌∷◌, if◌then◌else◌,
}
use las.Errors.{Arg, str, int}

nth_text : List String → ℕ → String
nth_text [] i = ""
nth_text (s ∷ ss) zero = s
nth_text (s ∷ ss) (suc i) = nth_text ss i

digit : ℕ → String
unfolding nth_text
digit = nth_text (
    "0" ∷ "1" ∷ "2" ∷ "3" ∷ "4" ∷ "5" ∷ "6" ∷ "7" ∷ "8" ∷ "9" ∷ "a" ∷ "b" ∷ "c" ∷ "d" ∷ "e" ∷ "f"
    ∷ [])

-- The digits of `n` before `tail`. A number has at most as many digits as rounds, `suc n`.
digits_from : ℕ → ℕ → ℕ → String → String
unfolding digit
digits_from base zero n tail = tail
digits_from base (suc fuel) n tail = elim (n / base) [
  | zero ↦ digit (n % base) <> tail
  | suc q ↦ digits_from base fuel (suc q) (digit (n % base) <> tail)
]

unfoldable pub format_nat : ℕ → ℕ → String
unfolding digits_from
format_nat base n = digits_from base (suc n) n ""

unfoldable pub format_int : ℕ → ℤ → String
unfolding format_nat
format_int base (pos n) = format_nat base n
format_int base (negsuc n) = "-" <> format_nat base (suc n)

unfoldable pub itoa : ℤ → String
unfolding format_int
itoa = format_int 10

-- One character of `strconv.Quote`. A character that is not ASCII stands for itself: those that Go
-- holds for unprintable are left out.
quote_char : Char → String
unfolding digit
quote_char c =
    let n = code c in
    if n == b'"' || n == b'\\'
    then "\\" <> String.◌∷◌ c ""
    else if n == 7
    then "\\a"
    else if n == 8
    then "\\b"
    else if n == 12
    then "\\f"
    else if n == 10
    then "\\n"
    else if n == 13
    then "\\r"
    else if n == 9
    then "\\t"
    else if n == 11
    then "\\v"
    else if ltb n 32 || n == 127
    then "\\x" <> digit (n / 16) <> digit (n % 16)
    else String.◌∷◌ c ""

quote_chars : String → String
quote_chars String.[] = ""
quote_chars (String.◌∷◌ c s) = quote_char c <> quote_chars s

unfoldable pub quote : String → String
unfolding quote_char quote_chars
quote s = "\"" <> quote_chars s <> "\""

render : ℕ → Arg → String
unfolding quote itoa
render verb (str s) = if verb == b'q' then quote s else s
render verb (int n) = if verb == b'x' then format_int 16 n else itoa n

-- What a verb prints, and the arguments that are left.
directive : Char → List Arg → String × List Arg
unfolding render
directive v args = if code v == b'%' then ("%", args) else elim args [
  | [] ↦ ("%!" <> String.◌∷◌ v "(MISSING)", [])
  | a ∷ rest ↦ (render (code v) a, rest)
]

unfoldable pub sprintf : String → List Arg → String
unfolding directive
sprintf String.[] args = ""
sprintf (String.◌∷◌ c String.[]) args = if code c == b'%' then "%!(NOVERB)" else String.◌∷◌ c ""
sprintf (String.◌∷◌ c (String.◌∷◌ v s)) args =
    let (text, rest) = directive v args in
    let after = text <> sprintf s rest in
    let plain = String.◌∷◌ c "" <> sprintf (String.◌∷◌ v s) args in
    if code c == b'%' then after else plain
