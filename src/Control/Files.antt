-- ===== src/Control/Files.antt =====
-- internal/control/executor.go: `writeFile`, which replaces a file by a temporary one.
pub mod Atomic
pub mod Success
use las.Prelude.{
  ℕ, ◌+◌, ◌-◌, ◌*◌, ◌^◌, String, Bool, true, false, Option, none, some, List, [], ◌∷◌, Codes, codes,
  in_range, ltb, str_eq, if◌then◌else◌,
}
use las.Errors.{str}
use las.Fmt.{sprintf, format_nat}
use las.Os.{Os, Outcome, done, failed, after}

-- The errors of `strconv.ParseUint`.
abbrev num_error : String → String → Outcome ℕ
num_error text reason =
    failed (sprintf "strconv.ParseUint: parsing %q: %s" (str text ∷ str reason ∷ []))

-- The loop of `strconv.ParseUint(text, 8, 32)`.
octal_digits : String → Codes → ℕ → Outcome ℕ
octal_digits text [] n = done n
octal_digits text (c ∷ s) n =
    let n' = n * 8 + (c - b'0') in
    let more = octal_digits text s n' in
    if in_range b'0' b'7' c
    then if ltb n' (2 ^ 32) then more else num_error text "value out of range"
    else num_error text "invalid syntax"

pub parse_octal : String → Outcome ℕ
unfolding octal_digits
parse_octal text = octal_digits text (codes text) 0

-- The mode that is handed to `chmod`, in octal. `os.FileMode(0o600)` is the default.
unfoldable pub file_mode : String → Outcome String
unfolding parse_octal
file_mode mode_text = if str_eq mode_text "" then done "600" else elim (parse_octal mode_text) [
  | failed e ↦ failed (sprintf "parse mode %q: %w" (str mode_text ∷ str e ∷ []))
  | done n ↦ done (format_nat 8 n)
]

-- `fmt.Errorf(format, path, err)`
abbrev pub describe : String → String → String → String
describe format path e = sprintf format (str path ∷ str e ∷ [])

module _ (os : Os) where
  -- From the temporary file on. The deferred removal is made on every way out.
  unfoldable pub fill_and_rename :
      String → String → String → String → os.State → os.State × Outcome (Unit {0})
  fill_and_rename name path mode content s =
      after (os.write name content s)
        (λ e s. (
          (os.remove name (os.close name s).0).0,
          failed (describe "write temp file for %s: %w" path e),
        ))
        λ _ s.
          after (os.chmod name mode s)
            (λ e s. (
              (os.remove name (os.close name s).0).0,
              failed (describe "chmod temp file for %s: %w" path e),
            ))
            λ _ s.
              after (os.close name s)
                (λ e s.
                  ((os.remove name s).0, failed (describe "close temp file for %s: %w" path e)))
                λ _ s.
                  after (os.rename name path s)
                    (λ e s. ((os.remove name s).0, failed (describe "replace %s: %w" path e)))
                    λ _ s. ((os.remove name s).0, done tt)

  unfoldable pub write_file : String → String → String → os.State → os.State × Outcome (Unit {0})
  write_file path mode_text content s =
      after (s, file_mode mode_text) (λ e s. (s, failed e))
        λ mode s.
          after (os.mkdir_all path s)
            (λ e s. (s, failed (describe "create parent for %s: %w" path e)))
            λ _ s.
              after (os.create_temp path s)
                (λ e s. (s, failed (describe "create temp file for %s: %w" path e)))
                λ name s. fill_and_rename name path mode content s
