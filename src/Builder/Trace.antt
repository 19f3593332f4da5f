-- ===== src/Builder/Trace.antt =====
-- What internal/router/builder.go does to a plan and to a `strings.Builder`: the calls and the
-- pieces of text that a function makes, in their order.
use las.Prelude.{
  ℤ, pos, String, Bool, true, false, not, List, [], ◌∷◌, ◌++◌, join, str_eq, int_lt, int_eq, ◌<>◌,
}
use las.Errors.{Arg}
use las.Control.{Plan, add_command, add_write, add_warning}

-- `plan.AddCommand`, `plan.AddWrite` and `plan.AddWarning` with their arguments.
pub data Call : Type 0 where
  command : String → String → List String → Call
  write : String → String → String → String → Call
  warning : String → List Arg → Call

abbrev pub Calls : Type 0
Calls = List Call

unfoldable pub apply_call : Plan → Call → Plan
apply_call plan (command description program args) = add_command plan description program args
apply_call plan (write description path mode content) = add_write plan description path mode content
apply_call plan (warning format args) = add_warning plan format args

-- The plan after the calls.
unfoldable pub apply_calls : Plan → Calls → Plan
unfolding apply_call
apply_calls plan [] = plan
apply_calls plan (call ∷ calls) = apply_calls (apply_call plan call) calls

module _ {ℓ} {A : Type ℓ} where
  -- `if test { … }`
  unfoldable pub only_if : Bool → List A → List A
  only_if true xs = xs
  only_if false xs = []

  -- One call, or one piece of text.
  abbrev pub one : A → List A
  one x = x ∷ []

module _ {ℓ κ} {A : Type ℓ} {B : Type κ} where
  -- `for _, x := range xs { … }`
  unfoldable pub for_each : List A → (A → List B) → List B
  for_each [] f = []
  for_each (x ∷ xs) f = f x ++ for_each xs f

-- `value != ""` and `n > 0` and `n == 0`
abbrev pub has_text : String → Bool
has_text s = not (str_eq s "")

abbrev pub is_positive : ℤ → Bool
is_positive n = int_lt (pos 0) n

abbrev pub is_zero : ℤ → Bool
is_zero n = int_eq n (pos 0)

-- `b.WriteString(s + "\n")`
abbrev pub line : String → List String
line s = (s <> "\n") ∷ []

-- `b.String()`
unfoldable pub built : List String → String
built pieces = join pieces ""

-- A value, or what stands for the empty text or for zero.
abbrev pub or_text : String → String → String
or_text s fallback = elim (str_eq s "") [ true ↦ fallback | false ↦ s ]

abbrev pub or_number : ℤ → ℤ → ℤ
or_number n fallback = elim (int_eq n (pos 0)) [ true ↦ fallback | false ↦ n ]
