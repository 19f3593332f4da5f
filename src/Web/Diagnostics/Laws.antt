-- ===== src/Web/Diagnostics/Laws.antt =====
-- Which commands a diagnostics request can start.
use mathlib.Core.Path.{subst}
use las.Fmt.{itoa}
use las.Web.Diagnostics.{
  bounded_count, command_of, web_url, tool_command, diagnostics_command, DiagnosticsRequest,
}
use las.Builder.Options.{trim, is_space}
use las.Prelude.{
  ℤ, pos, Between, String, Bool, true, false, Option, none, some, [], ◌∷◌, str_eq, eq_iff, ◌≡◌, ◌≢◌,
  refl, ◌⊎◌, arith, if◌then◌else◌,
}
use las.Errors.{Error, Result, ok, err}
use las.Control.{Command}

bounded_count-Between : (n : ℤ) → Between (pos 1) (pos 10) (bounded_count n)
unfolding bounded_count
bounded_count-Between n = ground arith

-- The commands that only look at the network, for a target that is one argument.
pub data IsProbe (parse_url : String → Option (String × String)) (target : String)
    : Command → Type 0 where
  ping :
      (n : ℤ)
      → Between (pos 1) (pos 10) n
      → IsProbe parse_url target
          (record { program = "ping"; args = "-c" ∷ itoa n ∷ "-W" ∷ "3" ∷ target ∷ [] })
  traceroute :
      IsProbe parse_url target (record { program = "traceroute"; args = "-n" ∷ target ∷ [] })
  curl :
      (scheme host : String)
      → parse_url target ≡ some (scheme, host)
      → (scheme ≡ "http") ⊎ (scheme ≡ "https")
      → host ≢ ""
      → IsProbe parse_url target
          (record { program = "curl"; args = "-I" ∷ "--max-time" ∷ "10" ∷ target ∷ [] })
  dig : IsProbe parse_url target (record { program = "dig"; args = "+short" ∷ target ∷ [] })
  route : IsProbe parse_url target (record { program = "ip"; args = "route" ∷ "get" ∷ target ∷ [] })

clash : {b : Bool} → b ≡ false → b ≡ true → ⊥
clash h k = cc

ok-injective : {c d : Command} → ok c ≡ ok d → c ≡ d
ok-injective h = cc

err-clash : {e : Error} {c : Command} → err e ≡ ok c → ⊥
err-clash h = cc

-- What holds of the command if there is one.
data IfOk (P : Command → Type 0) : Result Command → Type 0 where
  of_ok : {c : Command} → P c → IfOk P (ok c)
  of_err : {e : Error} → IfOk P (err e)

IfOk-if :
    (P : Command → Type 0) (b : Bool) (x y : Result Command)
    → (b ≡ true → IfOk P x)
    → (b ≡ false → IfOk P y)
    → IfOk P (if b then x else y)
IfOk-if P true x y h k = h refl
IfOk-if P false x y h k = k refl

IfOk-with :
    {Q : Type 0} (P : Command → Type 0) {r : Result Command} → Q → IfOk P r → IfOk (λ c. Q × P c) r
IfOk-with P q (of_ok p) = of_ok (q, p)
IfOk-with P q of_err = of_err

not_empty : (s : String) → str_eq s "" ≡ false → s ≢ ""
not_empty s h = ground (arith, eq_iff s "", h)

IfOk-ok : (P : Command → Type 0) {r : Result Command} {c : Command} → IfOk P r → r ≡ ok c → P c
IfOk-ok P (of_ok p) h = subst P (ok-injective h) p
IfOk-ok P of_err h = absurd (err-clash h)

web_url-IsWeb :
    (u : Option (String × String))
    → web_url u ≡ true
    → (scheme host : String) × (u ≡ some (scheme, host))
      × ((scheme ≡ "http") ⊎ (scheme ≡ "https"))
      × (host ≢ "")
unfolding web_url
web_url-IsWeb none h = absurd (clash refl h)
web_url-IsWeb (some (scheme, host)) h = (
  scheme,
  host,
  refl,
  ground (arith, eq_iff scheme "http", eq_iff scheme "https", h),
  ground (arith, eq_iff host "", h),
)

module _ (parse_url : String → Option (String × String)) where
  tool_command-IfOk :
      (tool target : String) (n : ℤ)
      → Between (pos 1) (pos 10) n
      → IfOk (IsProbe parse_url target) (tool_command parse_url tool n target)
  unfolding tool_command command_of
  tool_command-IfOk tool target n h =
      let P = IsProbe parse_url target in
      IfOk-if P (str_eq tool "ping") _ _ (λ _. of_ok (ping n h))
        λ _.
          IfOk-if P (str_eq tool "traceroute") _ _ (λ _. of_ok traceroute)
            λ _.
              IfOk-if P (str_eq tool "curl-head") _ _
                (λ _.
                  IfOk-if P (web_url (parse_url target)) _ _
                    (λ w.
                      let (scheme, host, e, s, k) = web_url-IsWeb _ w in
                      of_ok (curl scheme host e s k))
                    (λ _. of_err))
                λ _.
                  IfOk-if P (str_eq tool "dig") _ _ (λ _. of_ok dig)
                    λ _. IfOk-if P (str_eq tool "route") _ _ (λ _. of_ok route) (λ _. of_err)

  -- Whatever is asked for, a command that a diagnostics request starts is one of five probes, its
  -- target is a single argument that is not empty, a `ping` sends 1 to 10 packets, and a `curl` has
  -- a URL of the web with a host.
  pub diagnostics_command-IsProbe :
      (req : DiagnosticsRequest) {c : Command}
      → diagnostics_command parse_url req ≡ ok c
      → (trim is_space req.target ≢ "") × IsProbe parse_url (trim is_space req.target) c
  unfolding diagnostics_command
  diagnostics_command-IsProbe req {c} h =
      let target = trim is_space req.target in
      IfOk-ok (λ c. (target ≢ "") × IsProbe parse_url target c)
        (IfOk-if _ (str_eq target "") _ _ (λ _. of_err)
          (λ e.
            IfOk-with _ (not_empty target e)
              (tool_command-IfOk req.tool target _ (bounded_count-Between req.count))))
        h
