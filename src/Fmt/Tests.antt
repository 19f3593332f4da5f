-- ===== src/Fmt/Tests.antt =====
-- Formats at concrete arguments.
use las.Prelude.{◌≡◌, refl, pos, negsuc, [], ◌∷◌}
use las.Errors.{str, int}
use las.Fmt.{sprintf, itoa}

formats :
    (sprintf "rule %s has invalid port range %d-%d" (str "web" ∷ int (pos 443) ∷ int (pos 80) ∷ [])
      ≡ "rule web has invalid port range 443-80")
    × (sprintf "iifname %q" (str "a\"b" ∷ []) ≡ "iifname \"a\\\"b\"")
    × (sprintf "meta mark set 0x%x accept" (int (pos 255) ∷ []) ≡ "meta mark set 0xff accept")
    × (sprintf "100%% of %s" [] ≡ "100% of %!s(MISSING)")
    × (itoa (negsuc 41) ≡ "-42")
unfolding sprintf itoa
formats = (refl, refl, refl, refl, refl)
