-- ===== src/Router/Cidrs.antt =====
-- internal/router/nft.go: the texts of addresses, sets and ports.
pub mod Laws
use Prim.Native.Char.{Char}
use las.Prelude.{
  ℕ, ℤ, String, Bool, true, false, not, ◌||◌, ◌==◌, Option, none, some, List, [], ◌∷◌, ◌++◌, map,
  code, is_letter, is_digit, is_empty, int_eq, in_range, ◌<>◌, join, if◌then◌else◌,
}
use las.Errors.{str, int}
use las.Fmt.{sprintf, itoa}
use las.Net.{Prefix, is4, is6, parse_prefix}
use las.Config.{PortRange}

-- The texts of the one family and those of the other. A text that is no prefix is in neither.
place : Option Prefix → String → List String × List String → List String × List String
place none value (v4s, v6s) = (v4s, v6s)
place (some p) value (v4s, v6s) = if is4 p.addr then (value ∷ v4s, v6s) else (v4s, value ∷ v6s)

unfoldable pub split_cidrs : List String → List String × List String
unfolding place
split_cidrs [] = ([], [])
split_cidrs (value ∷ values) = place (parse_prefix value) value (split_cidrs values)

unfoldable pub nft_family : String → String
nft_family cidr = elim (parse_prefix cidr) [
  | none ↦ "ip"
  | some p ↦ if is6 p.addr then "ip6" else "ip"
]

unfoldable pub nft_elements : List String → String
nft_elements values = "{ " <> join values ", " <> " }"

unfoldable pub nft_set : List String → String
unfolding nft_elements
nft_set (value ∷ []) = value
nft_set values = nft_elements values

port_text : PortRange → String
port_text r =
    if int_eq r.from r.to then itoa r.from else sprintf "%d-%d" (int r.from ∷ int r.to ∷ [])

-- The source repeats `nftSet` here, over the texts of the ranges.
unfoldable pub nft_port_set : List PortRange → String
unfolding port_text
nft_port_set values = nft_set (map port_text values)

-- One family of `combineCIDRs`.
pub combine_family : String → List String → List String → List String
combine_family family src dst =
    let from = if is_empty src then [] else (family <> " saddr " <> nft_set src) ∷ [] in
    let to = if is_empty dst then [] else (family <> " daddr " <> nft_set dst) ∷ [] in
    if is_empty (from ++ to) then [] else join (from ++ to) " " ∷ []

unfoldable pub combine_cidrs : List String → List String → List String → List String → List String
unfolding combine_family
combine_cidrs src4 src6 dst4 dst6 = combine_family "ip" src4 dst4 ++ combine_family "ip6" src6 dst6

abbrev pub is_name_code : ℕ → Bool
is_name_code c = is_letter c || is_digit c || c == b'_'

-- The loop over the runes.
mask : String → String
mask String.[] = ""
mask (String.◌∷◌ c s) = (if is_name_code (code c) then String.◌∷◌ c "" else "_") <> mask s

-- What stands before the masked text.
lead : String → String
lead String.[] = "rs_empty"
lead (String.◌∷◌ c s) =
    if in_range b'0' b'9' (code c) then "rs_" <> String.◌∷◌ c s else String.◌∷◌ c s

unfoldable pub nft_identifier : String → String
unfolding mask lead
nft_identifier value = lead (mask value)
