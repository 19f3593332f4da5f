-- ===== src/Router/Nat.antt =====
-- internal/router/nft.go: the two NAT chains, and `BuildNftables`.
mod Tests
use las.Prelude.{
  ℕ, zero, suc, ◌+◌, ◌/◌, ◌%◌, String, Bool, true, false, not, ◌||◌, ◌&&◌, ◌==◌, ltb, Option, none,
  some, List, [], ◌∷◌, ◌++◌, map, is_empty, str_eq, ◌<>◌, join, if◌then◌else◌,
}
use las.Errors.{str, int}
use las.Fmt.{sprintf, format_nat}
use las.Net.{Addr, v4, v6, Prefix, is4, parse_prefix}
use las.Config.{Config, RouteRule, PortForward, OneToOneNat}
use las.Router.Cidrs.{split_cidrs, nft_set}
use las.Router.Matches.{Out, ◌⊕◌, out_each, or_empty_text, unless_empty}
use las.Router.Chains.{
  text, write_route_sets, write_input_chain, write_prerouting_chain, write_forward_chain,
}

take : {A : Type 0} → ℕ → List A → List A
take zero xs = []
take (suc n) [] = []
take (suc n) (x ∷ xs) = x ∷ take n xs

drop : {A : Type 0} → ℕ → List A → List A
drop zero xs = xs
drop (suc n) [] = []
drop (suc n) (x ∷ xs) = drop n xs

-- The number of zeros in front.
zeros : List ℕ → ℕ
zeros [] = 0
zeros (g ∷ gs) = let more = zeros gs in if g == 0 then more + 1 else 0

-- The first of the longest runs of zeros: where it starts, and its length.
longest_run : ℕ → List ℕ → ℕ × ℕ
unfolding zeros
longest_run i [] = (i, 0)
longest_run i (g ∷ gs) =
    let (start, len) = longest_run (i + 1) gs in
    let here = zeros (g ∷ gs) in if ltb here len then (start, len) else (i, here)

hex_groups : List ℕ → String
hex_groups gs = join (map (format_nat 16) gs) ":"

group_text : List ℕ → String
unfolding longest_run take drop hex_groups
group_text gs =
    let (start, len) = longest_run 0 gs in
    if ltb len 2
    then hex_groups gs
    else hex_groups (take start gs) <> "::" <> hex_groups (drop (start + len) gs)

quad : List ℕ → String
quad bytes = join (map (format_nat 10) bytes) "."

abbrev flatten : List (List ℕ) → List ℕ
flatten [] = []
flatten (xs ∷ xss) = xs ++ flatten xss

abbrev bool_eq : Bool → Bool → Bool
bool_eq true b = b
bool_eq false b = not b

halves : ℕ → List ℕ
halves g = g / 256 ∷ g % 256 ∷ []

-- The groups behind `::ffff`, if the others are an IPv4 address.
embedded : List ℕ → Bool
unfolding zeros drop
embedded gs = elim (drop 5 gs) [ [] ↦ false | m ∷ rest ↦ zeros gs == 5 && m == 0xffff ]

-- `netip.Addr.String` for an address with no zone.
unfoldable pub addr_text : Addr → String
unfolding group_text quad halves embedded
addr_text (v4 bytes) = quad bytes
addr_text (v6 groups zone) =
    let mapped = "::ffff:" <> quad (flatten (map halves (drop 6 groups))) in
    if embedded groups then mapped else group_text groups

-- `natSingleHost` of two prefixes.
single_host_of : Option Prefix → Option Prefix → String × String × Bool
unfolding addr_text
single_host_of none external = ("", "", false)
single_host_of (some p) none = ("", "", false)
single_host_of (some p) (some q) =
    let single =
      if is4 p.addr then p.bits == 32 && q.bits == 32 else p.bits == 128 && q.bits == 128 in
    if not (bool_eq (is4 p.addr) (is4 q.addr))
    then ("", "", false)
    else (addr_text p.addr, addr_text q.addr, single)

unfoldable pub nat_single_host : OneToOneNat → String × String × Bool
unfolding single_host_of
nat_single_host nat =
    single_host_of (parse_prefix nat.internal_cidr) (parse_prefix nat.external_cidr)

-- The loop over the 1:1 NATs, with the lines of one that has interfaces and of one that has none.
one_to_one :
    (String → String → OneToOneNat → String)
    → (String → String → String → OneToOneNat → String)
    → OneToOneNat
    → Out
one_to_one everywhere through nat =
    let (internal, external, single) = nat_single_host nat in
    if not nat.enabled
    then ([], [])
    else if not single
    then (
      [],
      sprintf "1:1 NAT %s uses CIDR netmap; full nft map rendering is TODO" (str nat.id ∷ []) ∷ [],
    )
    else if is_empty nat.interfaces
    then text (everywhere internal external nat)
    else out_each nat.interfaces (λ iface. text (through iface internal external nat))

unfoldable pub port_forward_source_expressions : List String → List String
port_forward_source_expressions cidrs =
    let (v4s, v6s) = split_cidrs cidrs in
    (if is_empty v4s then [] else ("ip saddr " <> nft_set v4s) ∷ [])
    ++ (if is_empty v6s then [] else ("ip6 saddr " <> nft_set v6s) ∷ [])

port_forward_line : PortForward → String → String → String
port_forward_line f proto source =
    let parts =
      (if str_eq f.input_iface "" then [] else sprintf "iifname %q" (str f.input_iface ∷ []) ∷ [])
      ++ unless_empty source
      ++ sprintf "%s dport %d" (str proto ∷ int f.external_port ∷ []) ∷ []
      ++ (if f.log
          then sprintf "log prefix %q" (str ("las port-forward " <> f.id <> " ") ∷ []) ∷ []
          else [])
      ++ sprintf "dnat to %s:%d comment %q"
          (str f.internal_ip ∷ int f.internal_port ∷ str f.id ∷ [])
        ∷ [] in
    sprintf "    %s\n" (str (join parts " ") ∷ [])

port_forward_text : PortForward → Out
unfolding port_forward_line
port_forward_text f =
    let protos = if is_empty f.protocols then "tcp" ∷ [] else f.protocols in
    if not f.enabled
    then ([], [])
    else out_each protos λ proto.
      out_each (or_empty_text (port_forward_source_expressions f.source_cidrs))
        λ source. text (port_forward_line f proto source)

unfoldable pub write_dst_nat_chain : Config → Out
unfolding one_to_one port_forward_text
write_dst_nat_chain c =
    if not c.security.nat
      || (is_empty c.security.port_forwards && is_empty c.security.one_to_one_nat)
    then ([], [])
    else text "  chain dstnat {\n    type nat hook prerouting priority dstnat; policy accept;\n"
      ⊕ out_each c.security.one_to_one_nat (
          one_to_one
            (λ internal external nat.
              sprintf "    ip daddr %s dnat to %s comment %q\n"
                (str external ∷ str internal ∷ str nat.id ∷ []))
            (λ iface internal external nat.
              sprintf "    iifname %q ip daddr %s dnat to %s comment %q\n"
                (str iface ∷ str external ∷ str internal ∷ str nat.id ∷ [])))
      ⊕ out_each c.security.port_forwards port_forward_text
      ⊕ text "  }\n"

masquerade : String → String → Out
masquerade iface comment =
    text (sprintf "    oifname %q masquerade comment %q\n" (str iface ∷ str comment ∷ []))

-- The loop over the rules that ask for address translation.
rule_masquerade : Config → RouteRule → Out
unfolding masquerade
rule_masquerade c rule =
    let a = rule.action in
    let comment = "rule nat " <> rule.id in
    let groups = out_each c.routing.wan_groups λ g.
      if not (str_eq g.id a.target)
      then ([], [])
      else out_each g.members (λ m. masquerade m.interface comment) in
    let tunnels = out_each c.tunnels λ t.
      if str_eq t.id a.target && not (str_eq t.interface_name "")
      then masquerade t.interface_name comment
      else ([], []) in
    if not rule.enabled || not a.nat || str_eq a.target ""
    then ([], [])
    else if str_eq a.type "wan-group" || str_eq a.type "load-balance"
    then groups
    else if str_eq a.type "tunnel"
    then tunnels
    else masquerade a.target comment

unfoldable pub write_postrouting_chain : Config → Out
unfolding one_to_one masquerade rule_masquerade
write_postrouting_chain c =
    if not c.security.nat
    then ([], [])
    else text
        "  chain postrouting {\n    type nat hook postrouting priority srcnat; policy accept;\n"
      ⊕ out_each c.security.one_to_one_nat (
          one_to_one
            (λ internal external nat.
              sprintf "    ip saddr %s snat to %s comment %q\n"
                (str internal ∷ str external ∷ str nat.id ∷ []))
            (λ iface internal external nat.
              sprintf "    oifname %q ip saddr %s snat to %s comment %q\n"
                (str iface ∷ str internal ∷ str external ∷ str nat.id ∷ [])))
      ⊕ out_each c.interfaces (λ i.
        if i.enabled && (i.masquerade || str_eq i.role "wan")
        then masquerade i.name ("nat " <> i.name)
        else ([], []))
      ⊕ out_each c.routing.rules (rule_masquerade c)
      ⊕ text "  }\n"

unfoldable pub build_nftables : Config → String × List String
build_nftables c =
    let (texts, warnings) =
      text "# Managed by lasd. Manual edits will be overwritten.\n"
      ⊕ text "table inet las_router {\n"
      ⊕ write_route_sets c.routing.sets
      ⊕ (write_input_chain c, [])
      ⊕ write_dst_nat_chain c
      ⊕ write_prerouting_chain c
      ⊕ write_forward_chain c
      ⊕ write_postrouting_chain c
      ⊕ text "}\n" in
    (join texts "", warnings)
