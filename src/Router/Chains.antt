-- ===== src/Router/Chains.antt =====
-- internal/router/nft.go: the sets and the input, prerouting and forward chains. The texts are
-- written one after the other.
pub mod Laws
pub mod Order
use las.Prelude.{ℤ, String, Bool, not, ◌&&◌, List, [], ◌∷◌, is_empty, str_eq, if◌then◌else◌}
use las.Errors.{str, int}
use las.Fmt.{sprintf}
use las.Config.{Config, RouteRule, RouteSet}
use las.Router.Cidrs.{split_cidrs, nft_elements, nft_identifier, nft_family}
use las.Router.Matches.{
  Out, ◌⊕◌, out_each, warn_each, nft_match_expressions, nft_action, is_filter_action,
}
use las.Router.Order.{sort_rules}

abbrev pub text : String → Out
text s = (s ∷ [], [])

set_text : String → String → RouteSet → List String → Out
set_text version type s values =
    if is_empty values
    then ([], [])
    else text (
        sprintf "  set %s_%s {\n    type %s; flags interval;\n    elements = %s\n  }\n"
          (str (nft_identifier s.id) ∷ str version ∷ str type ∷ str (nft_elements values) ∷ []))

route_set_text : RouteSet → Out
unfolding set_text
route_set_text s =
    let (v4s, v6s) = split_cidrs s.cidrs in
    let warnings =
      if not (is_empty s.source_urls && is_empty s.countries && is_empty s.domains)
      then sprintf
          "route set %s has dynamic inputs; run the feed generator before relying on generated nft elements"
          (str s.id ∷ [])
        ∷ []
      else [] in
    if not s.enabled
    then ([], [])
    else ([], warnings) ⊕ set_text "v4" "ipv4_addr" s v4s ⊕ set_text "v6" "ipv6_addr" s v6s

unfoldable pub write_route_sets : List RouteSet → Out
unfolding route_set_text
write_route_sets sets = out_each sets route_set_text

management_text : List ℤ → String → Out
management_text ports cidr = out_each ports λ port. text (
    sprintf "    %s saddr %s tcp dport %d accept comment \"management\"\n"
      (str (nft_family cidr) ∷ str cidr ∷ int port ∷ []))

unfoldable pub write_input_chain : Config → List String
unfolding management_text
write_input_chain c =
    (text (
        sprintf "  chain input {\n    type filter hook input priority filter; policy %s;\n"
          (str (if c.security.firewall then "drop" else "accept") ∷ []))
      ⊕ text "    iifname \"lo\" accept\n"
      ⊕ (if c.security.allow_established
          then text "    ct state established,related accept\n"
          else ([], []))
      ⊕ text "    ct state invalid drop\n"
      ⊕ out_each c.host.management_cidrs (management_text c.security.management_ports)
      ⊕ text "    ip protocol icmp accept\n"
      ⊕ text "    ip6 nexthdr icmpv6 accept\n"
      ⊕ text "  }\n").0

-- The lines of a rule: none without an action, one without expressions, else one for each.
rule_lines : RouteRule → String → List String → Out
rule_lines rule action expressions =
    if str_eq action ""
    then ([], [])
    else if is_empty expressions
    then text (sprintf "    %s comment %q\n" (str action ∷ str rule.id ∷ []))
    else out_each expressions
        λ expr. text (sprintf "    %s %s comment %q\n" (str expr ∷ str action ∷ str rule.id ∷ []))

-- The body of the loop of both chains.
unfoldable pub rule_text : Config → RouteRule → Out
unfolding rule_lines
rule_text c rule =
    let (expressions, warnings) = nft_match_expressions rule c.routing.sets in
    warn_each
      "rule %s has domain match %q; feed resolved IPs into nft sets or DNS filtering before enforcing"
      rule.id rule.match.domains
    ⊕ warn_each "rule %s has GeoIP match %q; generate country IP sets before enforcing" rule.id
        rule.match.geo_ip
    ⊕ ([], warnings)
    ⊕ rule_lines rule (nft_action rule c.tunnels c.routing.wan_groups) expressions

-- The loop over the sorted rules, for the rules that a chain takes.
unfoldable pub chain_rules : (RouteRule → Bool) → Config → Out
chain_rules takes c =
    out_each (sort_rules c.routing.rules) λ rule. if takes rule then rule_text c rule else ([], [])

abbrev pub in_prerouting : RouteRule → Bool
in_prerouting rule = rule.enabled && not (is_filter_action rule.action.type)

abbrev pub in_forward : RouteRule → Bool
in_forward rule = rule.enabled && is_filter_action rule.action.type

unfoldable pub write_prerouting_chain : Config → Out
write_prerouting_chain c =
    text "  chain prerouting {\n    type filter hook prerouting priority mangle; policy accept;\n"
    ⊕ chain_rules in_prerouting c
    ⊕ (if c.security.ips.enabled && str_eq c.security.ips.mode "nfqueue"
        then text (
            sprintf "    queue num %d bypass comment \"suricata nfqueue\"\n"
              (int c.security.ips.nf_queue ∷ []))
        else ([], []))
    ⊕ text "  }\n"

unfoldable pub write_forward_chain : Config → Out
write_forward_chain c =
    text "  chain forward {\n    type filter hook forward priority filter; policy accept;\n"
    ⊕ (if c.security.allow_established
        then text "    ct state established,related accept\n"
        else ([], []))
    ⊕ text "    ct state invalid drop\n"
    ⊕ chain_rules in_forward c
    ⊕ text "  }\n"
