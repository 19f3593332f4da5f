-- ===== src/Router/Matches.antt =====
-- internal/router/nft.go: the match expressions and the action of a rule, with the warnings.
pub mod Laws
use las.Prelude.{
  ℤ, pos, String, Bool, not, ◌||◌, ◌&&◌, Option, none, some, List, [], ◌∷◌, ◌++◌, map, contains,
  is_empty, int_eq, str_eq, ◌<>◌, join, if◌then◌else◌,
}
use las.Errors.{str, int}
use las.Fmt.{sprintf}
use las.Config.{RouteRule, RouteSet, Tunnel, WanGroup, PortRange}
use las.Router.Cidrs.{split_cidrs, nft_set, nft_port_set, combine_cidrs, nft_identifier}

-- `b.WriteString` and `*warnings = append(*warnings, …)`: the texts, and the warnings.
abbrev pub Out : Type 0
Out = List String × List String

infixl 5 ◌⊕◌
abbrev pub ◌⊕◌ : Out → Out → Out
(texts, warnings) ⊕ (texts', warnings') = (texts ++ texts', warnings ++ warnings')

unfoldable pub out_each {ℓ} : {A : Type ℓ} → List A → (A → Out) → Out
out_each [] f = ([], [])
out_each (x ∷ xs) f = f x ⊕ out_each xs f

-- `if s != "" { parts = append(parts, s) }`
abbrev pub unless_empty : String → List String
unless_empty s = if str_eq s "" then [] else s ∷ []

-- `if len(xs) == 0 { xs = []string{""} }`
abbrev pub or_empty_text : List String → List String
or_empty_text xs = if is_empty xs then "" ∷ [] else xs

port_part : String → String → List PortRange → List String
port_part proto side ports =
    if is_empty ports
    then []
    else sprintf "%s %s %s" (str proto ∷ str side ∷ str (nft_port_set ports) ∷ []) ∷ []

ports_of : RouteRule → String → Out
unfolding port_part
ports_of rule proto =
    let parts =
      port_part proto "sport" rule.match.source_ports
      ++ port_part proto "dport" rule.match.destination_ports in
    if not (str_eq proto "tcp" || str_eq proto "udp")
    then (
      [],
      if not (is_empty rule.match.source_ports && is_empty rule.match.destination_ports)
          then sprintf
              "rule %s has ports with non-TCP/UDP protocol %s; skipping port expression for that protocol"
              (str rule.id ∷ str proto ∷ [])
            ∷ []
          else [],
    )
    else (if is_empty parts then [] else join parts " " ∷ [], [])

unfoldable pub nft_port_expressions : RouteRule → Out
unfolding ports_of
nft_port_expressions rule =
    out_each (if is_empty rule.match.protocols then "tcp" ∷ "udp" ∷ [] else rule.match.protocols)
      (ports_of rule)

-- `byID[setID]`: of sets with the same identifier the map holds the last.
unfoldable pub find_set : List RouteSet → String → Option RouteSet
find_set [] id = none
find_set (s ∷ sets) id = elim (find_set sets id) [
  | some t ↦ some t
  | none ↦ if str_eq s.id id then some s else none
]

unfoldable pub set_matches : RouteRule → String → Option RouteSet → Out
set_matches rule id none = ([], [])
set_matches rule id (some s) =
    let (v4s, v6s) = split_cidrs s.cidrs in
    if not s.enabled then ([], []) else (
      (if is_empty v4s then [] else sprintf "ip daddr @%s_v4" (str (nft_identifier s.id) ∷ []) ∷ [])
          ++ (if is_empty v6s
              then []
              else sprintf "ip6 daddr @%s_v6" (str (nft_identifier s.id) ∷ []) ∷ []),
      if is_empty v4s && is_empty v6s
          then sprintf
              "rule %s references route set %s, but it has no static CIDRs rendered into nftables yet"
              (str rule.id ∷ str id ∷ [])
            ∷ []
          else [],
    )

abbrev pub warn_each : String → String → List String → Out
warn_each format id values = ([], map (λ v. sprintf format (str id ∷ str v ∷ [])) values)

unfoldable pub nft_route_set_expressions : RouteRule → List RouteSet → Out
unfolding find_set set_matches
nft_route_set_expressions rule sets =
    out_each rule.match.sets (λ id. set_matches rule id (find_set sets id))
    ⊕ warn_each "rule %s application match %q needs a route set/feed mapping before enforcement"
        rule.id rule.match.applications
    ⊕ warn_each "rule %s service match %q needs a route set/feed mapping before enforcement" rule.id
        rule.match.services

-- The expressions that hold in every combination.
unfoldable pub base_parts : RouteRule → List String
base_parts rule =
    (if str_eq rule.match.input_iface ""
      then []
      else sprintf "iifname %q" (str rule.match.input_iface ∷ []) ∷ [])
    ++ (if str_eq rule.match.output_iface ""
        then []
        else sprintf "oifname %q" (str rule.match.output_iface ∷ []) ∷ [])
    ++ (if is_empty rule.match.protocols
        then []
        else ("meta l4proto " <> nft_set rule.match.protocols) ∷ [])

-- The three nested loops.
unfoldable pub combinations : List String → List String → List String → List String → List String
combinations base cidrs sets ports =
    (out_each cidrs λ cidr. out_each sets λ set. out_each ports λ port.
      (join (base ++ unless_empty cidr ++ unless_empty set ++ unless_empty port) " " ∷ [], [])).0

unfoldable pub nft_match_expressions : RouteRule → List RouteSet → Out
nft_match_expressions rule sets =
    let (ports, port_warnings) = nft_port_expressions rule in
    let (src4, src6) = split_cidrs rule.match.source_cidrs in
    let (dst4, dst6) = split_cidrs rule.match.destination_cidrs in
    let (set_exprs, set_warnings) = nft_route_set_expressions rule sets in
    (
      combinations (base_parts rule) (or_empty_text (combine_cidrs src4 src6 dst4 dst6))
          (or_empty_text set_exprs) (or_empty_text ports),
      port_warnings ++ set_warnings,
    )

-- The mark of the first tunnel, or of the first group, with the identifier.
unfoldable pub tunnel_mark : String → List Tunnel → ℤ
tunnel_mark id [] = pos 0
tunnel_mark id (t ∷ ts) = let more = tunnel_mark id ts in if str_eq t.id id then t.mark else more

unfoldable pub group_mark : String → List WanGroup → ℤ
group_mark id [] = pos 0
group_mark id (g ∷ gs) = let more = group_mark id gs in if str_eq g.id id then g.mark else more

unfoldable pub rule_mark : RouteRule → List Tunnel → List WanGroup → ℤ
unfolding tunnel_mark group_mark
rule_mark rule tunnels groups =
    let a = rule.action in
    if not (int_eq a.mark (pos 0))
    then a.mark
    else if str_eq a.type "tunnel"
    then tunnel_mark a.target tunnels
    else if str_eq a.type "wan-group" || str_eq a.type "load-balance"
    then group_mark a.target groups
    else pos 0

-- A verdict, behind a log statement if the rule logs.
with_log : RouteRule → String → String
with_log rule verdict =
    if rule.action.log
    then sprintf "log prefix %q " (str ("las " <> rule.id <> " ") ∷ []) <> verdict
    else verdict

abbrev pub marking_types : List String
marking_types = "interface" ∷ "tunnel" ∷ "wan-group" ∷ "load-balance" ∷ "scan" ∷ "mirror" ∷ []

unfoldable pub nft_action : RouteRule → List Tunnel → List WanGroup → String
unfolding with_log
nft_action rule tunnels groups =
    let mark = rule_mark rule tunnels groups in
    let type = rule.action.type in
    if str_eq type "blackhole"
    then with_log rule "drop"
    else if str_eq type "reject"
    then with_log rule "reject"
    else if str_eq type "direct"
    then "meta mark set 0 accept"
    else if contains marking_types type
    then if int_eq mark (pos 0)
      then ""
      else with_log rule (sprintf "meta mark set 0x%x accept" (int mark ∷ []))
    else ""

unfoldable pub is_filter_action : String → Bool
is_filter_action action_type = str_eq action_type "blackhole" || str_eq action_type "reject"
