-- ===== src/Router/Tests.antt =====
-- The rules of the sample configuration, and the theorems on them.
use las.Prelude.{inl, Any, join, codes, false, String, List, [], ◌∷◌, ◌≡◌, ◌↔◌, refl, inr}
use las.Config.{RouteRule, RouteSet}
use las.Net.{parse_prefix}
use las.Fmt.{sprintf}
use las.Validate.Sample.{sample_set, sample_config, tunnel_rule, drop_rule}
use las.Router.Cidrs.{split_cidrs, nft_identifier, nft_set, combine_cidrs, nft_port_set}
use las.Router.Cidrs.Laws.{
  IsIn, IsV4, IsV6, IsSetName, split_cidrs_iff, nft_identifier-dash, nft_identifier-IsSetName,
}
use las.Router.Matches.{
  nft_match_expressions, combinations, find_set, set_matches, out_each, base_parts,
  nft_route_set_expressions, nft_port_expressions,
}
use las.Router.Matches.Laws.{nft_match_expressions-IsUnused}
use las.Router.Chains.{write_route_sets}
use las.Router.Chains.Laws.{IsDeclared, nft_route_set_expressions-IsDeclared}
use las.Router.Order.{sort_rules}

abbrev cidrs : List String
cidrs = "10.0.0.0/8" ∷ "fd00::/8" ∷ "10.1.0.0/16" ∷ "office" ∷ []

split : (split_cidrs cidrs ≡ ("10.0.0.0/8" ∷ "10.1.0.0/16" ∷ [], "fd00::/8" ∷ []))
unfolding split_cidrs parse_prefix
split = refl

split_cidrs_iff_example :
    (IsIn (split_cidrs cidrs).0 "fd00::/8" ↔ (IsIn cidrs "fd00::/8" × IsV4 "fd00::/8"))
    × (IsIn (split_cidrs cidrs).1 "fd00::/8" ↔ (IsIn cidrs "fd00::/8" × IsV6 "fd00::/8"))
split_cidrs_iff_example = split_cidrs_iff cidrs "fd00::/8"

identifiers : (nft_identifier "2nd.office" ≡ "rs_2nd_office") × (nft_identifier "" ≡ "rs_empty")
unfolding nft_identifier
identifiers = (refl, refl)

nft_identifier-dash_example : nft_identifier "video-eu" ≡ nft_identifier "video_eu"
nft_identifier-dash_example = nft_identifier-dash "video" "eu"

nft_identifier-IsSetName_example : IsSetName (codes (nft_identifier "2nd.office"))
nft_identifier-IsSetName_example = nft_identifier-IsSetName "2nd.office"

expressions :
    (nft_match_expressions tunnel_rule sample_config.routing.sets).0
    ≡ "iifname \"enp2s0\" meta l4proto tcp ip saddr 192.168.88.0/24 ip daddr @streaming_v4 tcp dport 443"
      ∷ "iifname \"enp2s0\" meta l4proto tcp ip saddr 192.168.88.0/24 ip6 daddr @streaming_v6 tcp dport 443"
      ∷ []
unfolding nft_match_expressions combinations out_each base_parts combine_cidrs split_cidrs
    parse_prefix nft_set nft_route_set_expressions nft_port_expressions nft_port_set nft_identifier
    sprintf join
expressions = refl

sorted : sort_rules (tunnel_rule ∷ drop_rule ∷ []) ≡ drop_rule ∷ tunnel_rule ∷ []
unfolding sort_rules
sorted = refl

-- A rule that drops what goes to a set, and the set, which is not enabled.
abbrev set_rule : RouteRule
set_rule = record drop_rule {
  match = record drop_rule.match { destination_ports = []; protocols = []; sets = "video" ∷ [] };
}

abbrev off_set : RouteSet
off_set = record {
  id = "video";
  name = "";
  type = "list";
  enabled = false;
  description = "";
  countries = [];
  cidrs = "203.0.113.0/24" ∷ [];
  domains = [];
  source_urls = [];
  refresh = "";
}

nft_match_expressions-IsUnused_example : (nft_match_expressions set_rule (off_set ∷ [])).0 ≡ "" ∷ []
nft_match_expressions-IsUnused_example =
    nft_match_expressions-IsUnused set_rule (off_set ∷ [])
      (refl, refl, refl, refl, refl, refl, refl) ((inr refl, tt), tt)

reference :
    IsIn (nft_route_set_expressions tunnel_rule (sample_set ∷ [])).0 "ip daddr @streaming_v4"
unfolding nft_route_set_expressions out_each set_matches find_set split_cidrs parse_prefix
    nft_identifier sprintf
reference = inl refl

nft_route_set_expressions-IsDeclared_example :
    Any
      (λ s. IsDeclared (write_route_sets (sample_set ∷ [])).0 s "ip daddr @streaming_v4")
      (sample_set ∷ [])
nft_route_set_expressions-IsDeclared_example =
    nft_route_set_expressions-IsDeclared tunnel_rule (sample_set ∷ []) "ip daddr @streaming_v4"
      reference
