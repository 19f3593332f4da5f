-- ===== src/Validate/Tests.antt =====
-- `Validate` at concrete configurations, and its theorems there.
use las.Errors.{ok, str, int, errorf, err, Passes}
use las.Prelude.{pos, ◌≡◌, refl, inl, List, [], ◌∷◌, All, arith, ◌↔◌}
use las.Net.{parse_prefix}
use las.Config.{Config, Vlan, RouteRule}
use las.Validate.Sample.{
  sample_config, sample_routing, sample_vlan, sample_tunnel, tunnel_rule, drop_rule, with_vlans,
  action_to,
}
use las.Validate.Platform.{validate_vlan}
use las.Validate.Rules.{Listed}
use las.Validate.Valid.{IsValidConfig, validate_iff}
use las.Validate.Integrity.{
  IsLink, RuleResolves, LinksResolve, known_links_of_iff, validate-RuleResolves,
  validate-LinksResolve, validate_vlan_own_parent,
}
use las.Validate.Run.{run, sample_Passes}
use las.Validate.{known_links_of, validate}

-- The same configuration with other rules.
abbrev with_rules : List RouteRule → Config
with_rules rules = record sample_config { routing = record sample_routing { rules = rules } }

abbrev lost_rule : RouteRule
lost_rule = record tunnel_rule { action = action_to "tunnel" "missing" }

abbrev late_rule : RouteRule
late_rule = record tunnel_rule { priority = pos 32766 }

refused :
    (run (record sample_config { version = pos 2 })
      ≡ err (errorf "unsupported config version %d" (int (pos 2) ∷ [])))
    × (run (record sample_config { tunnels = sample_tunnel ∷ sample_tunnel ∷ [] })
        ≡ err (errorf "duplicate tunnel id %q" (str "office" ∷ [])))
    × (run (record sample_config { tunnels = [] })
        ≡ err (errorf "static route references unknown link %q" (str "wg0" ∷ [])))
    × (run (with_rules (drop_rule ∷ lost_rule ∷ []))
        ≡ err (errorf "rule %s targets unknown tunnel %q" (str "stream-out" ∷ str "missing" ∷ [])))
    × (run (with_rules (late_rule ∷ []))
        ≡ err (errorf "rule %s priority must be 1-32765" (str "stream-out" ∷ [])))
unfolding run
refused = (refl, refl, refl, refl, refl)

-- The target of a mirror rule is not looked up.
abbrev mirror_rule : RouteRule
mirror_rule = record tunnel_rule { action = action_to "mirror" "eth99" }

mirror_accepted : run (with_rules (mirror_rule ∷ [])) ≡ ok tt
unfolding run
mirror_accepted = refl

validate_iff_example : Passes (validate sample_config) ↔ IsValidConfig sample_config
validate_iff_example = validate_iff sample_config

known_links_of_iff_example :
    Listed (known_links_of sample_config) "wg0" ↔ IsLink sample_config "wg0"
known_links_of_iff_example = known_links_of_iff sample_config "wg0"

validate-RuleResolves_example : All (RuleResolves sample_config) (tunnel_rule ∷ drop_rule ∷ [])
validate-RuleResolves_example = validate-RuleResolves sample_config sample_Passes

validate-LinksResolve_example : LinksResolve sample_config
validate-LinksResolve_example = validate-LinksResolve sample_config sample_Passes

abbrev loop_vlan : Vlan
loop_vlan = record sample_vlan { parent = "guest" }

abbrev loop_config : Config
loop_config = record sample_config { platform = with_vlans (loop_vlan ∷ []) sample_config.platform }

validate_vlan_own_parent_example : Passes (validate_vlan (known_links_of loop_config) loop_vlan)
unfolding parse_prefix
validate_vlan_own_parent_example =
    validate_vlan_own_parent loop_config loop_vlan (inl refl) (omega arith) refl (omega arith)
      ((_, refl), tt)
