-- ===== src/Validate/Run.antt =====
-- `Validate` with everything that it calls open, and the configurations that it accepts.
use las.Prelude.{contains, ◌≡◌, refl}
use las.Net.{parse_prefix, parse_ip}
use las.Errors.{Check, ok, ◌>>◌, fail_if, wrap, check_when, each, each_new, Passes}
use las.Names.{
  is_identifier, validate_cidr, is_ip, valid_domain_name, resolver_host, validate_resolver,
  to_upper,
}
use las.Config.{Config, default_config}
use las.Validate.Sample.{sample_config}
use las.Validate.Interfaces.{
  validate_interface_address, validate_dhcp_server, validate_interface, validate_tunnel,
}
use las.Validate.Routing.{
  validate_route_set, validate_wan_member, validate_wan_group, validate_static_route,
  validate_port_range, validate_rule_match, validate_rule_action, validate_route_rule,
}
use las.Validate.Services.{
  validate_dhcp_services, validate_dns_services, validate_certificates, validate_certificate_store,
  validate_services,
}
use las.Validate.Platform.{
  validate_vlan, validate_l2, validate_dynamic_routing, validate_qos, validate_monitoring,
  validate_automation, validate_platform,
}
use las.Validate.Security.{validate_security}
use las.Validate.{known_links_of, validate_host, validate_routing, validate}

unfoldable pub run : Config → Check
unfolding contains parse_prefix parse_ip ◌>>◌ fail_if wrap check_when each each_new is_identifier
    validate_cidr is_ip valid_domain_name resolver_host validate_resolver to_upper
    validate_interface_address validate_dhcp_server validate_interface validate_tunnel
    validate_route_set validate_wan_member validate_wan_group validate_static_route
    validate_port_range validate_rule_match validate_rule_action validate_route_rule
    validate_dhcp_services validate_dns_services validate_certificates validate_certificate_store
    validate_services validate_vlan validate_l2 validate_dynamic_routing validate_qos
    validate_monitoring validate_automation validate_platform validate_security known_links_of
    validate_host validate_routing validate
run = validate

pub default_accepted : run default_config ≡ ok tt
unfolding run
default_accepted = refl

pub sample_accepted : run sample_config ≡ ok tt
unfolding run
sample_accepted = refl

pub default_Passes : Passes (validate default_config)
unfolding run
default_Passes = default_accepted

pub sample_Passes : Passes (validate sample_config)
unfolding run
sample_Passes = sample_accepted
