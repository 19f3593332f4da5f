-- ===== src/Validate/Sample.antt =====
-- Configurations that the tests run on.
use las.Prelude.{pos, true, false, String, List, [], ◌∷◌}
use las.Config.{
  Config, default_config, Tunnel, RouteSet, WanGroup, RuleMatch, RuleAction, RouteRule, Vlan,
  RoutingConfig, PlatformConfig,
}

abbrev pub sample_tunnel : Tunnel
sample_tunnel = record {
  id = "office";
  name = "Office";
  type = "wireguard";
  direction = "peer";
  enabled = true;
  interface_name = "wg0";
  mark = pos 0x10;
  table = pos 110;
  mtu = pos 1420;
  remote_endpoint = "vpn.example.org:51820";
  local_addresses = "10.8.0.2/24" ∷ [];
  dns = "10.8.0.1" ∷ [];
  credentials = ("configFile", "/etc/las/wg0.conf") ∷ [];
  options = [];
}

abbrev pub sample_set : RouteSet
sample_set = record {
  id = "streaming";
  name = "";
  type = "service";
  enabled = true;
  description = "";
  countries = [];
  cidrs = "203.0.113.0/24" ∷ "2001:db8::/32" ∷ [];
  domains = [];
  source_urls = [];
  refresh = "";
}

abbrev pub sample_group : WanGroup
sample_group = record {
  id = "uplinks";
  name = "";
  enabled = true;
  mode = "failover";
  mark = pos 0x20;
  table = pos 120;
  members =
      record {
        interface = "enp1s0";
        gateway = "192.0.2.1";
        weight = pos 1;
        priority = pos 0;
        healthcheck = "";
      }
      ∷ [];
}

abbrev pub no_match : RuleMatch
no_match = record {
  input_iface = "";
  output_iface = "";
  source_cidrs = [];
  destination_cidrs = [];
  source_ports = [];
  destination_ports = [];
  protocols = [];
  tunnel_ids = [];
  domains = [];
  geo_ip = [];
  sets = [];
  applications = [];
  services = [];
}

abbrev pub action_to : String → String → RuleAction
action_to type target = record {
  type = type;
  target = target;
  nat = true;
  log = false;
  mark = pos 0;
  table = pos 0;
}

abbrev pub tunnel_rule : RouteRule
tunnel_rule = record {
  id = "stream-out";
  name = "";
  enabled = true;
  priority = pos 100;
  match = record no_match {
    input_iface = "enp2s0";
    source_cidrs = "192.168.88.0/24" ∷ [];
    destination_ports = record { from = pos 443; to = pos 443 } ∷ [];
    protocols = "tcp" ∷ [];
    sets = "streaming" ∷ [];
  };
  action = action_to "tunnel" "office";
}

abbrev pub drop_rule : RouteRule
drop_rule = record {
  id = "no-telnet";
  name = "";
  enabled = true;
  priority = pos 50;
  match = record no_match {
    destination_ports = record { from = pos 23; to = pos 23 } ∷ [];
    protocols = "tcp" ∷ [];
  };
  action = action_to "blackhole" "";
}

abbrev pub sample_vlan : Vlan
sample_vlan = record {
  name = "guest";
  parent = "enp2s0";
  id = pos 30;
  mtu = pos 0;
  role = "lan";
  ips = "192.168.30.1/24" ∷ [];
}

abbrev pub sample_routing : RoutingConfig
sample_routing = record {
  default_policy = "wan";
  sets = sample_set ∷ [];
  wan_groups = sample_group ∷ [];
  static_routes =
      record {
        destination = "198.51.100.0/24";
        gateway = "";
        interface = "wg0";
        table = pos 0;
        metric = pos 10;
      }
      ∷ [];
  rules = tunnel_rule ∷ drop_rule ∷ [];
}

abbrev pub with_vlans : List Vlan → PlatformConfig → PlatformConfig
with_vlans vlans platform = record platform { l2 = record (platform.l2) { vlans = vlans } }

abbrev pub sample_config : Config
sample_config = record default_config {
  tunnels = sample_tunnel ∷ [];
  routing = sample_routing;
  platform = with_vlans (sample_vlan ∷ []) default_config.platform;
}
