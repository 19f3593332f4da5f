-- ===== src/Config/Zero.antt =====
-- The zero values of the structs that `Default` of internal/config/config.go leaves out.
use las.Prelude.{pos, false, []}
use las.Config.Security.{ThreatFeedConfig, CaptivePortal, RadiusConfig, UpnpConfig}
use las.Config.Services.{NtsConfig, MplsConfig}
use las.Config.Platform.{
  L2Config, BgpConfig, OspfConfig, RipConfig, BfdConfig, DynamicRouting, QosConfig, SnmpConfig,
  NetFlowConfig, TrafficGraphsConfig, MonitoringConfig, RollbackWatchdog, BackupConfig,
}

abbrev pub no_nts_config : NtsConfig
no_nts_config = record { enabled = false; cert_file = ""; key_file = "" }

abbrev pub no_mpls_config : MplsConfig
no_mpls_config = record { enabled = false; interfaces = []; ldp = false; vrf = "" }

abbrev pub no_l2_config : L2Config
no_l2_config = record { vlans = []; bridges = []; bonds = []; vrrp = [] }

abbrev pub no_bgp_config : BgpConfig
no_bgp_config = record { enabled = false; asn = pos 0; router_id = ""; networks = []; peers = [] }

abbrev pub no_ospf_config : OspfConfig
no_ospf_config = record { enabled = false; router_id = ""; networks = [] }

abbrev pub no_rip_config : RipConfig
no_rip_config = record { enabled = false; networks = [] }

abbrev pub no_bfd_config : BfdConfig
no_bfd_config = record { enabled = false; peers = [] }

abbrev pub no_dynamic_routing : DynamicRouting
no_dynamic_routing = record {
  vrfs = [];
  bgp = no_bgp_config;
  ospf = no_ospf_config;
  rip = no_rip_config;
  bfd = no_bfd_config;
  route_maps = [];
}

abbrev pub no_qos_config : QosConfig
no_qos_config = record { enabled = false; queues = [] }

abbrev pub no_snmp_config : SnmpConfig
no_snmp_config = record {
  enabled = false;
  community = "";
  listen = "";
  location = "";
  contact = "";
}

abbrev pub no_net_flow_config : NetFlowConfig
no_net_flow_config = record {
  enabled = false;
  engine = "";
  collector = "";
  port = pos 0;
  interfaces = [];
}

abbrev pub no_traffic_graphs_config : TrafficGraphsConfig
no_traffic_graphs_config = record { enabled = false; engine = ""; listen = "" }

abbrev pub no_monitoring_config : MonitoringConfig
no_monitoring_config = record {
  snmp = no_snmp_config;
  net_flow = no_net_flow_config;
  traffic_graphs = no_traffic_graphs_config;
}

abbrev pub no_rollback_watchdog : RollbackWatchdog
no_rollback_watchdog = record {
  enabled = false;
  probe_target = "";
  timeout = "";
  recovery_path = "";
}

abbrev pub no_backup_config : BackupConfig
no_backup_config = record { enabled = false; schedule = ""; destination = ""; encrypt = false }

abbrev pub no_threat_feed_config : ThreatFeedConfig
no_threat_feed_config = record { enabled = false; source_urls = []; refresh = ""; action = "" }

abbrev pub no_captive_portal : CaptivePortal
no_captive_portal = record {
  enabled = false;
  engine = "";
  interfaces = [];
  login_url = "";
  radius = false;
}

abbrev pub no_radius_config : RadiusConfig
no_radius_config = record { enabled = false; servers = []; secret = ""; nas_id = "" }

abbrev pub no_upnp_config : UpnpConfig
no_upnp_config = record { enabled = false; internal_ifaces = []; external_iface = "" }
