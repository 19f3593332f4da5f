-- ===== src/Config/Security.antt =====
-- internal/config/config.go: SecurityConfig and what it holds.
use las.Prelude.{String, ℤ, Bool, List}

pub record PortForward : Type 0 where
  pub id : String
  pub name : String
  pub enabled : Bool
  pub input_iface : String
  pub protocols : List String
  pub external_port : ℤ
  pub internal_ip : String
  pub internal_port : ℤ
  pub source_cidrs : List String
  pub log : Bool

pub record OneToOneNat : Type 0 where
  pub id : String
  pub enabled : Bool
  pub internal_cidr : String
  pub external_cidr : String
  pub interfaces : List String
  pub log : Bool

pub record AntivirusConfig : Type 0 where
  pub enabled : Bool
  pub mode : String
  pub interfaces : List String
  pub max_file_size_mb : ℤ
  pub quarantine_dir : String

pub record IpsConfig : Type 0 where
  pub enabled : Bool
  pub engine : String
  pub mode : String
  pub interfaces : List String
  pub nf_queue : ℤ

pub record DnsFilteringConf : Type 0 where
  pub enabled : Bool
  pub upstream : List String
  pub blocklists : List String

pub record ThreatFeedConfig : Type 0 where
  pub enabled : Bool
  pub source_urls : List String
  pub refresh : String
  pub action : String

pub record CaptivePortal : Type 0 where
  pub enabled : Bool
  pub engine : String
  pub interfaces : List String
  pub login_url : String
  pub radius : Bool

pub record RadiusConfig : Type 0 where
  pub enabled : Bool
  pub servers : List String
  pub secret : String
  pub nas_id : String

pub record UpnpConfig : Type 0 where
  pub enabled : Bool
  pub internal_ifaces : List String
  pub external_iface : String

pub record SecurityConfig : Type 0 where
  pub nat : Bool
  pub firewall : Bool
  pub allow_established : Bool
  pub management_ports : List ℤ
  pub port_forwards : List PortForward
  pub one_to_one_nat : List OneToOneNat
  pub antivirus : AntivirusConfig
  pub ips : IpsConfig
  pub dns_filtering : DnsFilteringConf
  pub threat_feeds : ThreatFeedConfig
  pub captive_portal : CaptivePortal
  pub radius : RadiusConfig
  pub upnp : UpnpConfig
