-- ===== src/Config/Host.antt =====
-- internal/config/config.go: HostConfig, UIConfig, Interface and Tunnel.
use las.Prelude.{String, ℤ, Bool, List, Option}

pub record HostConfig : Type 0 where
  pub hostname : String
  pub management_cidrs : List String
  pub enable_ip_forward : Bool
  pub conntrack_max : ℤ

pub record UiConfig : Type 0 where
  pub listen : String
  pub admin_username : String
  pub tls_cert_file : String
  pub tls_key_file : String

pub record DhcpServer : Type 0 where
  pub range_start : String
  pub range_end : String
  pub lease_time : String
  pub dns : List String
  pub domain : String

pub record Interface : Type 0 where
  pub name : String
  pub role : String
  pub enabled : Bool
  pub addresses : List String
  pub gateway : String
  pub dns : List String
  pub mtu : ℤ
  pub masquerade : Bool
  pub dhcp_server : Option DhcpServer

pub record Tunnel : Type 0 where
  pub id : String
  pub name : String
  pub type : String
  pub direction : String
  pub enabled : Bool
  pub interface_name : String
  pub mark : ℤ
  pub table : ℤ
  pub mtu : ℤ
  pub remote_endpoint : String
  pub local_addresses : List String
  pub dns : List String
  pub credentials : List (String × String)
  pub options : List (String × String)
