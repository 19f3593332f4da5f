-- ===== src/Config/Platform.antt =====
-- internal/config/config.go: PlatformConfig and what it holds.
use las.Prelude.{String, ℤ, Bool, List}

pub record Vlan : Type 0 where
  pub name : String
  pub parent : String
  pub id : ℤ
  pub mtu : ℤ
  pub role : String
  pub ips : List String

pub record Bridge : Type 0 where
  pub name : String
  pub members : List String
  pub stp : Bool
  pub vlan_aware : Bool
  pub vlans : List ℤ
  pub mtu : ℤ
  pub description : String

pub record Bond : Type 0 where
  pub name : String
  pub members : List String
  pub mode : String
  pub lacp : String
  pub mtu : ℤ

pub record Vrrp : Type 0 where
  pub id : String
  pub interface : String
  pub vrid : ℤ
  pub priority : ℤ
  pub vips : List String
  pub preempt : Bool

pub record L2Config : Type 0 where
  pub vlans : List Vlan
  pub bridges : List Bridge
  pub bonds : List Bond
  pub vrrp : List Vrrp

pub record Vrf : Type 0 where
  pub name : String
  pub table : ℤ
  pub interfaces : List String

pub record RoutingPeer : Type 0 where
  pub name : String
  pub address : String
  pub remote_asn : ℤ
  pub password : String
  pub interface : String
  pub multihop : ℤ
  pub route_map_in : String
  pub route_map_out : String

pub record BgpConfig : Type 0 where
  pub enabled : Bool
  pub asn : ℤ
  pub router_id : String
  pub networks : List String
  pub peers : List RoutingPeer

pub record OspfConfig : Type 0 where
  pub enabled : Bool
  pub router_id : String
  pub networks : List String

pub record RipConfig : Type 0 where
  pub enabled : Bool
  pub networks : List String

pub record BfdConfig : Type 0 where
  pub enabled : Bool
  pub peers : List RoutingPeer

pub record RouteMap : Type 0 where
  pub name : String
  pub sequence : ℤ
  pub action : String
  pub matches : List String
  pub sets : List String

pub record DynamicRouting : Type 0 where
  pub vrfs : List Vrf
  pub bgp : BgpConfig
  pub ospf : OspfConfig
  pub rip : RipConfig
  pub bfd : BfdConfig
  pub route_maps : List RouteMap

pub record QosQueue : Type 0 where
  pub id : String
  pub interface : String
  pub kind : String
  pub rate : String
  pub ceil : String
  pub priority : ℤ
  pub match_mark : ℤ

pub record QosConfig : Type 0 where
  pub enabled : Bool
  pub queues : List QosQueue

pub record SnmpConfig : Type 0 where
  pub enabled : Bool
  pub community : String
  pub listen : String
  pub location : String
  pub contact : String

pub record NetFlowConfig : Type 0 where
  pub enabled : Bool
  pub engine : String
  pub collector : String
  pub port : ℤ
  pub interfaces : List String

pub record TrafficGraphsConfig : Type 0 where
  pub enabled : Bool
  pub engine : String
  pub listen : String

pub record MonitoringConfig : Type 0 where
  pub snmp : SnmpConfig
  pub net_flow : NetFlowConfig
  pub traffic_graphs : TrafficGraphsConfig

pub record AuditLogConfig : Type 0 where
  pub enabled : Bool
  pub path : String

pub record RollbackWatchdog : Type 0 where
  pub enabled : Bool
  pub probe_target : String
  pub timeout : String
  pub recovery_path : String

pub record ScheduledJob : Type 0 where
  pub id : String
  pub enabled : Bool
  pub schedule : String
  pub command : String

pub record BackupConfig : Type 0 where
  pub enabled : Bool
  pub schedule : String
  pub destination : String
  pub encrypt : Bool

pub record AutomationConfig : Type 0 where
  pub audit_log : AuditLogConfig
  pub rollback_watchdog : RollbackWatchdog
  pub scheduler : List ScheduledJob
  pub backup : BackupConfig

pub record User : Type 0 where
  pub username : String
  pub password_hash : String
  pub roles : List String
  pub disabled : Bool

pub record Role : Type 0 where
  pub name : String
  pub permissions : List String

pub record AccessConfig : Type 0 where
  pub auth_enabled : Bool
  pub session_ttl : String
  pub users : List User
  pub roles : List Role

pub record PlatformConfig : Type 0 where
  pub l2 : L2Config
  pub routing : DynamicRouting
  pub qos : QosConfig
  pub monitor : MonitoringConfig
  pub automation : AutomationConfig
  pub access : AccessConfig
