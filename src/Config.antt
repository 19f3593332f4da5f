-- ===== src/Config.antt =====
-- internal/config/config.go: the records of the configuration, a child for each part of the file.
mod Host
mod Routing
mod Security
mod Services
mod Platform
mod Root
mod Zero
mod Default
pub use Host.{HostConfig, UiConfig, DhcpServer, Interface, Tunnel}
pub use Routing.{
  RouteSet, WanMember, WanGroup, StaticRoute, PortRange, RuleMatch, RuleAction, RouteRule,
  RoutingConfig,
}
pub use Security.{
  PortForward, OneToOneNat, AntivirusConfig, IpsConfig, DnsFilteringConf, ThreatFeedConfig,
  CaptivePortal, RadiusConfig, UpnpConfig, SecurityConfig,
}
pub use Services.{
  DhcpStaticLease, DhcpOption, DhcpServiceConfig, DhcpClientConfig, DnsForwardZone, DnsRecord,
  DnsOverride, DnsServiceConfig, DnsClientConfig, NtsConfig, NtpServiceConfig, NtpClientConfig,
  MplsConfig, CertificateAuthority, ManagedCertificate, AcmeCertificate, AcmeConfig,
  CertificateStore, ServicesConfig,
}
pub use Platform.{
  Vlan, Bridge, Bond, Vrrp, L2Config, Vrf, RoutingPeer, BgpConfig, OspfConfig, RipConfig, BfdConfig,
  RouteMap, DynamicRouting, QosQueue, QosConfig, SnmpConfig, NetFlowConfig, TrafficGraphsConfig,
  MonitoringConfig, AuditLogConfig, RollbackWatchdog, ScheduledJob, BackupConfig, AutomationConfig,
  User, Role, AccessConfig, PlatformConfig,
}
pub use Root.{Config}
pub use Default.{current_version, default_config}
