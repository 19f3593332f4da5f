-- ===== src/Config/Services.antt =====
-- internal/config/config.go: ServicesConfig and what it holds.
use las.Prelude.{String, ℤ, Bool, List}

pub record DhcpStaticLease : Type 0 where
  pub hostname : String
  pub mac : String
  pub ip : String
  pub lease : String

pub record DhcpOption : Type 0 where
  pub tag : String
  pub code : String
  pub value : String

pub record DhcpServiceConfig : Type 0 where
  pub enabled : Bool
  pub engine : String
  pub listen : List String
  pub authoritative : Bool
  pub lease_file : String
  pub static_leases : List DhcpStaticLease
  pub options : List DhcpOption

pub record DhcpClientConfig : Type 0 where
  pub enabled : Bool
  pub interfaces : List String

pub record DnsForwardZone : Type 0 where
  pub domain : String
  pub upstreams : List String

pub record DnsRecord : Type 0 where
  pub name : String
  pub type : String
  pub value : String
  pub ttl : ℤ

pub record DnsOverride : Type 0 where
  pub domain : String
  pub address : String

pub record DnsServiceConfig : Type 0 where
  pub enabled : Bool
  pub engine : String
  pub listen : List String
  pub listen_addresses : List String
  pub forwarders : List String
  pub local_domains : List String
  pub conditional_forwarders : List DnsForwardZone
  pub records : List DnsRecord
  pub address_overrides : List DnsOverride
  pub cache_size : ℤ
  pub bind_interfaces : Bool
  pub dnssec : Bool
  pub rebind_protection : Bool
  pub strict_order : Bool

pub record DnsClientConfig : Type 0 where
  pub enabled : Bool
  pub resolvers : List String
  pub fallback_resolvers : List String
  pub search : List String
  pub use_systemd_resolved : Bool
  pub write_resolv_conf : Bool
  pub dns_over_tls : Bool
  pub dnssec : String

pub record NtsConfig : Type 0 where
  pub enabled : Bool
  pub cert_file : String
  pub key_file : String

pub record NtpServiceConfig : Type 0 where
  pub enabled : Bool
  pub engine : String
  pub listen : List String
  pub allow_cidrs : List String
  pub local_stratum : ℤ
  pub nts : NtsConfig

pub record NtpClientConfig : Type 0 where
  pub enabled : Bool
  pub servers : List String
  pub pools : List String
  pub peers : List String
  pub fallback_servers : List String
  pub nts : Bool
  pub makestep : Bool

pub record MplsConfig : Type 0 where
  pub enabled : Bool
  pub interfaces : List String
  pub ldp : Bool
  pub vrf : String

pub record CertificateAuthority : Type 0 where
  pub id : String
  pub name : String
  pub source_file : String
  pub pem : String
  pub install : Bool

pub record ManagedCertificate : Type 0 where
  pub id : String
  pub domains : List String
  pub cert_file : String
  pub key_file : String
  pub chain_file : String
  pub full_chain_file : String
  pub owner_service : String
  pub renew_hook : String

pub record AcmeCertificate : Type 0 where
  pub id : String
  pub domains : List String
  pub method : String
  pub webroot : String
  pub dns_provider : String
  pub key_type : String
  pub deploy_hook : String
  pub staging : Bool

pub record AcmeConfig : Type 0 where
  pub enabled : Bool
  pub engine : String
  pub email : String
  pub directory_url : String
  pub staging : Bool
  pub webroot : String
  pub renew_timer : Bool
  pub certificates : List AcmeCertificate

pub record CertificateStore : Type 0 where
  pub enabled : Bool
  pub directory : String
  pub trust_store : String
  pub authorities : List CertificateAuthority
  pub certificates : List ManagedCertificate
  pub lets_encrypt : AcmeConfig

pub record ServicesConfig : Type 0 where
  pub dhcp_server : DhcpServiceConfig
  pub dhcp_client : DhcpClientConfig
  pub dns_server : DnsServiceConfig
  pub dns_client : DnsClientConfig
  pub ntp_server : NtpServiceConfig
  pub ntp_client : NtpClientConfig
  pub certificate_store : CertificateStore
  pub mpls : MplsConfig
