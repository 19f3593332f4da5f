-- ===== src/Validate/Services.antt =====
-- internal/config/validate.go: `validateServices` and `validateCertificateStore`.
pub mod Valid
use las.Prelude.{
  ℤ, pos, int_lt, String, Bool, true, false, not, ◌&&◌, ◌||◌, List, [], ◌∷◌, ◌++◌, contains,
  is_empty, codes, str_eq, Codes,
}
use las.Errors.{Error, str, errorf, wrapf, Check, ok, ◌>>◌, fail_if, wrap, each}
use las.Names.{
  is_identifier, validate_cidr, is_ip, valid_domain_name, valid_hostname, validate_resolver,
  to_upper, same_codes,
}
use las.Config.{
  ServicesConfig, DhcpServiceConfig, DhcpStaticLease, DnsServiceConfig, DnsForwardZone, DnsRecord,
  DnsOverride, NtpServiceConfig, CertificateStore, CertificateAuthority, ManagedCertificate,
  AcmeCertificate,
}

abbrev pub dns_server_engines : List String
dns_server_engines = "" ∷ "dnsmasq" ∷ "unbound" ∷ "bind" ∷ []

abbrev pub dhcp_server_engines : List String
dhcp_server_engines = "" ∷ "dnsmasq" ∷ "kea" ∷ []

abbrev pub ntp_engines : List String
ntp_engines = "" ∷ "chrony" ∷ "ntpd" ∷ []

abbrev pub acme_engines : List String
acme_engines = "" ∷ "certbot" ∷ []

abbrev pub record_types : List String
record_types = "" ∷ "A" ∷ "AAAA" ∷ "CNAME" ∷ "TXT" ∷ "MX" ∷ "SRV" ∷ "PTR" ∷ []

-- `slices.Contains(recordTypes, recordType)`, where `recordType` is given by its code points.
unfoldable pub contains_codes : List String → Codes → Bool
contains_codes [] a = false
contains_codes (x ∷ xs) a = same_codes (codes x) a || contains_codes xs a

-- A loop over names of links.
abbrev pub each_link : String → List String → List String → Check
each_link format known_links names =
    each names λ iface. fail_if (not (contains known_links iface)) (errorf format (str iface ∷ []))

unfoldable pub validate_static_lease : DhcpStaticLease → Check
validate_static_lease lease = do
  fail_if (not (str_eq lease.hostname "") && not (valid_hostname (codes lease.hostname)))
      (errorf "dhcp static lease hostname %q is invalid" (str lease.hostname ∷ []))
  fail_if (str_eq lease.mac "")
      (errorf "dhcp static lease for %s requires mac" (str lease.hostname ∷ []))
  fail_if (not (str_eq lease.ip "") && not (is_ip lease.ip))
      (errorf "dhcp static lease %s ip %q is invalid" (str lease.hostname ∷ str lease.ip ∷ []))

unfoldable pub validate_forward_zone : DnsForwardZone → Check
validate_forward_zone zone = do
  fail_if (not (valid_domain_name (codes zone.domain)))
      (errorf "dns conditional forwarder domain %q is invalid" (str zone.domain ∷ []))
  each zone.upstreams λ resolver.
      wrap
        (wrapf "dns conditional forwarder %s resolver %q: %w" (str zone.domain ∷ str resolver ∷ []))
        (validate_resolver resolver)

unfoldable pub validate_dns_record : DnsRecord → Check
validate_dns_record record_ = do
  fail_if (not (valid_domain_name (codes record_.name)))
      (errorf "dns record name %q is invalid" (str record_.name ∷ []))
  fail_if (not (contains_codes record_types (to_upper (codes record_.type))))
      (errorf "dns record %s has unsupported type %q" (str record_.name ∷ str record_.type ∷ []))
  fail_if (str_eq record_.value "") (errorf "dns record %s requires value" (str record_.name ∷ []))
  fail_if (int_lt record_.ttl (pos 0))
      (errorf "dns record %s ttl must be non-negative" (str record_.name ∷ []))

unfoldable pub validate_dns_override : DnsOverride → Check
validate_dns_override override = do
  fail_if (not (valid_domain_name (codes override.domain)))
      (errorf "dns override domain %q is invalid" (str override.domain ∷ []))
  fail_if (not (is_ip override.address)) (
      errorf "dns override %s address %q is invalid"
        (str override.domain ∷ str override.address ∷ []))

-- A loop over the domains of a certificate.
abbrev pub each_domain : String → String → List String → Check
each_domain format id domains = each domains λ domain.
    fail_if (not (valid_domain_name (codes domain))) (errorf format (str id ∷ str domain ∷ []))

unfoldable pub validate_authority : CertificateAuthority → Check
validate_authority authority = do
  fail_if (not (is_identifier authority.id))
      (errorf "invalid certificate authority id %q" (str authority.id ∷ []))
  fail_if (str_eq authority.source_file "" && str_eq authority.pem "")
      (errorf "certificate authority %s requires sourceFile or pem" (str authority.id ∷ []))

-- The loop over the managed certificates, with the ids met before.
unfoldable pub validate_certificates : List String → List ManagedCertificate → Check
validate_certificates ids [] = ok tt
validate_certificates ids (cert ∷ certs) = do
  fail_if (not (is_identifier cert.id)) (errorf "invalid certificate id %q" (str cert.id ∷ []))
  fail_if (contains ids cert.id) (errorf "duplicate certificate id %q" (str cert.id ∷ []))
  each_domain "certificate %s domain %q is invalid" cert.id cert.domains
  validate_certificates (cert.id ∷ ids) certs

unfoldable pub validate_acme_certificate : AcmeCertificate → Check
validate_acme_certificate cert = do
  fail_if (not (is_identifier cert.id))
      (errorf "invalid letsencrypt certificate id %q" (str cert.id ∷ []))
  fail_if (is_empty cert.domains)
      (errorf "letsencrypt certificate %s requires at least one domain" (str cert.id ∷ []))
  each_domain "letsencrypt certificate %s domain %q is invalid" cert.id cert.domains
  fail_if (not (contains ("" ∷ "webroot" ∷ "standalone" ∷ "dns" ∷ []) cert.method)) (
      errorf "letsencrypt certificate %s has unsupported method %q"
        (str cert.id ∷ str cert.method ∷ []))

unfoldable pub validate_certificate_store : CertificateStore → Check
validate_certificate_store store = do
  fail_if
      (not (str_eq store.lets_encrypt.engine "")
        && not (contains acme_engines store.lets_encrypt.engine))
      (errorf "letsencrypt has unsupported engine %q" (str store.lets_encrypt.engine ∷ []))
  each store.authorities validate_authority
  validate_certificates [] store.certificates
  each store.lets_encrypt.certificates validate_acme_certificate
  fail_if (store.lets_encrypt.enabled && str_eq store.lets_encrypt.email "")
      (errorf "letsencrypt email is required when ACME is enabled" [])

-- The checks of `validateServices`, up to the DHCP client's interfaces.
unfoldable pub validate_dhcp_services : List String → ServicesConfig → Check
validate_dhcp_services known_links services = do
  fail_if (not (contains dhcp_server_engines services.dhcp_server.engine))
      (errorf "dhcp server has unsupported engine %q" (str services.dhcp_server.engine ∷ []))
  fail_if (not (contains dns_server_engines services.dns_server.engine))
      (errorf "dns server has unsupported engine %q" (str services.dns_server.engine ∷ []))
  fail_if (not (contains ntp_engines services.ntp_server.engine))
      (errorf "ntp server has unsupported engine %q" (str services.ntp_server.engine ∷ []))
  each_link "dhcp server references unknown link %q" known_links services.dhcp_server.listen
  each services.dhcp_server.static_leases validate_static_lease
  each_link "dhcp client references unknown link %q" known_links services.dhcp_client.interfaces

-- Its checks of the DNS server, with the resolvers of the DNS client.
unfoldable pub validate_dns_services : List String → ServicesConfig → Check
validate_dns_services known_links services = do
  each_link "dns server references unknown link %q" known_links services.dns_server.listen
  each services.dns_server.listen_addresses λ address.
      fail_if (not (is_ip address))
        (errorf "dns listen address %q is not an IP address" (str address ∷ []))
  each
      (services.dns_server.forwarders
        ++ (services.dns_client.resolvers ++ services.dns_client.fallback_resolvers))
      λ resolver.
        wrap (wrapf "dns resolver %q: %w" (str resolver ∷ [])) (validate_resolver resolver)
  each services.dns_server.conditional_forwarders validate_forward_zone
  each services.dns_server.records validate_dns_record
  each services.dns_server.address_overrides validate_dns_override

unfoldable pub validate_services : List String → ServicesConfig → Check
validate_services known_links services = do
  validate_dhcp_services known_links services
  validate_dns_services known_links services
  each_link "ntp server references unknown link %q" known_links services.ntp_server.listen
  each services.ntp_server.allow_cidrs
      λ cidr. wrap (wrapf "ntp allow cidr %q: %w" (str cidr ∷ [])) (validate_cidr cidr)
  fail_if
      (int_lt services.ntp_server.local_stratum (pos 0)
        || int_lt (pos 15) services.ntp_server.local_stratum)
      (errorf "ntp localStratum must be 0-15" [])
  each_link "mpls references unknown link %q" known_links services.mpls.interfaces
  validate_certificate_store services.certificate_store
