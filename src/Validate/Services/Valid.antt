-- ===== src/Validate/Services/Valid.antt =====
-- What an accepted services section looks like.
use las.Prelude.{
  refl, pos, ◌≤ℤ◌, Between, String, true, List, [], ◌∷◌, ◌++◌, ◌≡◌, ◌≢◌, ◌↔◌, ◌⊎◌, All, Any, map,
  Distinct, eq_iff, arith, contains_iff, codes, Codes,
}
use las.Errors.{Passes}
use las.Errors.Laws.{
  each-All_iff, wrap_iff, AllNew, AllNew-nil, AllNew-cons_iff, contains-false_iff,
}
use las.Names.{valid_domain_name, valid_hostname, to_upper}
use las.Names.Laws.{IsIdentifier, IsCidr, validate_resolver_iff, IsResolver, same_codes_iff}
use las.Config.{
  ServicesConfig, DhcpStaticLease, DnsForwardZone, DnsRecord, DnsOverride, CertificateStore,
  CertificateAuthority, ManagedCertificate, AcmeCertificate,
}
use las.Validate.Rules.{
  Listed, IsIp, ◌and◌, ◌&◌, iff_trans, Passes-fail_if, IsIdentifier-iff, Listed-iff, IsIp-iff,
  given_iff, Between-iff, at_least_iff, unless_empty_iff, IsCidr-iff, All-Listed_iff,
  is_empty-false_iff,
}
use las.Validate.Services.{
  dns_server_engines, dhcp_server_engines, ntp_engines, acme_engines, record_types, contains_codes,
  each_domain, validate_static_lease, validate_forward_zone, validate_dns_record,
  validate_dns_override, validate_authority, validate_certificates, validate_acme_certificate,
  validate_certificate_store, validate_dhcp_services, validate_dns_services, validate_services,
}

abbrev pub IsDomain : String → Type 0
IsDomain value = valid_domain_name (codes value) ≡ true

-- The upper case of the text is one of the record types.
abbrev pub IsRecordType : String → Type 0
IsRecordType value = Any (λ t. codes t ≡ to_upper (codes value)) record_types

abbrev pub IsValidLease : DhcpStaticLease → Type 0
IsValidLease lease =
    ((lease.hostname ≡ "") ⊎ IsDomain lease.hostname)
    and (lease.mac ≢ "")
    and ((lease.ip ≡ "") ⊎ IsIp lease.ip)

abbrev pub IsValidZone : DnsForwardZone → Type 0
IsValidZone zone = IsDomain zone.domain and All IsResolver zone.upstreams

abbrev pub IsValidRecord : DnsRecord → Type 0
IsValidRecord r = IsDomain r.name and IsRecordType r.type and (r.value ≢ "") and (pos 0 ≤ℤ r.ttl)

abbrev pub IsValidOverride : DnsOverride → Type 0
IsValidOverride override = IsDomain override.domain and IsIp override.address

abbrev pub IsValidAuthority : CertificateAuthority → Type 0
IsValidAuthority authority =
    IsIdentifier authority.id and ((authority.source_file ≢ "") ⊎ (authority.pem ≢ ""))

abbrev pub IsValidCertificate : ManagedCertificate → Type 0
IsValidCertificate cert = IsIdentifier cert.id × All IsDomain cert.domains

abbrev pub IsValidAcmeCertificate : AcmeCertificate → Type 0
IsValidAcmeCertificate cert =
    IsIdentifier cert.id
    and (cert.domains ≢ [])
    and All IsDomain cert.domains
    and Listed ("" ∷ "webroot" ∷ "standalone" ∷ "dns" ∷ []) cert.method

abbrev pub IsValidStore : CertificateStore → Type 0
IsValidStore store =
    ((store.lets_encrypt.engine ≡ "") ⊎ Listed acme_engines store.lets_encrypt.engine)
    and All IsValidAuthority store.authorities
    and (All IsValidCertificate store.certificates × Distinct (map (λ c. c.id) store.certificates))
    and All IsValidAcmeCertificate store.lets_encrypt.certificates
    and (store.lets_encrypt.enabled ≡ true → store.lets_encrypt.email ≢ "")

abbrev pub IsValidDhcp : List String → ServicesConfig → Type 0
IsValidDhcp links services =
    Listed dhcp_server_engines services.dhcp_server.engine
    and Listed dns_server_engines services.dns_server.engine
    and Listed ntp_engines services.ntp_server.engine
    and All (Listed links) services.dhcp_server.listen
    and All IsValidLease services.dhcp_server.static_leases
    and All (Listed links) services.dhcp_client.interfaces

abbrev pub IsValidDns : List String → ServicesConfig → Type 0
IsValidDns links services =
    All (Listed links) services.dns_server.listen
    and All IsIp services.dns_server.listen_addresses
    and All IsResolver (
        services.dns_server.forwarders
        ++ (services.dns_client.resolvers ++ services.dns_client.fallback_resolvers))
    and All IsValidZone services.dns_server.conditional_forwarders
    and All IsValidRecord services.dns_server.records
    and All IsValidOverride services.dns_server.address_overrides

abbrev pub IsValidServices : List String → ServicesConfig → Type 0
IsValidServices links services =
    IsValidDhcp links services
    and IsValidDns links services
    and All (Listed links) services.ntp_server.listen
    and All IsCidr services.ntp_server.allow_cidrs
    and Between (pos 0) (pos 15) services.ntp_server.local_stratum
    and All (Listed links) services.mpls.interfaces
    and IsValidStore services.certificate_store

contains_codes_iff :
    (xs : List String) (a : Codes) → (contains_codes xs a ≡ true) ↔ Any (λ x. codes x ≡ a) xs
unfolding contains_codes
contains_codes_iff [] a = ground arith
contains_codes_iff (x ∷ xs) a = ground (arith, same_codes_iff (codes x) a, contains_codes_iff xs a)

-- The loops over domains and resolvers, whatever the text of the error.
each_domain_iff :
    (format id : String) (domains : List String)
    → Passes (each_domain format id domains) ↔ All IsDomain domains
each_domain_iff format id domains =
    each-All_iff domains _ (λ domain. Passes-fail_if _ _ (ground arith))

validate_static_lease_iff :
    (lease : DhcpStaticLease) → Passes (validate_static_lease lease) ↔ IsValidLease lease
unfolding validate_static_lease valid_hostname
validate_static_lease_iff lease =
    unless_empty_iff _ lease.hostname _ (λ h. h, λ h. h)
    & given_iff _ lease.mac
    & unless_empty_iff _ lease.ip _ (λ h. h, λ h. h)

validate_forward_zone_iff :
    (zone : DnsForwardZone) → Passes (validate_forward_zone zone) ↔ IsValidZone zone
unfolding validate_forward_zone
validate_forward_zone_iff zone =
    Passes-fail_if _ _ (ground arith)
    & each-All_iff zone.upstreams _
        (λ resolver. iff_trans (wrap_iff _ _) (validate_resolver_iff resolver))

validate_dns_record_iff : (r : DnsRecord) → Passes (validate_dns_record r) ↔ IsValidRecord r
unfolding validate_dns_record
validate_dns_record_iff r =
    Passes-fail_if _ _ (ground arith)
    & Passes-fail_if _ _ (ground (arith, contains_codes_iff record_types (to_upper (codes r.type))))
    & given_iff _ r.value
    & at_least_iff _ (pos 0) r.ttl

validate_dns_override_iff :
    (override : DnsOverride) → Passes (validate_dns_override override) ↔ IsValidOverride override
unfolding validate_dns_override
validate_dns_override_iff override = Passes-fail_if _ _ (ground arith) & IsIp-iff _ override.address

validate_authority_iff :
    (authority : CertificateAuthority)
    → Passes (validate_authority authority) ↔ IsValidAuthority authority
unfolding validate_authority
validate_authority_iff authority =
    IsIdentifier-iff _ authority.id
    & Passes-fail_if _ _ (ground (arith, eq_iff authority.source_file "", eq_iff authority.pem ""))

abbrev cert_id : ManagedCertificate → String
cert_id cert = cert.id

-- The loop over the certificates, from the ids met before.
validate_certificates_from_iff :
    (ids : List String) (certs : List ManagedCertificate)
    → Passes (validate_certificates ids certs)
      ↔ (All IsValidCertificate certs × AllNew cert_id ids certs × Distinct (map cert_id certs))
unfolding validate_certificates
validate_certificates_from_iff ids [] = (λ h. (tt, tt, tt), λ h. refl)
validate_certificates_from_iff ids (cert ∷ certs) =
    let checks =
      IsIdentifier-iff _ cert.id
      & Passes-fail_if _ _ (contains-false_iff cert_id ids cert.id)
      & each_domain_iff _ cert.id cert.domains
      & validate_certificates_from_iff (cert.id ∷ ids) certs in
    let (to, from) = AllNew-cons_iff cert_id cert ids certs in
    (
      λ h.
          let (known, (new, (domains, (valid, unseen, distinct)))) = checks.0 h in
          let (others, fresh) = to unseen in
          (((known, domains), valid), (new, others), (fresh, distinct)),
      λ h. checks.1 (h.0.0.0, (h.1.0, (h.0.0.1, (h.0.1, from (h.1.1, h.2.0), h.2.1)))),
    )

validate_acme_certificate_iff :
    (cert : AcmeCertificate) → Passes (validate_acme_certificate cert) ↔ IsValidAcmeCertificate cert
unfolding validate_acme_certificate
validate_acme_certificate_iff cert =
    IsIdentifier-iff _ cert.id
    & Passes-fail_if _ _ (is_empty-false_iff cert.domains)
    & each_domain_iff _ cert.id cert.domains
    & Listed-iff _ _ cert.method

validate_certificates_iff :
    (certs : List ManagedCertificate)
    → Passes (validate_certificates [] certs)
      ↔ (All IsValidCertificate certs × Distinct (map cert_id certs))
validate_certificates_iff certs = (
  λ h.
      let (valid, _, distinct) = (validate_certificates_from_iff [] certs).0 h in (valid, distinct),
  λ h. (validate_certificates_from_iff [] certs).1 (h.0, AllNew-nil cert_id certs, h.1),
)

pub validate_certificate_store_iff :
    (store : CertificateStore) → Passes (validate_certificate_store store) ↔ IsValidStore store
unfolding validate_certificate_store
validate_certificate_store_iff store =
    unless_empty_iff _ store.lets_encrypt.engine _
      (contains_iff acme_engines store.lets_encrypt.engine)
    & each-All_iff store.authorities _ validate_authority_iff
    & validate_certificates_iff store.certificates
    & each-All_iff store.lets_encrypt.certificates _ validate_acme_certificate_iff
    & Passes-fail_if _ _ (ground (arith, eq_iff store.lets_encrypt.email ""))

module _ (links : List String) (services : ServicesConfig) where
  validate_dhcp_services_iff :
      Passes (validate_dhcp_services links services) ↔ IsValidDhcp links services
  unfolding validate_dhcp_services
  validate_dhcp_services_iff =
      Listed-iff _ dhcp_server_engines services.dhcp_server.engine
      & Listed-iff _ dns_server_engines services.dns_server.engine
      & Listed-iff _ ntp_engines services.ntp_server.engine
      & All-Listed_iff _ links services.dhcp_server.listen
      & each-All_iff services.dhcp_server.static_leases _ validate_static_lease_iff
      & All-Listed_iff _ links services.dhcp_client.interfaces

  validate_dns_services_iff :
      Passes (validate_dns_services links services) ↔ IsValidDns links services
  unfolding validate_dns_services
  validate_dns_services_iff =
      All-Listed_iff _ links services.dns_server.listen
      & each-All_iff services.dns_server.listen_addresses _ (λ address. IsIp-iff _ address)
      & each-All_iff _ _ (λ resolver. iff_trans (wrap_iff _ _) (validate_resolver_iff resolver))
      & each-All_iff services.dns_server.conditional_forwarders _ validate_forward_zone_iff
      & each-All_iff services.dns_server.records _ validate_dns_record_iff
      & each-All_iff services.dns_server.address_overrides _ validate_dns_override_iff

  pub validate_services_iff :
      Passes (validate_services links services) ↔ IsValidServices links services
  unfolding validate_services
  validate_services_iff =
      validate_dhcp_services_iff
      & validate_dns_services_iff
      & All-Listed_iff _ links services.ntp_server.listen
      & each-All_iff services.ntp_server.allow_cidrs _ (λ cidr. IsCidr-iff _ cidr)
      & Between-iff _ (pos 0) (pos 15) services.ntp_server.local_stratum
      & All-Listed_iff _ links services.mpls.interfaces
      & validate_certificate_store_iff services.certificate_store
