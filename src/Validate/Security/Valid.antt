-- ===== src/Validate/Security/Valid.antt =====
-- What an accepted security section looks like.
use las.Prelude.{
  pos, ◌≤ℤ◌, Between, String, true, List, ◌++◌, ◌≡◌, ◌≢◌, ◌↔◌, ◌⊎◌, All, eq_iff, arith,
}
use las.Errors.{Passes}
use las.Errors.Laws.{each-All_iff}
use las.Names.Laws.{IsIdentifier, IsCidr}
use las.Config.{SecurityConfig, PortForward, OneToOneNat}
use las.Validate.Rules.{
  Listed, IsIp, ◌and◌, ◌&◌, Passes-fail_if, check_when-true_iff, IsIdentifier-iff, IsIp-iff,
  Between-iff, at_least_iff, IsCidr-iff, link_given_iff, All-Listed_iff, same_iff,
}
use las.Validate.Routing.Valid.{IsPort}
use las.Validate.Security.{validate_port_forward, validate_one_to_one_nat, validate_security}

module _ (links : List String) where
  abbrev pub IsValidForward : PortForward → Type 0
  IsValidForward forward =
      IsIdentifier forward.id
      and (forward.enabled ≡ true
          → (forward.input_iface ≢ "" → Listed links forward.input_iface)
            and IsPort forward.external_port
            and IsPort forward.internal_port
            and IsIp forward.internal_ip
            and All (λ proto. (proto ≡ "tcp") ⊎ (proto ≡ "udp")) forward.protocols
            and All IsCidr forward.source_cidrs)

  abbrev pub IsValidNat : OneToOneNat → Type 0
  IsValidNat nat =
      IsIdentifier nat.id
      and (nat.enabled ≡ true
          → IsCidr nat.internal_cidr
            and IsCidr nat.external_cidr
            and All (Listed links) nat.interfaces)

  abbrev pub IsValidSecurity : SecurityConfig → Type 0
  IsValidSecurity security =
      All IsPort security.management_ports
      and All IsValidForward security.port_forwards
      and All IsValidNat security.one_to_one_nat
      and All (Listed links) (security.antivirus.interfaces ++ security.ips.interfaces)
      and (pos 0 ≤ℤ security.antivirus.max_file_size_mb)
      and Between (pos 0) (pos 65535) security.ips.nf_queue
      and All IsIp security.dns_filtering.upstream
      and All (Listed links) (security.captive_portal.interfaces ++ security.upnp.internal_ifaces)
      and (security.upnp.external_iface ≢ "" → Listed links security.upnp.external_iface)

  pub validate_port_forward_iff :
      (forward : PortForward)
      → Passes (validate_port_forward links forward) ↔ IsValidForward forward
  unfolding validate_port_forward
  validate_port_forward_iff forward =
      IsIdentifier-iff _ forward.id
      & check_when-true_iff _ _ (same_iff forward.enabled) (
          link_given_iff _ links forward.input_iface
          & Between-iff _ (pos 1) (pos 65535) forward.external_port
          & Between-iff _ (pos 1) (pos 65535) forward.internal_port
          & IsIp-iff _ forward.internal_ip
          & each-All_iff forward.protocols _
              (λ proto. Passes-fail_if _ _ (ground (arith, eq_iff proto "tcp", eq_iff proto "udp")))
          & each-All_iff forward.source_cidrs _ (λ cidr. IsCidr-iff _ cidr))

  pub validate_one_to_one_nat_iff :
      (nat : OneToOneNat) → Passes (validate_one_to_one_nat links nat) ↔ IsValidNat nat
  unfolding validate_one_to_one_nat
  validate_one_to_one_nat_iff nat =
      IsIdentifier-iff _ nat.id
      & check_when-true_iff _ _ (same_iff nat.enabled) (
          IsCidr-iff _ nat.internal_cidr
          & IsCidr-iff _ nat.external_cidr
          & All-Listed_iff _ links nat.interfaces)

  pub validate_security_iff :
      (security : SecurityConfig)
      → Passes (validate_security links security) ↔ IsValidSecurity security
  unfolding validate_security
  validate_security_iff security =
      each-All_iff security.management_ports _ (λ port. Between-iff _ (pos 1) (pos 65535) port)
      & each-All_iff security.port_forwards _ validate_port_forward_iff
      & each-All_iff security.one_to_one_nat _ validate_one_to_one_nat_iff
      & All-Listed_iff _ links (security.antivirus.interfaces ++ security.ips.interfaces)
      & at_least_iff _ (pos 0) security.antivirus.max_file_size_mb
      & Between-iff _ (pos 0) (pos 65535) security.ips.nf_queue
      & each-All_iff security.dns_filtering.upstream _ (λ upstream. IsIp-iff _ upstream)
      & All-Listed_iff _ links (security.captive_portal.interfaces ++ security.upnp.internal_ifaces)
      & link_given_iff _ links security.upnp.external_iface
