-- ===== src/Validate/Security.antt =====
-- internal/config/validate.go: `validateSecurity`, `validatePortForward` and `validateOneToOneNAT`.
pub mod Valid
use las.Prelude.{pos, int_lt, String, not, ◌&&◌, ◌||◌, List, [], ◌∷◌, ◌++◌, contains, str_eq}
use las.Errors.{str, int, errorf, wrapf, Check, ◌>>◌, fail_if, wrap, check_when, each}
use las.Names.{is_identifier, validate_cidr, is_ip}
use las.Config.{SecurityConfig, PortForward, OneToOneNat}

-- A disabled forward is accepted once its id is.
unfoldable pub validate_port_forward : List String → PortForward → Check
validate_port_forward known_links forward = do
  fail_if (not (is_identifier forward.id))
      (errorf "invalid port forward id %q" (str forward.id ∷ []))
  check_when forward.enabled do
    check_when (not (str_eq forward.input_iface "")) (
        fail_if (not (contains known_links forward.input_iface)) (
          errorf "port forward %s references unknown input link %q"
            (str forward.id ∷ str forward.input_iface ∷ [])))
    fail_if (int_lt forward.external_port (pos 1) || int_lt (pos 65535) forward.external_port)
        (errorf "port forward %s external port is invalid" (str forward.id ∷ []))
    fail_if (int_lt forward.internal_port (pos 1) || int_lt (pos 65535) forward.internal_port)
        (errorf "port forward %s internal port is invalid" (str forward.id ∷ []))
    fail_if (not (is_ip forward.internal_ip)) (
        errorf "port forward %s internal IP %q is invalid"
          (str forward.id ∷ str forward.internal_ip ∷ []))
    each forward.protocols λ proto.
        fail_if (not (str_eq proto "tcp") && not (str_eq proto "udp")) (
          errorf "port forward %s protocol %q must be tcp or udp" (str forward.id ∷ str proto ∷ []))
    each forward.source_cidrs λ cidr.
        wrap (wrapf "port forward %s source cidr %q: %w" (str forward.id ∷ str cidr ∷ []))
          (validate_cidr cidr)

unfoldable pub validate_one_to_one_nat : List String → OneToOneNat → Check
validate_one_to_one_nat known_links nat = do
  fail_if (not (is_identifier nat.id)) (errorf "invalid 1:1 NAT id %q" (str nat.id ∷ []))
  check_when nat.enabled do
    wrap (wrapf "1:1 NAT %s internal cidr %q: %w" (str nat.id ∷ str nat.internal_cidr ∷ []))
        (validate_cidr nat.internal_cidr)
    wrap (wrapf "1:1 NAT %s external cidr %q: %w" (str nat.id ∷ str nat.external_cidr ∷ []))
        (validate_cidr nat.external_cidr)
    each nat.interfaces λ iface.
        fail_if (not (contains known_links iface))
          (errorf "1:1 NAT %s references unknown link %q" (str nat.id ∷ str iface ∷ []))

unfoldable pub validate_security : List String → SecurityConfig → Check
validate_security known_links security = do
  each security.management_ports λ port.
      fail_if (int_lt port (pos 1) || int_lt (pos 65535) port)
        (errorf "security management port %d is invalid" (int port ∷ []))
  each security.port_forwards (validate_port_forward known_links)
  each security.one_to_one_nat (validate_one_to_one_nat known_links)
  each (security.antivirus.interfaces ++ security.ips.interfaces) λ iface.
      fail_if (not (contains known_links iface))
        (errorf "security references unknown link %q" (str iface ∷ []))
  fail_if (int_lt security.antivirus.max_file_size_mb (pos 0))
      (errorf "antivirus maxFileSizeMB must be non-negative" [])
  fail_if (int_lt security.ips.nf_queue (pos 0) || int_lt (pos 65535) security.ips.nf_queue)
      (errorf "ips nfqueue must be 0-65535" [])
  each security.dns_filtering.upstream λ upstream.
      fail_if (not (is_ip upstream))
        (errorf "dns filtering upstream %q is not an IP address" (str upstream ∷ []))
  each (security.captive_portal.interfaces ++ security.upnp.internal_ifaces) λ iface.
      fail_if (not (contains known_links iface))
        (errorf "security service references unknown link %q" (str iface ∷ []))
  check_when (not (str_eq security.upnp.external_iface "")) (
      fail_if (not (contains known_links security.upnp.external_iface))
        (errorf "upnp external interface %q is unknown" (str security.upnp.external_iface ∷ [])))
