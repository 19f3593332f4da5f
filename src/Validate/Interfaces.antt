-- ===== src/Validate/Interfaces.antt =====
-- internal/config/validate.go: `validateInterface` and `validateTunnel`.
pub mod Valid
use las.Prelude.{
  ℤ, pos, int_lt, int_eq, String, not, ◌&&◌, ◌||◌, none, some, List, [], ◌∷◌, contains, str_eq,
}
use las.Errors.{str, errorf, wrapf, Check, ok, ◌>>◌, fail_if, wrap, check_when, each}
use las.Names.{is_identifier, validate_cidr, is_ip}
use las.Config.{Interface, DhcpServer, Tunnel}

abbrev pub interface_roles : List String
interface_roles = "wan" ∷ "lan" ∷ "dmz" ∷ "mgmt" ∷ "tunnel" ∷ []

abbrev pub tunnel_types : List String
tunnel_types =
    "tun" ∷ "wireguard" ∷ "openvpn" ∷ "ipsec" ∷ "ipsec-vti" ∷ "vti" ∷ "l2tp" ∷ "l2tp-ipsec" ∷ "pptp"
    ∷ "sstp" ∷ "pppoe" ∷ "gre" ∷ "gretap" ∷ "eoip" ∷ "ipip" ∷ "sit" ∷ "6to4" ∷ "ip6gre" ∷ "ip6tnl"
    ∷ "erspan" ∷ "vxlan" ∷ "l2tpv3" ∷ "openconnect" ∷ "anyconnect" ∷ "globalprotect"
    ∷ "pulse-secure" ∷ "fortigate-ssl" ∷ "fortinet-ssl" ∷ "vless" ∷ "vmess" ∷ "vless-xhttp"
    ∷ "xhttp" ∷ "sing-box" ∷ "xray" ∷ "tailscale" ∷ "zerotier" ∷ "custom" ∷ []

abbrev pub tunnel_directions : List String
tunnel_directions = "client" ∷ "server" ∷ "peer" ∷ []

unfoldable pub validate_interface_address : Interface → String → Check
validate_interface_address iface address = check_when (not (str_eq address "dhcp")) (
    wrap (wrapf "interface %s address %q: %w" (str iface.name ∷ str address ∷ []))
      (validate_cidr address))

unfoldable pub validate_dhcp_server : Interface → DhcpServer → Check
validate_dhcp_server iface dhcp = do
  fail_if (not (is_ip dhcp.range_start))
      (errorf "interface %s dhcp rangeStart is not an IP address" (str iface.name ∷ []))
  fail_if (not (is_ip dhcp.range_end))
      (errorf "interface %s dhcp rangeEnd is not an IP address" (str iface.name ∷ []))
  each dhcp.dns λ dns.
      fail_if (not (is_ip dns))
        (errorf "interface %s dhcp dns %q is not an IP address" (str iface.name ∷ str dns ∷ []))

unfoldable pub validate_interface : Interface → Check
validate_interface iface = do
  fail_if (not (is_identifier iface.name))
      (errorf "invalid interface name %q" (str iface.name ∷ []))
  fail_if (not (contains interface_roles iface.role))
      (errorf "interface %s has unsupported role %q" (str iface.name ∷ str iface.role ∷ []))
  fail_if
      (not (int_eq iface.mtu (pos 0))
        && (int_lt iface.mtu (pos 576) || int_lt (pos 9216) iface.mtu))
      (errorf "interface %s mtu must be between 576 and 9216" (str iface.name ∷ []))
  each iface.addresses (validate_interface_address iface)
  fail_if (not (str_eq iface.gateway "") && not (is_ip iface.gateway)) (
      errorf "interface %s gateway %q is not an IP address"
        (str iface.name ∷ str iface.gateway ∷ []))
  each iface.dns λ dns.
      fail_if (not (is_ip dns))
        (errorf "interface %s dns %q is not an IP address" (str iface.name ∷ str dns ∷ []))
  elim iface.dhcp_server [ none ↦ ok tt | some dhcp ↦ validate_dhcp_server iface dhcp ]

unfoldable pub validate_tunnel : Tunnel → Check
validate_tunnel tunnel = do
  fail_if (not (is_identifier tunnel.id)) (errorf "invalid tunnel id %q" (str tunnel.id ∷ []))
  fail_if (not (contains tunnel_types tunnel.type))
      (errorf "tunnel %s has unsupported type %q" (str tunnel.id ∷ str tunnel.type ∷ []))
  fail_if (not (str_eq tunnel.direction "") && not (contains tunnel_directions tunnel.direction))
      (errorf "tunnel %s has unsupported direction %q" (str tunnel.id ∷ str tunnel.direction ∷ []))
  fail_if (not (str_eq tunnel.interface_name "") && not (is_identifier tunnel.interface_name)) (
      errorf "tunnel %s has invalid interface name %q"
        (str tunnel.id ∷ str tunnel.interface_name ∷ []))
  fail_if (int_lt tunnel.mark (pos 0) || int_lt (pos 0xfffffff) tunnel.mark)
      (errorf "tunnel %s mark must fit in a Linux fwmark" (str tunnel.id ∷ []))
  fail_if (int_lt tunnel.table (pos 0) || int_lt (pos 252) tunnel.table)
      (errorf "tunnel %s table must be 0-252" (str tunnel.id ∷ []))
  fail_if
      (not (int_eq tunnel.mtu (pos 0))
        && (int_lt tunnel.mtu (pos 576) || int_lt (pos 9216) tunnel.mtu))
      (errorf "tunnel %s mtu must be between 576 and 9216" (str tunnel.id ∷ []))
  each tunnel.local_addresses λ address.
      wrap (wrapf "tunnel %s local address %q: %w" (str tunnel.id ∷ str address ∷ []))
        (validate_cidr address)
  each tunnel.dns λ dns.
      fail_if (not (is_ip dns))
        (errorf "tunnel %s dns %q is not an IP address" (str tunnel.id ∷ str dns ∷ []))
