-- ===== src/Validate/Interfaces/Valid.antt =====
-- What an accepted interface and an accepted tunnel look like.
use las.Prelude.{
  ℤ, pos, Between, String, Option, none, some, ◌≡◌, ◌≢◌, ◌↔◌, ◌⊎◌, All, eq_iff, refl, arith,
  contains_iff,
}
use las.Errors.{Passes, ok}
use las.Errors.Laws.{each-All_iff}
use las.Names.Laws.{IsIdentifier, IsCidr, is_identifier_iff}
use las.Config.{Interface, DhcpServer, Tunnel}
use las.Validate.Rules.{
  Listed, IsIp, ◌and◌, ◌&◌, check_when-true_iff, IsIdentifier-iff, Listed-iff, IsIp-iff,
  Between-iff, zero_or_Between_iff, unless_empty_iff, IsCidr-iff,
}
use las.Validate.Interfaces.{
  interface_roles, tunnel_types, tunnel_directions, validate_interface_address,
  validate_dhcp_server, validate_interface, validate_tunnel,
}

abbrev pub IsValidMtu : ℤ → Type 0
IsValidMtu mtu = (mtu ≡ pos 0) ⊎ Between (pos 576) (pos 9216) mtu

abbrev pub IsFwmark : ℤ → Type 0
IsFwmark = Between (pos 0) (pos 0xfffffff)

abbrev pub IsTable : ℤ → Type 0
IsTable = Between (pos 0) (pos 252)

abbrev pub IsValidDhcpServer : DhcpServer → Type 0
IsValidDhcpServer dhcp = IsIp dhcp.range_start and IsIp dhcp.range_end and All IsIp dhcp.dns

abbrev pub IsValidDhcp : Option DhcpServer → Type 0
IsValidDhcp none = Unit
IsValidDhcp (some dhcp) = IsValidDhcpServer dhcp

abbrev pub IsValidInterface : Interface → Type 0
IsValidInterface iface =
    IsIdentifier iface.name
    and Listed interface_roles iface.role
    and IsValidMtu iface.mtu
    and All (λ address. address ≢ "dhcp" → IsCidr address) iface.addresses
    and ((iface.gateway ≡ "") ⊎ IsIp iface.gateway)
    and All IsIp iface.dns
    and IsValidDhcp iface.dhcp_server

abbrev pub IsValidTunnel : Tunnel → Type 0
IsValidTunnel tunnel =
    IsIdentifier tunnel.id
    and Listed tunnel_types tunnel.type
    and ((tunnel.direction ≡ "") ⊎ Listed tunnel_directions tunnel.direction)
    and ((tunnel.interface_name ≡ "") ⊎ IsIdentifier tunnel.interface_name)
    and IsFwmark tunnel.mark
    and IsTable tunnel.table
    and IsValidMtu tunnel.mtu
    and All IsCidr tunnel.local_addresses
    and All IsIp tunnel.dns

validate_interface_address_iff :
    (iface : Interface) (address : String)
    → Passes (validate_interface_address iface address) ↔ (address ≢ "dhcp" → IsCidr address)
unfolding validate_interface_address
validate_interface_address_iff iface address =
    check_when-true_iff _ _ (ground (arith, eq_iff address "dhcp")) (IsCidr-iff _ address)

validate_dhcp_server_iff :
    (iface : Interface) (dhcp : DhcpServer)
    → Passes (validate_dhcp_server iface dhcp) ↔ IsValidDhcpServer dhcp
unfolding validate_dhcp_server
validate_dhcp_server_iff iface dhcp =
    IsIp-iff _ dhcp.range_start
    & IsIp-iff _ dhcp.range_end
    & each-All_iff dhcp.dns _ (λ dns. IsIp-iff _ dns)

validate_dhcp_iff :
    (iface : Interface) (d : Option DhcpServer)
    → Passes (elim d [ none ↦ ok tt | some dhcp ↦ validate_dhcp_server iface dhcp ]) ↔ IsValidDhcp d
validate_dhcp_iff iface none = (λ _. tt, λ _. refl)
validate_dhcp_iff iface (some dhcp) = validate_dhcp_server_iff iface dhcp

pub validate_interface_iff :
    (iface : Interface) → Passes (validate_interface iface) ↔ IsValidInterface iface
unfolding validate_interface
validate_interface_iff iface =
    IsIdentifier-iff _ iface.name
    & Listed-iff _ interface_roles iface.role
    & zero_or_Between_iff _ (pos 576) (pos 9216) iface.mtu
    & each-All_iff iface.addresses _ (validate_interface_address_iff iface)
    & unless_empty_iff _ iface.gateway _ (λ h. h, λ h. h)
    & each-All_iff iface.dns _ (λ dns. IsIp-iff _ dns)
    & validate_dhcp_iff iface iface.dhcp_server

pub validate_tunnel_iff : (tunnel : Tunnel) → Passes (validate_tunnel tunnel) ↔ IsValidTunnel tunnel
unfolding validate_tunnel
validate_tunnel_iff tunnel =
    IsIdentifier-iff _ tunnel.id
    & Listed-iff _ tunnel_types tunnel.type
    & unless_empty_iff _ tunnel.direction _ (contains_iff tunnel_directions tunnel.direction)
    & unless_empty_iff _ tunnel.interface_name _ (is_identifier_iff tunnel.interface_name)
    & Between-iff _ (pos 0) (pos 0xfffffff) tunnel.mark
    & Between-iff _ (pos 0) (pos 252) tunnel.table
    & zero_or_Between_iff _ (pos 576) (pos 9216) tunnel.mtu
    & each-All_iff tunnel.local_addresses _ (λ address. IsCidr-iff _ address)
    & each-All_iff tunnel.dns _ (λ dns. IsIp-iff _ dns)
