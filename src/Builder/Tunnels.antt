-- ===== src/Builder/Tunnels.antt =====
-- internal/router/builder.go: `addTunnelPlan`.
pub mod OpenVpn
pub mod Ssl
pub mod Links
use las.Prelude.{
  String, Bool, true, false, not, ◌||◌, List, [], ◌∷◌, ◌++◌, contains, is_empty, str_eq, ◌<>◌,
  if◌then◌else◌,
}
use las.Errors.{str}
use las.Fmt.{sprintf, itoa}
use las.Config.{Tunnel}
use las.Builder.Trace.{
  Calls, command, warning, only_if, one, for_each, has_text, is_positive, or_text,
}
use las.Builder.Tunnels.OpenVpn.{credential_of, option_of, add_open_vpn_plan}
use las.Builder.Tunnels.Ssl.{
  open_connect_protocol, add_open_connect_plan, add_forti_gate_ssl_plan,
  add_proxy_tunnel_service_plan,
}
use las.Builder.Tunnels.Links.{add_ip_tunnel_plan, add_ip_link_tunnel_plan, add_vxlan_plan}

enable_now : String → String → Calls
enable_now description service =
    one (command description "systemctl" ("enable" ∷ "--now" ∷ service ∷ []))

tun_plan : Tunnel → Calls
tun_plan t = one (
    command ("ensure TUN device " <> t.interface_name) "sh" (
      "-c"
      ∷ sprintf "ip link show dev %s >/dev/null 2>&1 || ip tuntap add dev %s mode tun"
          (str t.interface_name ∷ str t.interface_name ∷ [])
      ∷ []))

wireguard_plan : Tunnel → Calls
wireguard_plan t =
    let config_file = credential_of t "configFile" in
    if not (has_text config_file)
    then one (warning "wireguard tunnel %s has no credentials.configFile" (str t.id ∷ []))
    else command ("ensure WireGuard interface " <> t.interface_name) "sh" (
        "-c"
        ∷ sprintf "ip link show dev %s >/dev/null 2>&1 || ip link add dev %s type wireguard"
            (str t.interface_name ∷ str t.interface_name ∷ [])
        ∷ [])
      ∷ command ("load WireGuard config for " <> t.id) "wg"
          ("setconf" ∷ t.interface_name ∷ config_file ∷ [])
      ∷ []

ipsec_plan : Tunnel → Calls
unfolding enable_now
ipsec_plan t =
    one (
      warning
        "IPsec/L2TP tunnel %s requires strongSwan/xl2tpd secrets and peer profile files under /etc; full profile rendering is TODO"
        (str t.id ∷ []))
    ++ enable_now "enable strongSwan" "strongswan"
    ++ only_if (str_eq t.type "l2tp" || str_eq t.type "l2tp-ipsec")
        (enable_now "enable xl2tpd" "xl2tpd")

ppp_plan : Tunnel → Calls
unfolding enable_now
ppp_plan t =
    let service = or_text (option_of t "service") ("ppp@" <> t.id) in
    one (
      warning "%s tunnel %s is PPP-backed; provide peer/secrets files and expose interface %s"
        (str t.type ∷ str t.id ∷ str t.interface_name ∷ []))
    ++ enable_now ("enable PPP tunnel service " <> service) service

overlay_plan : Tunnel → Calls
unfolding enable_now
overlay_plan t =
    let service = if str_eq t.type "zerotier" then "zerotier-one" else t.type in
    one (
      warning "%s tunnel %s is managed by its own control plane; lasd routes traffic into %s"
        (str t.type ∷ str t.id ∷ str t.interface_name ∷ []))
    ++ enable_now ("enable " <> service <> " service") service

custom_plan : Tunnel → Calls
unfolding enable_now
custom_plan t =
    let service = option_of t "service" in
    if not (has_text service)
    then one (warning "custom tunnel %s has no options.service" (str t.id ∷ []))
    else enable_now ("enable custom tunnel service " <> service) service

-- The `switch` on the type: the calls, and `serviceManagedDevice`.
unfoldable pub backend_plan : Tunnel → Calls × Bool
unfolding tun_plan wireguard_plan ipsec_plan ppp_plan overlay_plan custom_plan
backend_plan t =
    if str_eq t.type "tun"
    then (tun_plan t, false)
    else if str_eq t.type "wireguard"
    then (wireguard_plan t, false)
    else if contains
        ("gre" ∷ "ipip" ∷ "sit" ∷ "6to4" ∷ "ip6gre" ∷ "ip6tnl" ∷ "vti" ∷ "ipsec-vti" ∷ []) t.type
    then (add_ip_tunnel_plan t, false)
    else if contains ("gretap" ∷ "erspan" ∷ []) t.type
    then (add_ip_link_tunnel_plan t, false)
    else if str_eq t.type "vxlan"
    then (add_vxlan_plan t, false)
    else if str_eq t.type "eoip"
    then (
      one (
          warning
            "EoIP tunnel %s is MikroTik GRE-based L2 tunneling; model it as gretap/VXLAN for Linux interoperability or provide an external EoIP-compatible service"
            (str t.id ∷ [])),
      false,
    )
    else if str_eq t.type "l2tpv3"
    then (
      one (
          warning "L2TPv3 tunnel %s is modeled; full ip l2tp session/pseudowire rendering is TODO"
            (str t.id ∷ [])),
      false,
    )
    else if str_eq t.type "openvpn"
    then (add_open_vpn_plan t, true)
    else if contains ("openconnect" ∷ "anyconnect" ∷ "globalprotect" ∷ "pulse-secure" ∷ []) t.type
    then (add_open_connect_plan t (open_connect_protocol t.type t.options), true)
    else if contains ("fortigate-ssl" ∷ "fortinet-ssl" ∷ []) t.type
    then (add_forti_gate_ssl_plan t, true)
    else if contains ("ipsec" ∷ "l2tp" ∷ "l2tp-ipsec" ∷ []) t.type
    then (ipsec_plan t, false)
    else if contains ("pptp" ∷ "sstp" ∷ "pppoe" ∷ []) t.type
    then (ppp_plan t, true)
    else if contains ("vless" ∷ "vmess" ∷ "vless-xhttp" ∷ "xhttp" ∷ "xray" ∷ "sing-box" ∷ []) t.type
    then (add_proxy_tunnel_service_plan t, true)
    else if contains ("tailscale" ∷ "zerotier" ∷ []) t.type
    then (overlay_plan t, true)
    else if str_eq t.type "custom"
    then (custom_plan t, has_text (option_of t "service"))
    else ([], false)

-- What follows the `switch`.
unfoldable pub device_plan : Tunnel → Bool → Calls
device_plan t managed =
    (if managed
      then only_if (is_positive t.mtu || not (is_empty t.local_addresses)) (
          one (
            warning
              "tunnel %s is service-managed; MTU and local addresses are rendered into the backend config where supported"
              (str t.id ∷ [])))
      else only_if (is_positive t.mtu) (
          one (
            command ("set mtu for " <> t.interface_name) "ip"
              ("link" ∷ "set" ∷ "dev" ∷ t.interface_name ∷ "mtu" ∷ itoa t.mtu ∷ []))))
    ++ only_if (not managed) (
        one (
          command ("bring up tunnel " <> t.interface_name) "ip"
            ("link" ∷ "set" ∷ "dev" ∷ t.interface_name ∷ "up" ∷ []))
        ++ for_each t.local_addresses (λ address. one (
            command ("assign " <> address <> " to " <> t.interface_name) "ip"
              ("address" ∷ "replace" ∷ address ∷ "dev" ∷ t.interface_name ∷ []))))
    ++ only_if (is_positive t.table) (
        one (
          command ("route tunnel table " <> itoa t.table) "ip" (
            "route"
            ∷ "replace"
            ∷ "default"
            ∷ "dev"
            ∷ t.interface_name
            ∷ "table"
            ∷ itoa t.table
            ∷ [])))

-- The body of the loop.
unfoldable pub tunnel_plan : Tunnel → Calls
tunnel_plan t =
    if not t.enabled
    then []
    else if not (has_text t.interface_name)
    then one (
        warning
          "tunnel %s is enabled without interfaceName; routing rules can mark traffic but no device route will be created"
          (str t.id ∷ []))
    else (backend_plan t).0 ++ device_plan t (backend_plan t).1

unfoldable pub add_tunnel_plan : List Tunnel → Calls
add_tunnel_plan tunnels = for_each tunnels tunnel_plan
