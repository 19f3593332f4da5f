-- ===== src/Builder/Services.antt =====
-- internal/router/builder.go: `addServicesPlan`.
pub mod Dns
pub mod Ntp
use las.Prelude.{String, Bool, true, false, ◌||◌, List, [], ◌∷◌, ◌++◌, join, str_eq, if◌then◌else◌}
use las.Errors.{str}
use las.Config.{Config, DnsClientConfig, ServicesConfig}
use las.Builder.Trace.{Calls, command, write, warning, only_if, one}
use las.Builder.Services.Dns.{
  render_dns_masq_service_config, render_unbound_config, render_bind_config, render_resolved_config,
  render_resolv_conf,
}
use las.Builder.Services.Ntp.{render_chrony_config, render_ntpd_config}

-- A profile and the service that reads it.
service_with : String → String → String → String → String → Calls
service_with description path content enable service =
    write description path "0644" content
    ∷ command enable "systemctl" ("enable" ∷ "--now" ∷ service ∷ [])
    ∷ []

dhcp_only : Config → Calls
unfolding service_with
dhcp_only c = only_if c.services.dhcp_server.enabled (
    service_with "render dnsmasq DHCP-only profile" "/etc/dnsmasq.d/las-dhcp.conf"
      (render_dns_masq_service_config c) "enable dnsmasq for DHCP" "dnsmasq")

-- The `switch` on the DNS engine.
dns_server_plan : Config → Calls
unfolding service_with dhcp_only
dns_server_plan c =
    let engine = c.services.dns_server.engine in
    if str_eq engine "" || str_eq engine "dnsmasq"
    then service_with "render dnsmasq service profile" "/etc/dnsmasq.d/las-services.conf"
        (render_dns_masq_service_config c) "enable dnsmasq for DHCP/DNS" "dnsmasq"
    else if str_eq engine "unbound"
    then dhcp_only c
      ++ service_with "render unbound DNS server profile" "/etc/unbound/unbound.conf.d/las.conf"
          (render_unbound_config c.services.dns_server) "enable unbound DNS server" "unbound"
    else only_if (str_eq engine "bind") (
        dhcp_only c
        ++ service_with "render BIND local zone include" "/etc/bind/named.conf.las"
            (render_bind_config c.services.dns_server) "enable BIND DNS server" "bind9"
        ++ one (
            warning
              "BIND profile is rendered as /etc/bind/named.conf.las; include it from named.conf.local before relying on it"
              []))

dns_client_plan : DnsClientConfig → Calls
unfolding service_with
dns_client_plan client =
    only_if client.use_systemd_resolved (
      one (
        command "ensure systemd-resolved config directory" "install"
          ("-d" ∷ "-m" ∷ "0755" ∷ "/etc/systemd/resolved.conf.d" ∷ []))
      ++ service_with "render systemd-resolved DNS client profile"
          "/etc/systemd/resolved.conf.d/las.conf" (render_resolved_config client)
          "enable systemd-resolved DNS client" "systemd-resolved")
    ++ only_if client.write_resolv_conf (
        one (
          write "render resolv.conf DNS client profile" "/etc/resolv.conf" "0644"
            (render_resolv_conf client)))

ntp_plan : ServicesConfig → Calls
unfolding service_with
ntp_plan s =
    if str_eq s.ntp_server.engine "" || str_eq s.ntp_server.engine "chrony"
    then service_with "render chrony profile" "/etc/chrony/conf.d/las.conf"
        (render_chrony_config s.ntp_server s.ntp_client) "enable chrony" "chrony"
    else only_if (str_eq s.ntp_server.engine "ntpd") (
        service_with "render ntpsec profile" "/etc/ntpsec/ntp.conf"
          (render_ntpd_config s.ntp_server s.ntp_client) "enable ntpsec" "ntpsec")

unfoldable pub add_services_plan : Config → Calls
unfolding dns_server_plan dns_client_plan ntp_plan
add_services_plan c =
    let s = c.services in
    only_if (s.dhcp_server.enabled || s.dns_server.enabled) (dns_server_plan c)
    ++ only_if s.dhcp_client.enabled (
        one (
          warning
            "DHCP client is modeled on interfaces %s; use systemd-networkd, NetworkManager, or dhclient renderer TODO"
            (str (join s.dhcp_client.interfaces ",") ∷ [])))
    ++ only_if s.dns_client.enabled (dns_client_plan s.dns_client)
    ++ only_if (s.ntp_server.enabled || s.ntp_client.enabled) (ntp_plan s)
    ++ only_if s.mpls.enabled (
        warning
          "MPLS is modeled for links %s; enable kernel MPLS modules and complete FRR LDP/VPLS renderer TODO"
          (str (join s.mpls.interfaces ",") ∷ [])
        ∷ command "enable FRR for MPLS/LDP" "systemctl" ("enable" ∷ "--now" ∷ "frr" ∷ [])
        ∷ [])
