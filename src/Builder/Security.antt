-- ===== src/Builder/Security.antt =====
-- internal/router/builder.go: `addSecurityPlan` and the profiles that it renders.
use las.Prelude.{String, Bool, ◌||◌, [], ◌∷◌, ◌++◌, join, str_eq, ◌<>◌, if◌then◌else◌}
use las.Errors.{str, int}
use las.Fmt.{sprintf}
use las.Config.{
  Config, AntivirusConfig, CaptivePortal, DnsFilteringConf, IpsConfig, RadiusConfig, UpnpConfig,
}
use las.Builder.Trace.{
  Calls, command, write, warning, only_if, one, for_each, has_text, line, built,
}

-- `%t`
unfoldable pub bool_text : Bool → String
bool_text b = if b then "true" else "false"

unfoldable pub render_suricata_config : IpsConfig → String
render_suricata_config ips = built (
    "%YAML 1.1\n---\n"
    ∷ "vars:\n  address-groups:\n    HOME_NET: \"[192.168.0.0/16,10.0.0.0/8,172.16.0.0/12]\"\n"
    ∷ (if str_eq ips.mode "nfqueue"
        then "nfq:\n"
          ∷ sprintf "  mode: accept\n  queues:\n    - id: %d\n" (int ips.nf_queue ∷ [])
          ∷ []
        else one "af-packet:\n"
          ++ for_each ips.interfaces (λ iface. one (
              sprintf
                "  - interface: %s\n    cluster-id: 99\n    cluster-type: cluster_flow\n    defrag: yes\n"
                (str iface ∷ [])))))

unfoldable pub render_clam_av_config : AntivirusConfig → String
render_clam_av_config av = built (
    "# Managed by lasd. Use this profile from an ICAP/proxy integration.\n"
    ∷ sprintf "mode=%s\n" (str av.mode ∷ [])
    ∷ sprintf "max_file_size_mb=%d\n" (int av.max_file_size_mb ∷ [])
    ∷ sprintf "quarantine_dir=%s\n" (str av.quarantine_dir ∷ [])
    ∷ line ("interfaces=" <> join av.interfaces ","))

unfoldable pub render_dns_masq_config : DnsFilteringConf → String
render_dns_masq_config dns = built (
    one "# Managed by lasd.\n"
    ++ one "domain-needed\nbogus-priv\n"
    ++ for_each dns.upstream (λ upstream. line ("server=" <> upstream))
    ++ for_each dns.blocklists (λ blocklist. line ("# blocklist=" <> blocklist)))

unfoldable pub captive_portal_service : String → String
captive_portal_service engine =
    if str_eq engine "" || str_eq engine "opennds" then "opennds" else engine

unfoldable pub render_captive_portal_config : CaptivePortal → String
render_captive_portal_config portal = built (
    line "# Managed by LAS."
    ++ line ("engine=" <> captive_portal_service portal.engine)
    ++ line ("interfaces=" <> join portal.interfaces ",")
    ++ line ("login_url=" <> portal.login_url)
    ++ line ("radius=" <> bool_text portal.radius))

unfoldable pub render_radius_config : RadiusConfig → String
render_radius_config radius = built (
    line "# Managed by LAS."
    ++ line ("servers=" <> join radius.servers ",")
    ++ line ("secret=" <> radius.secret)
    ++ line ("nas_id=" <> radius.nas_id))

unfoldable pub render_upnp_config : UpnpConfig → String
render_upnp_config upnp = built (
    line "# Managed by LAS."
    ++ only_if (has_text upnp.external_iface) (line ("ext_ifname=" <> upnp.external_iface))
    ++ for_each upnp.internal_ifaces (λ iface. line ("listening_ip=" <> iface))
    ++ line "secure_mode=yes"
    ++ line "enable_natpmp=yes"
    ++ line "enable_upnp=yes")

-- A profile, and the service that reads it.
abbrev pub profile : String → String → String → String → Calls
profile description path mode content = one (write description path mode content)

abbrev pub enabled_service : String → String → Calls
enabled_service description service =
    one (command description "systemctl" ("enable" ∷ "--now" ∷ service ∷ []))

ips_plan : IpsConfig → Calls
ips_plan ips =
    if str_eq ips.engine "" || str_eq ips.engine "suricata"
    then profile "render Suricata interface config" "/etc/las/suricata.yaml" "0600"
        (render_suricata_config ips)
      ++ enabled_service "enable Suricata IPS" "suricata"
    else one (warning "unsupported IPS engine %q; expected suricata" (str ips.engine ∷ []))

unfoldable pub add_security_plan : Config → Calls
unfolding ips_plan
add_security_plan c =
    let s = c.security in
    only_if s.ips.enabled (ips_plan s.ips)
    ++ only_if s.antivirus.enabled (
        profile "render ClamAV router profile" "/etc/las/clamav-router.conf" "0600"
          (render_clam_av_config s.antivirus)
        ++ enabled_service "enable ClamAV daemon" "clamav-daemon"
        ++ one (
            warning
              "antivirus mode %s requires a proxy/ICAP integration point; encrypted pass-through traffic cannot be scanned transparently"
              (str s.antivirus.mode ∷ [])))
    ++ only_if s.dns_filtering.enabled (
        profile "render dnsmasq filtering profile" "/etc/las/dnsmasq-router.conf" "0600"
          (render_dns_masq_config s.dns_filtering)
        ++ enabled_service "enable dnsmasq" "dnsmasq")
    ++ only_if s.threat_feeds.enabled (
        profile "render threat feed sources" "/etc/las/threat-feeds.conf" "0600"
          (join s.threat_feeds.source_urls "\n" <> "\n")
        ++ one (
            warning
              "threat feeds are modeled; feed downloader to nft sets and Suricata rules is enabled as an integration hook"
              []))
    ++ only_if s.captive_portal.enabled (
        profile "render captive portal profile" "/etc/las/captive-portal.conf" "0600"
          (render_captive_portal_config s.captive_portal)
        ++ enabled_service "enable captive portal engine"
            (captive_portal_service s.captive_portal.engine))
    ++ only_if s.radius.enabled (
        profile "render RADIUS client profile" "/etc/las/radius.conf" "0600"
          (render_radius_config s.radius)
        ++ enabled_service "enable FreeRADIUS" "freeradius")
    ++ only_if s.upnp.enabled (
        profile "render miniupnpd config" "/etc/miniupnpd/miniupnpd.conf" "0600"
          (render_upnp_config s.upnp)
        ++ enabled_service "enable miniupnpd" "miniupnpd")
