-- ===== src/Builder/Services/Dns.antt =====
-- internal/router/builder.go: the DNS and DHCP profiles.
use las.Prelude.{
  ltb, ◌^◌, ℤ, pos, negsuc, ℕ, ◌+◌, ◌*◌, String, Bool, not, ◌||◌, Option, none, some, List, [], ◌∷◌,
  ◌++◌, join, is_empty, codes, code, in_range, zero, suc, ◌-◌, ◌==◌, ◌<>◌, if◌then◌else◌,
}
use las.Errors.{str}
use las.Fmt.{sprintf, itoa}
use las.Names.{to_upper, same_codes}
use las.Config.{
  Config, DhcpServer, DhcpServiceConfig, DhcpStaticLease, DnsClientConfig, DnsRecord,
  DnsServiceConfig, Interface,
}
use las.Builder.Trace.{only_if, one, for_each, has_text, is_positive, line, built}
use las.Builder.Options.{
  cut, occurrences, trim, trim_left, trim_right, trim_prefix, without_prefix, is_bracket,
}

text_at : List String → ℕ → String
text_at [] i = ""
text_at (s ∷ ss) zero = s
text_at (s ∷ ss) (suc i) = text_at ss i

abbrev capitals : List String
capitals =
    "A" ∷ "B" ∷ "C" ∷ "D" ∷ "E" ∷ "F" ∷ "G" ∷ "H" ∷ "I" ∷ "J" ∷ "K" ∷ "L" ∷ "M" ∷ "N" ∷ "O" ∷ "P"
    ∷ "Q" ∷ "R" ∷ "S" ∷ "T" ∷ "U" ∷ "V" ∷ "W" ∷ "X" ∷ "Y" ∷ "Z" ∷ []

-- `strings.ToUpper`, where the result can be one of the record types, as `Validate` asks.
upper_text : String → String
unfolding text_at
upper_text String.[] = ""
upper_text (String.◌∷◌ c s) =
    (if in_range b'a' b'z' (code c)
      then text_at capitals (code c - b'a')
      else if code c == 0x131
      then "I"
      else if code c == 0x17f
      then "S"
      else String.◌∷◌ c "")
    <> upper_text s

-- A line for each value.
lines_with : String → List String → String → List String
lines_with before values behind = for_each values (λ value. line (before <> value <> behind))

-- `strings.ToUpper(record.Type) == name`
is_type : DnsRecord → String → Bool
is_type record_ name = same_codes (to_upper (codes record_.type)) (codes name)

unfoldable pub render_dns_masq_record : DnsRecord → String
unfolding is_type
render_dns_masq_record r =
    let entry = λ (directive : String). directive <> "=" <> r.name <> "," <> r.value <> "\n" in
    if is_type r "" || is_type r "A" || is_type r "AAAA"
    then entry "host-record"
    else if is_type r "CNAME"
    then entry "cname"
    else if is_type r "TXT"
    then entry "txt-record"
    else if is_type r "MX"
    then entry "mx-host"
    else if is_type r "SRV"
    then entry "srv-host"
    else if is_type r "PTR"
    then entry "ptr-record"
    else "# unsupported-record=" <> r.name <> "," <> r.type <> "," <> r.value <> "\n"

dns_lines : DnsServiceConfig → List String
unfolding lines_with
dns_lines dns =
    one "domain-needed\nbogus-priv\n"
    ++ only_if dns.rebind_protection (line "stop-dns-rebind")
    ++ only_if dns.strict_order (line "strict-order")
    ++ only_if dns.dnssec (
        one
          "dnssec\ntrust-anchor=.,20326,8,2,E06D44B80B8F1D39A95C0B0D7C65D08458E880409BBC683457104237C7F8EC8D\n")
    ++ only_if dns.bind_interfaces (line "bind-interfaces")
    ++ only_if (is_positive dns.cache_size) (line ("cache-size=" <> itoa dns.cache_size))
    ++ lines_with "interface=" dns.listen ""
    ++ lines_with "listen-address=" dns.listen_addresses ""
    ++ only_if (not (is_empty dns.forwarders)) (line "no-resolv")
    ++ lines_with "server=" dns.forwarders ""
    ++ for_each dns.conditional_forwarders
        (λ zone. lines_with ("server=/" <> zone.domain <> "/") zone.upstreams "")
    ++ lines_with "local=/" dns.local_domains "/"
    ++ for_each dns.address_overrides (λ o. line ("address=/" <> o.domain <> "/" <> o.address))
    ++ for_each dns.records (λ r. one (render_dns_masq_record r))

range_lines : Interface → Option DhcpServer → List String
unfolding lines_with
range_lines i none = []
range_lines i (some d) =
    line ("interface=" <> i.name)
    ++ one (
        sprintf "dhcp-range=%s,%s,%s\n"
          (str d.range_start ∷ str d.range_end ∷ str d.lease_time ∷ []))
    ++ lines_with "dhcp-option=option:dns-server," d.dns ""
    ++ only_if (has_text d.domain) (line ("domain=" <> d.domain))

lease_line : DhcpStaticLease → List String
lease_line lease = line (
    "dhcp-host="
    <> join
        (one lease.mac
          ++ only_if (has_text lease.ip) (one lease.ip)
          ++ only_if (has_text lease.hostname) (one lease.hostname)
          ++ only_if (has_text lease.lease) (one lease.lease))
        ",")

dhcp_lines : DhcpServiceConfig → List Interface → List String
unfolding range_lines lease_line
dhcp_lines dhcp interfaces =
    only_if dhcp.authoritative (line "dhcp-authoritative")
    ++ only_if (has_text dhcp.lease_file) (line ("dhcp-leasefile=" <> dhcp.lease_file))
    ++ for_each interfaces (λ i. range_lines i i.dhcp_server)
    ++ for_each dhcp.static_leases lease_line
    ++ for_each dhcp.options (λ o. line (
        "dhcp-option="
        <> (if has_text o.tag then "tag:" <> o.tag <> "," else "")
        <> o.code
        <> ","
        <> o.value))

unfoldable pub render_dns_masq_service_config : Config → String
unfolding dns_lines dhcp_lines
render_dns_masq_service_config c = built (
    line "# Managed by LAS."
    ++ only_if c.services.dns_server.enabled (dns_lines c.services.dns_server)
    ++ only_if c.services.dhcp_server.enabled (dhcp_lines c.services.dhcp_server c.interfaces))

-- `n*2` of a signed word of 64 bits, which wraps around.
unfoldable pub double : ℤ → ℤ
double (pos n) = if ltb (n * 2) (2 ^ 63) then pos (n * 2) else negsuc (2 ^ 64 - n * 2 - 1)
double (negsuc n) =
    if ltb (2 ^ 63) (n * 2 + 2) then pos (2 ^ 64 - (n * 2 + 2)) else negsuc (n * 2 + 1)

unfoldable pub render_unbound_config : DnsServiceConfig → String
unfolding lines_with double upper_text
render_unbound_config dns = built (
    one "# Managed by LAS.\nserver:\n"
    ++ only_if (is_positive dns.cache_size) (
        line ("  msg-cache-size: " <> itoa dns.cache_size <> "m")
        ++ line ("  rrset-cache-size: " <> itoa (double dns.cache_size) <> "m"))
    ++ only_if dns.dnssec (line "  auto-trust-anchor-file: \"/var/lib/unbound/root.key\"")
    ++ only_if dns.rebind_protection (
        one
          "  private-address: 10.0.0.0/8\n  private-address: 172.16.0.0/12\n  private-address: 192.168.0.0/16\n")
    ++ lines_with "  # listen interface: " dns.listen ""
    ++ (if is_empty dns.listen_addresses
        then line "  interface: 0.0.0.0"
        else lines_with "  interface: " dns.listen_addresses "")
    ++ lines_with "  local-zone: \"" dns.local_domains ".\" static"
    ++ for_each dns.address_overrides
        (λ o. line ("  local-data: \"" <> o.domain <> " A " <> o.address <> "\""))
    ++ for_each dns.records (λ r.
      line ("  local-data: \"" <> r.name <> " " <> upper_text r.type <> " " <> r.value <> "\""))
    ++ only_if (not (is_empty dns.forwarders))
        (one "forward-zone:\n  name: \".\"\n" ++ lines_with "  forward-addr: " dns.forwarders "")
    ++ for_each dns.conditional_forwarders (λ zone.
      one ("forward-zone:\n  name: \"" <> zone.domain <> ".\"\n")
      ++ lines_with "  forward-addr: " zone.upstreams ""))

unfoldable pub render_bind_config : DnsServiceConfig → String
unfolding lines_with
render_bind_config dns = built (
    line "// Managed by LAS. Include this file from /etc/bind/named.conf.local."
    ++ line "options {"
    ++ only_if (not (is_empty dns.forwarders)) (
        line "  forwarders {"
        ++ lines_with "    " dns.forwarders ";"
        ++ one "  };\n  forward only;\n")
    ++ only_if (not (is_empty dns.listen_addresses)) (
        one "  listen-on { "
        ++ for_each dns.listen_addresses (λ address. one (address <> "; "))
        ++ line "};")
    ++ only_if dns.dnssec (line "  dnssec-validation auto;")
    ++ line "};"
    ++ for_each dns.conditional_forwarders (λ zone.
      one ("zone \"" <> zone.domain <> "\" { type forward; forwarders { ")
      ++ for_each zone.upstreams (λ upstream. one (upstream <> "; "))
      ++ line "}; };")
    ++ only_if (not (is_empty dns.records) || not (is_empty dns.address_overrides)) (
        line
          "// Static local records are modeled; generate zone files per domain before production BIND use."))

unfoldable pub render_resolved_config : DnsClientConfig → String
render_resolved_config client = built (
    one "# Managed by LAS.\n[Resolve]\n"
    ++ only_if (not (is_empty client.resolvers)) (line ("DNS=" <> join client.resolvers " "))
    ++ only_if (not (is_empty client.fallback_resolvers))
        (line ("FallbackDNS=" <> join client.fallback_resolvers " "))
    ++ only_if (not (is_empty client.search)) (line ("Domains=" <> join client.search " "))
    ++ only_if client.dns_over_tls (line "DNSOverTLS=yes")
    ++ only_if (has_text client.dnssec) (line ("DNSSEC=" <> client.dnssec)))

unfoldable pub resolver_name_server : String → String
unfolding without_prefix cut occurrences trim_left trim_right
resolver_name_server value =
    let cleaned = (cut b'#' (trim_prefix "tls://" value)).0 in
    if occurrences b':' cleaned == 1 then (cut b':' cleaned).0 else trim is_bracket cleaned

unfoldable pub render_resolv_conf : DnsClientConfig → String
render_resolv_conf client = built (
    line "# Managed by LAS."
    ++ for_each client.resolvers (λ resolver. line ("nameserver " <> resolver_name_server resolver))
    ++ only_if (not (is_empty client.search)) (line ("search " <> join client.search " ")))
