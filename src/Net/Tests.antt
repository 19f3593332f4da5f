-- ===== src/Net/Tests.antt =====
-- Addresses, prefixes and host names with ports at concrete texts.
use las.Prelude.{◌≡◌, refl, true, false, none, some, [], ◌∷◌, codes}
use las.Net.Address.{v4, v6, parse_addr, parse_prefix, parse_ip}
use las.Net.HostPort.{split_host_port}

ipv4 :
    parse_prefix "192.168.88.0/24"
    ≡ some (record { addr = v4 (192 ∷ 168 ∷ 88 ∷ 0 ∷ []); bits = 24 })
unfolding parse_prefix
ipv4 = refl

refused :
    (parse_prefix "10.0.0.0/33" ≡ none)
    × (parse_prefix "10.0.0.0/08" ≡ none)
    × (parse_prefix "10.0.0.0" ≡ none)
    × (parse_prefix "1.2.3/8" ≡ none)
    × (parse_prefix "1.2.3.04/8" ≡ none)
    × (parse_prefix "fe80::1%eth0/64" ≡ none)
    × (parse_prefix "::/129" ≡ none)
    × (parse_prefix "1:2:3:4:5:6:7::8/64" ≡ none)
unfolding parse_prefix
refused = (refl, refl, refl, refl, refl, refl, refl, refl)

ipv6 :
    (parse_addr (codes "2001:db8::1") ≡ some (v6 (0x2001 ∷ 0xdb8 ∷ 0 ∷ 0 ∷ 0 ∷ 0 ∷ 0 ∷ 1 ∷ []) []))
    × (parse_addr (codes "::") ≡ some (v6 (0 ∷ 0 ∷ 0 ∷ 0 ∷ 0 ∷ 0 ∷ 0 ∷ 0 ∷ []) []))
    × (parse_addr (codes "::ffff:1.2.3.4")
        ≡ some (v6 (0 ∷ 0 ∷ 0 ∷ 0 ∷ 0 ∷ 0xffff ∷ 0x102 ∷ 0x304 ∷ []) []))
    × (parse_addr (codes "1:2:3:4:5:6:7:8") ≡ some (v6 (1 ∷ 2 ∷ 3 ∷ 4 ∷ 5 ∷ 6 ∷ 7 ∷ 8 ∷ []) []))
    × (parse_addr (codes "1:2:3:4:5:6:7:8:9") ≡ none)
    × (parse_addr (codes "12345::") ≡ none)
unfolding parse_addr
ipv6 = (refl, refl, refl, refl, refl, refl)

addresses :
    (parse_ip (codes "1.1.1.1") ≡ true)
    × (parse_ip (codes "fe80::1%eth0") ≡ false)
    × (parse_ip (codes "example.org") ≡ false)
    × (parse_ip [] ≡ false)
unfolding parse_ip
addresses = (refl, refl, refl, refl)

ports :
    (split_host_port (codes "[::1]:53") ≡ some (codes "::1"))
    × (split_host_port (codes "dns.example:853") ≡ some (codes "dns.example"))
    × (split_host_port (codes "::1") ≡ none)
    × (split_host_port (codes "[::1]") ≡ none)
unfolding split_host_port
ports = (refl, refl, refl, refl)
