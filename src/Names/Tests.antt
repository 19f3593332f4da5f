-- ===== src/Names/Tests.antt =====
-- The tests of names at concrete texts, and their theorems there.
use las.Prelude.{◌≡◌, ◌↔◌, refl, true, false, codes, []}
use las.Net.{parse_prefix}
use las.Errors.{ok, err, ◌>>◌, fail_if, errorf, parse_error}
use las.Names.{is_identifier, validate_cidr, valid_domain_name, resolver_host, to_upper}
use las.Names.Laws.{IsIdentifier, is_identifier_iff}
use las.Names.Domains.{IsDomainName, valid_domain_name_iff}

identifiers :
    (is_identifier "enp1s0" ≡ true)
    × (is_identifier "br-lan.30" ≡ true)
    × (is_identifier "-eth0" ≡ false)
    × (is_identifier "a b" ≡ false)
    × (is_identifier "" ≡ false)
unfolding is_identifier
identifiers = (refl, refl, refl, refl, refl)

domains :
    (valid_domain_name (codes "dns.example.org.") ≡ true)
    × (valid_domain_name (codes "*.lan") ≡ true)
    × (valid_domain_name (codes "a..b") ≡ false)
    × (valid_domain_name (codes "-a.b") ≡ false)
    × (valid_domain_name (codes ".") ≡ false)
unfolding valid_domain_name
domains = (refl, refl, refl, refl, refl)

resolvers :
    (resolver_host (codes "tls://1.1.1.1#one.one") ≡ codes "1.1.1.1")
    × (resolver_host (codes "[2606:4700::1111]:853") ≡ codes "2606:4700::1111")
    × (resolver_host (codes "dns.example:53") ≡ codes "dns.example")
    × (resolver_host (codes "2606:4700::1111") ≡ codes "2606:4700::1111")
unfolding resolver_host
resolvers = (refl, refl, refl, refl)

cidr_errors :
    (validate_cidr "" ≡ err (errorf "empty CIDR" []))
    × (validate_cidr "10.0.0.1" ≡ err (parse_error "10.0.0.1"))
    × (validate_cidr "10.0.0.0/8" ≡ ok tt)
unfolding validate_cidr parse_prefix ◌>>◌ fail_if
cidr_errors = (refl, refl, refl)

upper_case : to_upper (codes "ſrv") ≡ codes "SRV"
unfolding to_upper
upper_case = refl

is_identifier_iff_example : (is_identifier "wg0" ≡ true) ↔ IsIdentifier "wg0"
is_identifier_iff_example = is_identifier_iff "wg0"

valid_domain_name_iff_example :
    (valid_domain_name (codes "a.b.") ≡ true) ↔ IsDomainName (codes "a.b.")
valid_domain_name_iff_example = valid_domain_name_iff (codes "a.b.")
