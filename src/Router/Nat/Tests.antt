-- ===== src/Router/Nat/Tests.antt =====
-- Addresses and NAT rules as texts.
use las.Prelude.{join, String, true, false, [], ◌∷◌, ◌≡◌, refl}
use las.Fmt.{format_nat}
use las.Net.{v4, v6, parse_prefix}
use las.Config.{OneToOneNat}
use las.Router.Nat.{addr_text, nat_single_host}

addresses :
    (addr_text (v4 (192 ∷ 168 ∷ 88 ∷ 1 ∷ [])) ≡ "192.168.88.1")
    × ((addr_text (v6 (0x2001 ∷ 0xdb8 ∷ 0 ∷ 0 ∷ 1 ∷ 0 ∷ 0 ∷ 1 ∷ []) []) ≡ "2001:db8::1:0:0:1")
        × ((addr_text (v6 (0 ∷ 0 ∷ 0 ∷ 0 ∷ 0 ∷ 0xffff ∷ 0x102 ∷ 0x304 ∷ []) []) ≡ "::ffff:1.2.3.4")
            × ((addr_text (v6 (0 ∷ 0 ∷ 0 ∷ 0 ∷ 0 ∷ 0 ∷ 0 ∷ 0 ∷ []) []) ≡ "::")
                × (addr_text (v6 (1 ∷ 0 ∷ 3 ∷ 4 ∷ 5 ∷ 6 ∷ 7 ∷ 8 ∷ []) []) ≡ "1:0:3:4:5:6:7:8"))))
unfolding addr_text join format_nat
addresses = (refl, (refl, (refl, (refl, refl))))

abbrev nat_of : String → String → OneToOneNat
nat_of internal external = record {
  id = "web";
  enabled = true;
  internal_cidr = internal;
  external_cidr = external;
  interfaces = [];
  log = false;
}

single_hosts :
    (nat_single_host (nat_of "10.0.0.5/32" "203.0.113.5/32") ≡ ("10.0.0.5", "203.0.113.5", true))
    × ((nat_single_host (nat_of "10.0.0.0/24" "203.0.113.0/24")
          ≡ ("10.0.0.0", "203.0.113.0", false))
        × (nat_single_host (nat_of "10.0.0.5/32" "2001:db8::5/128") ≡ ("", "", false)))
unfolding nat_single_host parse_prefix join format_nat
single_hosts = (refl, (refl, refl))
