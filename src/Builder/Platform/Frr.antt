-- ===== src/Builder/Platform/Frr.antt =====
-- internal/router/builder.go: `addDynamicRoutingPlan` and the FRR profiles.
use las.Prelude.{String, Bool, not, ◌||◌, ◌&&◌, List, [], ◌∷◌, ◌++◌, is_empty, ◌<>◌, if◌then◌else◌}
use las.Errors.{str, int}
use las.Fmt.{sprintf}
use las.Config.{
  BfdConfig, BgpConfig, DynamicRouting, MplsConfig, OspfConfig, RipConfig, RouteMap, RoutingPeer,
  Vrf,
}
use las.Builder.Trace.{
  Calls, command, write, only_if, one, for_each, has_text, is_positive, line, built, or_text,
}

route_map_lines : RouteMap → List String
route_map_lines m =
    one (
      sprintf "route-map %s %s %d\n"
        (str m.name ∷ str (or_text m.action "permit") ∷ int m.sequence ∷ []))
    ++ for_each m.matches (λ match. line (" match " <> match))
    ++ for_each m.sets (λ set. line (" set " <> set))
    ++ line "!"

neighbor_lines : RoutingPeer → List String
neighbor_lines p =
    one (sprintf " neighbor %s remote-as %d\n" (str p.address ∷ int p.remote_asn ∷ []))
    ++ only_if (has_text p.password)
        (line (" neighbor " <> p.address <> " password " <> p.password))
    ++ only_if (is_positive p.multihop)
        (one (sprintf " neighbor %s ebgp-multihop %d\n" (str p.address ∷ int p.multihop ∷ [])))
    ++ only_if (has_text p.route_map_in)
        (line (" neighbor " <> p.address <> " route-map " <> p.route_map_in <> " in"))
    ++ only_if (has_text p.route_map_out)
        (line (" neighbor " <> p.address <> " route-map " <> p.route_map_out <> " out"))

bgp_lines : BgpConfig → List String
unfolding neighbor_lines
bgp_lines bgp =
    one (sprintf "router bgp %d\n" (int bgp.asn ∷ []))
    ++ only_if (has_text bgp.router_id) (line (" bgp router-id " <> bgp.router_id))
    ++ for_each bgp.networks (λ network. line (" network " <> network))
    ++ for_each bgp.peers neighbor_lines
    ++ line "!"

ospf_lines : OspfConfig → List String
ospf_lines ospf =
    line "router ospf"
    ++ only_if (has_text ospf.router_id) (line (" ospf router-id " <> ospf.router_id))
    ++ for_each ospf.networks (λ network. line (" network " <> network <> " area 0"))
    ++ line "!"

rip_lines : RipConfig → List String
rip_lines rip =
    line "router rip"
    ++ for_each rip.networks (λ network. line (" network " <> network))
    ++ line "!"

bfd_lines : BfdConfig → List String
bfd_lines bfd =
    line "bfd"
    ++ for_each bfd.peers (λ p.
      one (" peer " <> p.address)
      ++ only_if (has_text p.interface) (one (" interface " <> p.interface))
      ++ one "\n")
    ++ line "!"

unfoldable pub render_frr_config : DynamicRouting → MplsConfig → String
unfolding route_map_lines bgp_lines ospf_lines rip_lines bfd_lines
render_frr_config r mpls = built (
    one
      "frr version 8\nfrr defaults traditional\nhostname las-router\nservice integrated-vtysh-config\n!\n"
    ++ for_each r.route_maps route_map_lines
    ++ only_if r.bgp.enabled (bgp_lines r.bgp)
    ++ only_if r.ospf.enabled (ospf_lines r.ospf)
    ++ only_if r.rip.enabled (rip_lines r.rip)
    ++ only_if r.bfd.enabled (bfd_lines r.bfd)
    ++ only_if (mpls.enabled && mpls.ldp) (
        line "mpls ldp"
        ++ for_each mpls.interfaces (λ iface. line (" interface " <> iface))
        ++ line "!")
    ++ line "line vty")

-- `yesNo`
abbrev yes_no : Bool → String
yes_no enabled = if enabled then "yes" else "no"

unfoldable pub render_frr_daemons : DynamicRouting → MplsConfig → String
render_frr_daemons r mpls =
    sprintf "zebra=yes\nbgpd=%s\nospfd=%s\nripd=%s\nbfdd=%s\nldpd=%s\nvtysh_enable=yes\n" (
      str (yes_no r.bgp.enabled)
      ∷ str (yes_no r.ospf.enabled)
      ∷ str (yes_no r.rip.enabled)
      ∷ str (yes_no r.bfd.enabled)
      ∷ str (yes_no (mpls.enabled && mpls.ldp))
      ∷ [])

vrf_plan : Vrf → Calls
vrf_plan v =
    command ("ensure vrf " <> v.name) "sh" (
      "-c"
      ∷ sprintf "ip link show dev %s >/dev/null 2>&1 || ip link add %s type vrf table %d"
          (str v.name ∷ str v.name ∷ int v.table ∷ [])
      ∷ [])
    ∷ command ("bring up vrf " <> v.name) "ip" ("link" ∷ "set" ∷ "dev" ∷ v.name ∷ "up" ∷ [])
    ∷ for_each v.interfaces (λ iface. one (
        command ("attach " <> iface <> " to vrf " <> v.name) "ip"
          ("link" ∷ "set" ∷ "dev" ∷ iface ∷ "master" ∷ v.name ∷ [])))

unfoldable pub add_dynamic_routing_plan : DynamicRouting → MplsConfig → Calls
unfolding vrf_plan
add_dynamic_routing_plan r mpls =
    for_each r.vrfs vrf_plan
    ++ only_if
        (r.bgp.enabled
          || r.ospf.enabled
          || r.rip.enabled
          || r.bfd.enabled
          || mpls.enabled
          || not (is_empty r.route_maps))
        (write "render FRR routing config" "/etc/frr/frr.conf" "0600" (render_frr_config r mpls)
          ∷ write "render FRR daemon toggles" "/etc/frr/daemons" "0644" (render_frr_daemons r mpls)
          ∷ command "enable FRR routing stack" "systemctl" ("enable" ∷ "--now" ∷ "frr" ∷ [])
          ∷ [])
    ++ only_if mpls.enabled (
        one (
          command "load MPLS modules" "sh"
            ("-c" ∷ "modprobe mpls_router || true; modprobe mpls_gso || true" ∷ []))
        ++ for_each mpls.interfaces (λ iface. one (
            command ("enable MPLS input on " <> iface) "sysctl"
              ("-w" ∷ ("net.mpls.conf." <> iface <> ".input=1") ∷ []))))
