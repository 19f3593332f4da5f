-- ===== src/Builder/Platform/Links.antt =====
-- internal/router/builder.go: `addL2Plan` and the keepalived profile.
use las.Prelude.{ℤ, pos, String, not, List, [], ◌∷◌, ◌++◌, is_empty, int_lt, ◌<>◌, if◌then◌else◌}
use las.Errors.{str, int}
use las.Fmt.{sprintf, itoa}
use las.Config.{Bond, Bridge, L2Config, Vlan, Vrrp}
use las.Builder.Trace.{
  Calls, command, write, only_if, one, for_each, is_positive, line, built, or_text,
}

vrrp_lines : Vrrp → List String
vrrp_lines v =
    one (sprintf "vrrp_instance %s {\n" (str v.id ∷ []))
    ++ line ("  state " <> (if int_lt v.priority (pos 150) then "BACKUP" else "MASTER"))
    ++ line ("  interface " <> v.interface)
    ++ one (sprintf "  virtual_router_id %d\n" (int v.vrid ∷ []))
    ++ one (sprintf "  priority %d\n" (int v.priority ∷ []))
    ++ line "  advert_int 1"
    ++ only_if (not v.preempt) (line "  nopreempt")
    ++ line "  virtual_ipaddress {"
    ++ for_each v.vips (λ vip. line ("    " <> vip))
    ++ one "  }\n}\n"

unfoldable pub render_keepalived : List Vrrp → String
unfolding vrrp_lines
render_keepalived entries = built (line "# Managed by LAS." ++ for_each entries vrrp_lines)

-- `ip link set dev NAME …`
set_link : String → String → List String → Calls
set_link description name args =
    one (command description "ip" ("link" ∷ "set" ∷ "dev" ∷ name ∷ args))

shell : String → String → Calls
shell description text = one (command description "sh" ("-c" ∷ text ∷ []))

set_mtu : String → String → ℤ → Calls
unfolding set_link
set_mtu description name mtu =
    only_if (is_positive mtu) (set_link description name ("mtu" ∷ itoa mtu ∷ []))

bond_plan : Bond → Calls
unfolding set_link shell set_mtu
bond_plan b =
    one (command "load bonding module" "modprobe" ("bonding" ∷ []))
    ++ shell ("ensure bond " <> b.name) (
        sprintf "ip link show dev %s >/dev/null 2>&1 || ip link add %s type bond mode %s"
          (str b.name ∷ str b.name ∷ str (or_text b.mode "802.3ad") ∷ []))
    ++ set_mtu ("set mtu for bond " <> b.name) b.name b.mtu
    ++ for_each b.members (λ member. shell ("enslave " <> member <> " to " <> b.name) (
        sprintf "ip link set %s down; ip link set %s master %s; ip link set %s up"
          (str member ∷ str member ∷ str b.name ∷ str member ∷ [])))
    ++ set_link ("bring up bond " <> b.name) b.name ("up" ∷ [])

bridge_plan : Bridge → Calls
unfolding set_link shell
bridge_plan b =
    shell ("ensure bridge " <> b.name) (
      sprintf "ip link show dev %s >/dev/null 2>&1 || ip link add name %s type bridge"
        (str b.name ∷ str b.name ∷ []))
    ++ set_link ("set bridge stp " <> b.name) b.name
        ("type" ∷ "bridge" ∷ "stp_state" ∷ (if b.stp then "1" else "0") ∷ [])
    ++ only_if b.vlan_aware (
        set_link ("enable vlan-aware bridge " <> b.name) b.name
          ("type" ∷ "bridge" ∷ "vlan_filtering" ∷ "1" ∷ []))
    ++ for_each b.members (λ member. shell ("add bridge member " <> member) (
        sprintf "ip link set %s master %s; ip link set %s up"
          (str member ∷ str b.name ∷ str member ∷ [])))
    ++ set_link ("bring up bridge " <> b.name) b.name ("up" ∷ [])

vlan_plan : Vlan → Calls
unfolding set_link shell set_mtu
vlan_plan v =
    shell ("ensure vlan " <> v.name) (
      sprintf "ip link show dev %s >/dev/null 2>&1 || ip link add link %s name %s type vlan id %d"
        (str v.name ∷ str v.parent ∷ str v.name ∷ int v.id ∷ []))
    ++ set_mtu ("set mtu for vlan " <> v.name) v.name v.mtu
    ++ for_each v.ips (λ ip. one (
        command ("assign " <> ip <> " to " <> v.name) "ip"
          ("address" ∷ "replace" ∷ ip ∷ "dev" ∷ v.name ∷ [])))
    ++ set_link ("bring up vlan " <> v.name) v.name ("up" ∷ [])

unfoldable pub add_l2_plan : L2Config → Calls
unfolding bond_plan bridge_plan vlan_plan
add_l2_plan l2 =
    for_each l2.bonds bond_plan
    ++ for_each l2.bridges bridge_plan
    ++ for_each l2.vlans vlan_plan
    ++ only_if (not (is_empty l2.vrrp)) (
        write "render keepalived VRRP config" "/etc/keepalived/keepalived.conf" "0600"
          (render_keepalived l2.vrrp)
        ∷ command "enable keepalived" "systemctl" ("enable" ∷ "--now" ∷ "keepalived" ∷ [])
        ∷ [])
