-- ===== src/Builder/Tunnels/Links.antt =====
-- internal/router/builder.go: the tunnels that are links of the kernel.
use las.Prelude.{String, ◌||◌, List, [], ◌∷◌, ◌++◌, str_eq, ◌<>◌, if◌then◌else◌, not}
use las.Errors.{str}
use las.Fmt.{sprintf}
use las.Config.{Tunnel}
use las.Builder.Trace.{Calls, command, warning, only_if, one, for_each, has_text}
use las.Builder.Options.{join_command}
use las.Builder.Tunnels.OpenVpn.{option_of}

-- The options of the list that are set, each with its value.
unfoldable pub set_options : Tunnel → List String → List String
set_options t keys =
    for_each keys (λ key. only_if (has_text (option_of t key)) (key ∷ option_of t key ∷ []))

-- A command that makes the device unless there is one.
ensure : String → Tunnel → List String → Calls
ensure description t args = one (
    command description "sh" (
      "-c"
      ∷ sprintf "ip link show dev %s >/dev/null 2>&1 || %s"
          (str t.interface_name ∷ str (join_command "ip" args) ∷ [])
      ∷ []))

-- `mode`
unfoldable pub tunnel_mode : String → String
tunnel_mode type =
    if str_eq type "6to4" then "sit" else if str_eq type "ipsec-vti" then "vti" else type

unfoldable pub add_ip_tunnel_plan : Tunnel → Calls
unfolding ensure
add_ip_tunnel_plan t =
    let mode = tunnel_mode t.type in
    let args =
      "tunnel"
      ∷ "add"
      ∷ t.interface_name
      ∷ "mode"
      ∷ mode
      ∷ set_options t ("local" ∷ "remote" ∷ "ttl" ∷ "key" ∷ "dev" ∷ []) in
    ensure ("ensure " <> t.type <> " tunnel " <> t.interface_name) t
      (if str_eq mode "ip6gre" || str_eq mode "ip6tnl" then "-6" ∷ args else args)

unfoldable pub add_ip_link_tunnel_plan : Tunnel → Calls
unfolding ensure
add_ip_link_tunnel_plan t = ensure ("ensure " <> t.type <> " link " <> t.interface_name) t (
    "link"
    ∷ "add"
    ∷ t.interface_name
    ∷ "type"
    ∷ t.type
    ∷ set_options t ("local" ∷ "remote" ∷ "key" ∷ "dev" ∷ []))

unfoldable pub add_vxlan_plan : Tunnel → Calls
unfolding ensure
add_vxlan_plan t =
    only_if (not (has_text (option_of t "id")))
      (one (warning "vxlan tunnel %s has no options.id" (str t.id ∷ [])))
    ++ ensure ("ensure vxlan link " <> t.interface_name) t (
        "link"
        ∷ "add"
        ∷ t.interface_name
        ∷ "type"
        ∷ "vxlan"
        ∷ set_options t ("id" ∷ "remote" ∷ "local" ∷ "dev" ∷ "dstport" ∷ []))
