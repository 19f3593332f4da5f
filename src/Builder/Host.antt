-- ===== src/Builder/Host.antt =====
-- internal/router/builder.go: `addHostPlan` and `addInterfacePlan`.
use las.Prelude.{String, List, [], ◌∷◌, ◌++◌, ◌<>◌, str_eq, if◌then◌else◌, not}
use las.Errors.{str}
use las.Fmt.{itoa}
use las.Config.{Config, Interface}
use las.Builder.Trace.{Calls, command, warning, only_if, one, for_each, has_text, is_positive}

unfoldable pub add_host_plan : Config → Calls
add_host_plan c =
    only_if (has_text c.host.hostname)
      (one (command "set hostname" "hostnamectl" ("set-hostname" ∷ c.host.hostname ∷ [])))
    ++ only_if c.host.enable_ip_forward (
        command "enable IPv4 forwarding" "sysctl" ("-w" ∷ "net.ipv4.ip_forward=1" ∷ [])
        ∷ command "enable IPv6 forwarding" "sysctl" ("-w" ∷ "net.ipv6.conf.all.forwarding=1" ∷ [])
        ∷ [])
    ++ only_if (is_positive c.host.conntrack_max) (
        one (
          command "set conntrack capacity" "sysctl"
            ("-w" ∷ ("net.netfilter.nf_conntrack_max=" <> itoa c.host.conntrack_max) ∷ [])))

interface_address : Interface → String → Calls
interface_address i address =
    if str_eq address "dhcp"
    then one (
        warning
          "interface %s uses DHCP; install/configure systemd-networkd, NetworkManager, or dhclient outside the immediate apply plan"
          (str i.name ∷ []))
    else one (
        command ("assign " <> address <> " to " <> i.name) "ip"
          ("address" ∷ "replace" ∷ address ∷ "dev" ∷ i.name ∷ []))

-- The body of the loop of `addInterfacePlan`.
interface_plan : Interface → Calls
unfolding interface_address
interface_plan i =
    if not i.enabled
    then one (
        command ("disable interface " <> i.name) "ip"
          ("link" ∷ "set" ∷ "dev" ∷ i.name ∷ "down" ∷ []))
    else only_if (is_positive i.mtu) (
        one (
          command ("set mtu for " <> i.name) "ip"
            ("link" ∷ "set" ∷ "dev" ∷ i.name ∷ "mtu" ∷ itoa i.mtu ∷ [])))
      ++ one (command ("bring up " <> i.name) "ip" ("link" ∷ "set" ∷ "dev" ∷ i.name ∷ "up" ∷ []))
      ++ for_each i.addresses (interface_address i)
      ++ only_if (has_text i.gateway) (
          one (
            command ("set default route via " <> i.name) "ip"
              ("route" ∷ "replace" ∷ "default" ∷ "via" ∷ i.gateway ∷ "dev" ∷ i.name ∷ [])))

unfoldable pub add_interface_plan : List Interface → Calls
unfolding interface_plan
add_interface_plan interfaces = for_each interfaces interface_plan
