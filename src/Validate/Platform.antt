-- ===== src/Validate/Platform.antt =====
-- internal/config/validate.go: `validatePlatform` and what it calls.
pub mod Valid
use las.Prelude.{
  ℤ, pos, ◌≤ℤ◌, int_lt, String, not, ◌&&◌, ◌||◌, List, [], ◌∷◌, ◌++◌, contains, str_eq,
}
use las.Errors.{str, errorf, wrapf, Check, ◌>>◌, fail_if, wrap, check_when, each}
use las.Names.{is_identifier, validate_cidr, is_ip}
use las.Config.{
  PlatformConfig, L2Config, Vlan, Bridge, Bond, Vrrp, DynamicRouting, Vrf, RoutingPeer, RouteMap,
  QosConfig, QosQueue, MonitoringConfig, AutomationConfig, ScheduledJob,
}

abbrev pub bond_modes : List String
bond_modes =
    "balance-rr" ∷ "active-backup" ∷ "balance-xor" ∷ "broadcast" ∷ "802.3ad" ∷ "balance-tlb"
    ∷ "balance-alb" ∷ []

unfoldable pub validate_vlan : List String → Vlan → Check
validate_vlan known_links vlan = do
  fail_if (not (is_identifier vlan.name)) (errorf "invalid vlan name %q" (str vlan.name ∷ []))
  fail_if (not (contains known_links vlan.parent))
      (errorf "vlan %s references unknown parent link %q" (str vlan.name ∷ str vlan.parent ∷ []))
  fail_if (int_lt vlan.id (pos 1) || int_lt (pos 4094) vlan.id)
      (errorf "vlan %s id must be 1-4094" (str vlan.name ∷ []))
  each vlan.ips
      λ ip. wrap (wrapf "vlan %s ip %q: %w" (str vlan.name ∷ str ip ∷ [])) (validate_cidr ip)

unfoldable pub validate_bridge : List String → Bridge → Check
validate_bridge known_links bridge = do
  fail_if (not (is_identifier bridge.name)) (errorf "invalid bridge name %q" (str bridge.name ∷ []))
  each bridge.members λ member.
      fail_if (not (contains known_links member))
        (errorf "bridge %s references unknown member %q" (str bridge.name ∷ str member ∷ []))
  each bridge.vlans λ vlan.
      fail_if (int_lt vlan (pos 1) || int_lt (pos 4094) vlan)
        (errorf "bridge %s vlan id must be 1-4094" (str bridge.name ∷ []))

unfoldable pub validate_bond : List String → Bond → Check
validate_bond known_links bond = do
  fail_if (not (is_identifier bond.name)) (errorf "invalid bond name %q" (str bond.name ∷ []))
  fail_if (not (str_eq bond.mode "") && not (contains bond_modes bond.mode))
      (errorf "bond %s has unsupported mode %q" (str bond.name ∷ str bond.mode ∷ []))
  each bond.members λ member.
      fail_if (not (contains known_links member))
        (errorf "bond %s references unknown member %q" (str bond.name ∷ str member ∷ []))

unfoldable pub validate_vrrp : List String → Vrrp → Check
validate_vrrp known_links vrrp = do
  fail_if (not (is_identifier vrrp.id)) (errorf "invalid vrrp id %q" (str vrrp.id ∷ []))
  fail_if (not (contains known_links vrrp.interface))
      (errorf "vrrp %s references unknown link %q" (str vrrp.id ∷ str vrrp.interface ∷ []))
  fail_if (int_lt vrrp.vrid (pos 1) || int_lt (pos 255) vrrp.vrid)
      (errorf "vrrp %s vrid must be 1-255" (str vrrp.id ∷ []))
  each vrrp.vips
      λ vip. wrap (wrapf "vrrp %s vip %q: %w" (str vrrp.id ∷ str vip ∷ [])) (validate_cidr vip)

unfoldable pub validate_l2 : List String → L2Config → Check
validate_l2 known_links l2 = do
  each l2.vlans (validate_vlan known_links)
  each l2.bridges (validate_bridge known_links)
  each l2.bonds (validate_bond known_links)
  each l2.vrrp (validate_vrrp known_links)

unfoldable pub validate_vrf : List String → Vrf → Check
validate_vrf known_links vrf = do
  fail_if (not (is_identifier vrf.name)) (errorf "invalid vrf name %q" (str vrf.name ∷ []))
  fail_if (int_lt vrf.table (pos 1) || int_lt (pos 252) vrf.table)
      (errorf "vrf %s table must be 1-252" (str vrf.name ∷ []))
  each vrf.interfaces λ iface.
      fail_if (not (contains known_links iface))
        (errorf "vrf %s references unknown link %q" (str vrf.name ∷ str iface ∷ []))

unfoldable pub validate_peer : List String → RoutingPeer → Check
validate_peer known_links peer = do
  fail_if (not (str_eq peer.address "") && not (is_ip peer.address))
      (errorf "routing peer %s address %q is invalid" (str peer.name ∷ str peer.address ∷ []))
  check_when (not (str_eq peer.interface "")) (
      fail_if (not (contains known_links peer.interface)) (
        errorf "routing peer %s references unknown link %q"
          (str peer.name ∷ str peer.interface ∷ [])))

unfoldable pub validate_route_map : RouteMap → Check
validate_route_map route_map = do
  fail_if (not (is_identifier route_map.name))
      (errorf "invalid route-map name %q" (str route_map.name ∷ []))
  fail_if (int_lt route_map.sequence (pos 1))
      (errorf "route-map %s sequence must be positive" (str route_map.name ∷ []))

unfoldable pub validate_dynamic_routing : List String → DynamicRouting → Check
validate_dynamic_routing known_links routing = do
  each routing.vrfs (validate_vrf known_links)
  fail_if (routing.bgp.enabled && not (int_lt (pos 0) routing.bgp.asn))
      (errorf "bgp asn must be positive" [])
  each (routing.bgp.networks ++ (routing.ospf.networks ++ routing.rip.networks)) λ network.
      wrap (wrapf "dynamic routing network %q: %w" (str network ∷ [])) (validate_cidr network)
  each (routing.bgp.peers ++ routing.bfd.peers) (validate_peer known_links)
  each routing.route_maps validate_route_map

unfoldable pub validate_queue : List String → QosQueue → Check
validate_queue known_links queue = do
  fail_if (not (is_identifier queue.id)) (errorf "invalid qos queue id %q" (str queue.id ∷ []))
  fail_if (not (contains known_links queue.interface))
      (errorf "qos queue %s references unknown link %q" (str queue.id ∷ str queue.interface ∷ []))

unfoldable pub validate_qos : List String → QosConfig → Check
validate_qos known_links qos = each qos.queues (validate_queue known_links)

unfoldable pub validate_monitoring : List String → MonitoringConfig → Check
validate_monitoring known_links monitor = do
  each monitor.net_flow.interfaces λ iface.
      fail_if (not (contains known_links iface))
        (errorf "netflow references unknown link %q" (str iface ∷ []))
  fail_if (int_lt monitor.net_flow.port (pos 0) || int_lt (pos 65535) monitor.net_flow.port)
      (errorf "netflow port must be 0-65535" [])

unfoldable pub validate_job : ScheduledJob → Check
validate_job job = do
  fail_if (not (is_identifier job.id)) (errorf "invalid scheduled job id %q" (str job.id ∷ []))
  fail_if (job.enabled && str_eq job.schedule "")
      (errorf "scheduled job %s requires schedule" (str job.id ∷ []))

unfoldable pub validate_automation : AutomationConfig → Check
validate_automation automation = each automation.scheduler validate_job

unfoldable pub validate_platform : List String → PlatformConfig → Check
validate_platform known_links platform = do
  validate_l2 known_links platform.l2
  validate_dynamic_routing known_links platform.routing
  validate_qos known_links platform.qos
  validate_monitoring known_links platform.monitor
  validate_automation platform.automation
