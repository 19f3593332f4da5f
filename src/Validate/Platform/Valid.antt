-- ===== src/Validate/Platform/Valid.antt =====
-- What an accepted platform section looks like.
use las.Prelude.{
  ℤ, pos, ◌≤ℤ◌, ◌<ℤ◌, Between, String, true, List, ◌++◌, ◌≡◌, ◌≢◌, ◌↔◌, ◌⊎◌, All, eq_iff, arith,
  contains_iff,
}
use las.Errors.{Passes}
use las.Errors.Laws.{each-All_iff}
use las.Names.Laws.{IsIdentifier, IsCidr}
use las.Config.{
  PlatformConfig, L2Config, Vlan, Bridge, Bond, Vrrp, DynamicRouting, Vrf, RoutingPeer, RouteMap,
  QosQueue, MonitoringConfig, ScheduledJob,
}
use las.Validate.Rules.{
  Listed, IsIp, ◌and◌, ◌&◌, Passes-fail_if, IsIdentifier-iff, Listed-iff, Between-iff, at_least_iff,
  unless_empty_iff, IsCidr-iff, link_given_iff, All-Listed_iff,
}
use las.Validate.Platform.{
  bond_modes, validate_vlan, validate_bridge, validate_bond, validate_vrrp, validate_l2,
  validate_vrf, validate_peer, validate_route_map, validate_dynamic_routing, validate_queue,
  validate_qos, validate_monitoring, validate_job, validate_automation, validate_platform,
}

abbrev pub IsVlanId : ℤ → Type 0
IsVlanId = Between (pos 1) (pos 4094)

abbrev pub IsValidRouteMap : RouteMap → Type 0
IsValidRouteMap route_map = IsIdentifier route_map.name and (pos 1 ≤ℤ route_map.sequence)

abbrev pub IsValidJob : ScheduledJob → Type 0
IsValidJob job = IsIdentifier job.id and (job.enabled ≡ true → job.schedule ≢ "")

module _ (links : List String) where
  abbrev pub IsValidVlan : Vlan → Type 0
  IsValidVlan vlan =
      IsIdentifier vlan.name
      and Listed links vlan.parent
      and IsVlanId vlan.id
      and All IsCidr vlan.ips

  abbrev pub IsValidBridge : Bridge → Type 0
  IsValidBridge bridge =
      IsIdentifier bridge.name and All (Listed links) bridge.members and All IsVlanId bridge.vlans

  abbrev pub IsValidBond : Bond → Type 0
  IsValidBond bond =
      IsIdentifier bond.name
      and ((bond.mode ≡ "") ⊎ Listed bond_modes bond.mode)
      and All (Listed links) bond.members

  abbrev pub IsValidVrrp : Vrrp → Type 0
  IsValidVrrp vrrp =
      IsIdentifier vrrp.id
      and Listed links vrrp.interface
      and Between (pos 1) (pos 255) vrrp.vrid
      and All IsCidr vrrp.vips

  abbrev pub IsValidVrf : Vrf → Type 0
  IsValidVrf vrf =
      IsIdentifier vrf.name
      and Between (pos 1) (pos 252) vrf.table
      and All (Listed links) vrf.interfaces

  abbrev pub IsValidPeer : RoutingPeer → Type 0
  IsValidPeer peer =
      ((peer.address ≡ "") ⊎ IsIp peer.address)
      and (peer.interface ≢ "" → Listed links peer.interface)

  abbrev pub IsValidQueue : QosQueue → Type 0
  IsValidQueue queue = IsIdentifier queue.id and Listed links queue.interface

  abbrev pub IsValidL2 : L2Config → Type 0
  IsValidL2 l2 =
      All IsValidVlan l2.vlans
      and All IsValidBridge l2.bridges
      and All IsValidBond l2.bonds
      and All IsValidVrrp l2.vrrp

  abbrev pub IsValidDynamicRouting : DynamicRouting → Type 0
  IsValidDynamicRouting routing =
      All IsValidVrf routing.vrfs
      and (routing.bgp.enabled ≡ true → pos 0 <ℤ routing.bgp.asn)
      and All IsCidr (routing.bgp.networks ++ (routing.ospf.networks ++ routing.rip.networks))
      and All IsValidPeer (routing.bgp.peers ++ routing.bfd.peers)
      and All IsValidRouteMap routing.route_maps

  abbrev pub IsValidMonitoring : MonitoringConfig → Type 0
  IsValidMonitoring monitor =
      All (Listed links) monitor.net_flow.interfaces
      and Between (pos 0) (pos 65535) monitor.net_flow.port

  abbrev pub IsValidPlatform : PlatformConfig → Type 0
  IsValidPlatform platform =
      IsValidL2 platform.l2
      and IsValidDynamicRouting platform.routing
      and All IsValidQueue platform.qos.queues
      and IsValidMonitoring platform.monitor
      and All IsValidJob platform.automation.scheduler

  pub validate_vlan_iff : (vlan : Vlan) → Passes (validate_vlan links vlan) ↔ IsValidVlan vlan
  unfolding validate_vlan
  validate_vlan_iff vlan =
      IsIdentifier-iff _ vlan.name
      & Listed-iff _ links vlan.parent
      & Between-iff _ (pos 1) (pos 4094) vlan.id
      & each-All_iff vlan.ips _ (λ ip. IsCidr-iff _ ip)

  validate_bridge_iff :
      (bridge : Bridge) → Passes (validate_bridge links bridge) ↔ IsValidBridge bridge
  unfolding validate_bridge
  validate_bridge_iff bridge =
      IsIdentifier-iff _ bridge.name
      & All-Listed_iff _ links bridge.members
      & each-All_iff bridge.vlans _ (λ vlan. Between-iff _ (pos 1) (pos 4094) vlan)

  validate_bond_iff : (bond : Bond) → Passes (validate_bond links bond) ↔ IsValidBond bond
  unfolding validate_bond
  validate_bond_iff bond =
      IsIdentifier-iff _ bond.name
      & unless_empty_iff _ bond.mode _ (contains_iff bond_modes bond.mode)
      & All-Listed_iff _ links bond.members

  validate_vrrp_iff : (vrrp : Vrrp) → Passes (validate_vrrp links vrrp) ↔ IsValidVrrp vrrp
  unfolding validate_vrrp
  validate_vrrp_iff vrrp =
      IsIdentifier-iff _ vrrp.id
      & Listed-iff _ links vrrp.interface
      & Between-iff _ (pos 1) (pos 255) vrrp.vrid
      & each-All_iff vrrp.vips _ (λ vip. IsCidr-iff _ vip)

  validate_l2_iff : (l2 : L2Config) → Passes (validate_l2 links l2) ↔ IsValidL2 l2
  unfolding validate_l2
  validate_l2_iff l2 =
      each-All_iff l2.vlans _ validate_vlan_iff
      & each-All_iff l2.bridges _ validate_bridge_iff
      & each-All_iff l2.bonds _ validate_bond_iff
      & each-All_iff l2.vrrp _ validate_vrrp_iff

  validate_vrf_iff : (vrf : Vrf) → Passes (validate_vrf links vrf) ↔ IsValidVrf vrf
  unfolding validate_vrf
  validate_vrf_iff vrf =
      IsIdentifier-iff _ vrf.name
      & Between-iff _ (pos 1) (pos 252) vrf.table
      & All-Listed_iff _ links vrf.interfaces

  validate_peer_iff : (peer : RoutingPeer) → Passes (validate_peer links peer) ↔ IsValidPeer peer
  unfolding validate_peer
  validate_peer_iff peer =
      unless_empty_iff _ peer.address _ (λ h. h, λ h. h) & link_given_iff _ links peer.interface

  validate_route_map_iff :
      (route_map : RouteMap) → Passes (validate_route_map route_map) ↔ IsValidRouteMap route_map
  unfolding validate_route_map
  validate_route_map_iff route_map =
      IsIdentifier-iff _ route_map.name & at_least_iff _ (pos 1) route_map.sequence

  validate_dynamic_routing_iff :
      (routing : DynamicRouting)
      → Passes (validate_dynamic_routing links routing) ↔ IsValidDynamicRouting routing
  unfolding validate_dynamic_routing
  validate_dynamic_routing_iff routing =
      each-All_iff routing.vrfs _ validate_vrf_iff
      & Passes-fail_if _ _ (ground arith)
      & each-All_iff (routing.bgp.networks ++ (routing.ospf.networks ++ routing.rip.networks)) _
          (λ network. IsCidr-iff _ network)
      & each-All_iff (routing.bgp.peers ++ routing.bfd.peers) _ validate_peer_iff
      & each-All_iff routing.route_maps _ validate_route_map_iff

  validate_queue_iff : (queue : QosQueue) → Passes (validate_queue links queue) ↔ IsValidQueue queue
  unfolding validate_queue
  validate_queue_iff queue = IsIdentifier-iff _ queue.id & Listed-iff _ links queue.interface

  validate_monitoring_iff :
      (monitor : MonitoringConfig)
      → Passes (validate_monitoring links monitor) ↔ IsValidMonitoring monitor
  unfolding validate_monitoring
  validate_monitoring_iff monitor =
      All-Listed_iff _ links monitor.net_flow.interfaces
      & Between-iff _ (pos 0) (pos 65535) monitor.net_flow.port

  validate_job_iff : (job : ScheduledJob) → Passes (validate_job job) ↔ IsValidJob job
  unfolding validate_job
  validate_job_iff job =
      IsIdentifier-iff _ job.id & Passes-fail_if _ _ (ground (arith, eq_iff job.schedule ""))

  pub validate_platform_iff :
      (platform : PlatformConfig)
      → Passes (validate_platform links platform) ↔ IsValidPlatform platform
  unfolding validate_platform validate_qos validate_automation
  validate_platform_iff platform =
      validate_l2_iff platform.l2
      & validate_dynamic_routing_iff platform.routing
      & each-All_iff platform.qos.queues _ validate_queue_iff
      & validate_monitoring_iff platform.monitor
      & each-All_iff platform.automation.scheduler _ validate_job_iff
