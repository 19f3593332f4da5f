-- ===== src/Builder/Sound/Parts.antt =====
-- Every function that adds to a plan makes sound calls alone.
use las.Prelude.{String, Bool, List}
use las.Config.{
  Config, CertificateStore, Interface, Tunnel, WanGroup, L2Config, DynamicRouting, MplsConfig,
  QosConfig, MonitoringConfig, AutomationConfig,
}
use las.Builder.Host.{add_host_plan, add_interface_plan}
use las.Builder.Certificates.{add_certificate_store_plan}
use las.Builder.Tunnels.{backend_plan, device_plan, tunnel_plan, add_tunnel_plan}
use las.Builder.Tunnels.OpenVpn.{add_open_vpn_plan}
use las.Builder.Tunnels.Ssl.{
  add_open_connect_plan, add_forti_gate_ssl_plan, add_proxy_tunnel_service_plan,
}
use las.Builder.Tunnels.Links.{add_ip_tunnel_plan, add_ip_link_tunnel_plan, add_vxlan_plan}
use las.Builder.Routing.{add_wan_group_plan, policy_rules, add_routing_plan}
use las.Builder.Services.{add_services_plan}
use las.Builder.Platform.{add_platform_plan}
use las.Builder.Platform.Links.{add_l2_plan}
use las.Builder.Platform.Frr.{add_dynamic_routing_plan}
use las.Builder.Platform.Automation.{add_qos_plan, add_monitoring_plan, add_automation_plan}
use las.Builder.Security.{add_security_plan}
use las.Builder.{system_calls, nft_calls, plan_calls}
use las.Builder.Sound.{AreSound, sound, if_pair-AreSound}

add_host_plan-AreSound : (c : Config) → AreSound (add_host_plan c)
unfolding add_host_plan
add_host_plan-AreSound c = search sound depth 60 fits 4000

add_interface_plan-AreSound : (is : List Interface) → AreSound (add_interface_plan is)
unfolding add_interface_plan
add_interface_plan-AreSound is = search sound depth 60 fits 4000

add_certificate_store_plan-AreSound :
    (order : List String → List String) (s : CertificateStore)
    → AreSound (add_certificate_store_plan order s)
unfolding add_certificate_store_plan
add_certificate_store_plan-AreSound order s = search sound depth 60 fits 4000

add_open_vpn_plan-AreSound : (t : Tunnel) → AreSound (add_open_vpn_plan t)
unfolding add_open_vpn_plan
add_open_vpn_plan-AreSound t = search sound depth 60 fits 4000

add_open_connect_plan-AreSound :
    (t : Tunnel) (protocol : String) → AreSound (add_open_connect_plan t protocol)
unfolding add_open_connect_plan
add_open_connect_plan-AreSound t protocol = search sound depth 60 fits 4000

add_forti_gate_ssl_plan-AreSound : (t : Tunnel) → AreSound (add_forti_gate_ssl_plan t)
unfolding add_forti_gate_ssl_plan
add_forti_gate_ssl_plan-AreSound t = search sound depth 60 fits 4000

add_proxy_tunnel_service_plan-AreSound : (t : Tunnel) → AreSound (add_proxy_tunnel_service_plan t)
unfolding add_proxy_tunnel_service_plan
add_proxy_tunnel_service_plan-AreSound t = search sound depth 60 fits 4000

add_ip_tunnel_plan-AreSound : (t : Tunnel) → AreSound (add_ip_tunnel_plan t)
unfolding add_ip_tunnel_plan
add_ip_tunnel_plan-AreSound t = search sound depth 60 fits 4000

add_ip_link_tunnel_plan-AreSound : (t : Tunnel) → AreSound (add_ip_link_tunnel_plan t)
unfolding add_ip_link_tunnel_plan
add_ip_link_tunnel_plan-AreSound t = search sound depth 60 fits 4000

add_vxlan_plan-AreSound : (t : Tunnel) → AreSound (add_vxlan_plan t)
unfolding add_vxlan_plan
add_vxlan_plan-AreSound t = search sound depth 60 fits 4000

device_plan-AreSound : (t : Tunnel) (managed : Bool) → AreSound (device_plan t managed)
unfolding device_plan
device_plan-AreSound t managed = search sound depth 60 fits 4000

backend_plan-AreSound : (t : Tunnel) → AreSound (backend_plan t).0
unfolding backend_plan
backend_plan-AreSound t =
    search
      (
        if_pair-AreSound, sound, add_open_vpn_plan-AreSound, add_open_connect_plan-AreSound,
        add_forti_gate_ssl_plan-AreSound, add_proxy_tunnel_service_plan-AreSound,
        add_ip_tunnel_plan-AreSound, add_ip_link_tunnel_plan-AreSound, add_vxlan_plan-AreSound,
      )
      depth 60 fits 4000

add_tunnel_plan-AreSound : (ts : List Tunnel) → AreSound (add_tunnel_plan ts)
unfolding add_tunnel_plan tunnel_plan
add_tunnel_plan-AreSound ts =
    search (sound, backend_plan-AreSound, device_plan-AreSound) depth 60 fits 4000

add_wan_group_plan-AreSound : (g : WanGroup) → AreSound (add_wan_group_plan g)
unfolding add_wan_group_plan
add_wan_group_plan-AreSound g = search sound depth 60 fits 4000

policy_rules-AreSound : (c : Config) → AreSound (policy_rules c)
unfolding policy_rules
policy_rules-AreSound c = search sound depth 60 fits 4000

add_routing_plan-AreSound : (c : Config) → AreSound (add_routing_plan c)
unfolding add_routing_plan
add_routing_plan-AreSound c =
    search (sound, add_wan_group_plan-AreSound, policy_rules-AreSound) depth 60 fits 4000

add_services_plan-AreSound : (c : Config) → AreSound (add_services_plan c)
unfolding add_services_plan
add_services_plan-AreSound c = search sound depth 60 fits 4000

add_l2_plan-AreSound : (l2 : L2Config) → AreSound (add_l2_plan l2)
unfolding add_l2_plan
add_l2_plan-AreSound l2 = search sound depth 60 fits 4000

add_dynamic_routing_plan-AreSound :
    (r : DynamicRouting) (mpls : MplsConfig) → AreSound (add_dynamic_routing_plan r mpls)
unfolding add_dynamic_routing_plan
add_dynamic_routing_plan-AreSound r mpls = search sound depth 60 fits 4000

add_qos_plan-AreSound : (q : QosConfig) → AreSound (add_qos_plan q)
unfolding add_qos_plan
add_qos_plan-AreSound q = search sound depth 60 fits 4000

add_monitoring_plan-AreSound : (m : MonitoringConfig) → AreSound (add_monitoring_plan m)
unfolding add_monitoring_plan
add_monitoring_plan-AreSound m = search sound depth 60 fits 4000

add_automation_plan-AreSound : (a : AutomationConfig) → AreSound (add_automation_plan a)
unfolding add_automation_plan
add_automation_plan-AreSound a = search sound depth 60 fits 4000

add_platform_plan-AreSound : (c : Config) → AreSound (add_platform_plan c)
unfolding add_platform_plan
add_platform_plan-AreSound c =
    search
      (
        sound, add_l2_plan-AreSound, add_dynamic_routing_plan-AreSound, add_qos_plan-AreSound,
        add_monitoring_plan-AreSound, add_automation_plan-AreSound,
      )
      depth 60 fits 4000

add_security_plan-AreSound : (c : Config) → AreSound (add_security_plan c)
unfolding add_security_plan
add_security_plan-AreSound c = search sound depth 60 fits 4000

nft_calls-AreSound : (c : Config) → AreSound (nft_calls c)
unfolding nft_calls
nft_calls-AreSound c = search sound depth 60 fits 4000

-- Whatever the configuration, a command of a plan starts one of ten programs, which are no shells,
-- or it hands a shell one text, which is one of two fixed ones or comes out of one of eleven
-- formats for some arguments, whatever they are; and a plan writes no file but with a mode that can
-- be read.
pub plan_calls-AreSound :
    (order : List String → List String) (c : Config) → AreSound (plan_calls order c)
unfolding plan_calls system_calls
plan_calls-AreSound order c =
    search
      (
        sound, add_host_plan-AreSound, add_interface_plan-AreSound,
        add_certificate_store_plan-AreSound, add_tunnel_plan-AreSound, add_routing_plan-AreSound,
        add_services_plan-AreSound, add_platform_plan-AreSound, add_security_plan-AreSound,
        nft_calls-AreSound,
      )
      depth 60 fits 4000
