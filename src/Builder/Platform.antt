-- ===== src/Builder/Platform.antt =====
-- internal/router/builder.go: `addPlatformPlan`.
pub mod Links
pub mod Frr
pub mod Automation
use las.Prelude.{List, [], ◌∷◌, ◌++◌}
use las.Config.{Config}
use las.Builder.Trace.{Calls, write, warning, only_if}
use las.Builder.Platform.Links.{add_l2_plan}
use las.Builder.Platform.Frr.{add_dynamic_routing_plan}
use las.Builder.Platform.Automation.{
  add_qos_plan, add_monitoring_plan, add_automation_plan, render_access_config,
}

unfoldable pub add_platform_plan : Config → Calls
add_platform_plan c =
    add_l2_plan c.platform.l2
    ++ add_dynamic_routing_plan c.platform.routing c.services.mpls
    ++ add_qos_plan c.platform.qos
    ++ add_monitoring_plan c.platform.monitor
    ++ add_automation_plan c.platform.automation
    ++ only_if c.platform.access.auth_enabled (
        write "render LAS access policy" "/etc/las/access.json" "0600"
          (render_access_config c.platform.access)
        ∷ warning
            "access/RBAC is modeled and written to /etc/las/access.json; enforcing it in the HTTP API/session layer is the next hardening step"
            []
        ∷ [])
