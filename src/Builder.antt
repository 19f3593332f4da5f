-- ===== src/Builder.antt =====
-- internal/router/builder.go: from a configuration to a plan.
pub mod Trace
pub mod Options
pub mod Host
pub mod Certificates
pub mod Tunnels
pub mod Routing
pub mod Services
pub mod Platform
pub mod Security
pub mod Sound
pub mod Apply
mod Tests
use las.Prelude.{String, List, [], ◌∷◌, ◌++◌}
use las.Errors.{Result, ok, err, ◌>>◌, Check}
use las.Control.{Plan}
use las.Config.{Config}
use las.Validate.{validate}
use las.Router.Nat.{build_nftables}
use las.Builder.Trace.{Calls, command, write, warning, one, for_each, apply_calls}
use las.Builder.Host.{add_host_plan, add_interface_plan}
use las.Builder.Certificates.{add_certificate_store_plan}
use las.Builder.Tunnels.{add_tunnel_plan}
use las.Builder.Routing.{add_routing_plan}
use las.Builder.Services.{add_services_plan}
use las.Builder.Platform.{add_platform_plan}
use las.Builder.Security.{add_security_plan}

-- A warning is handed on as a format.
unfoldable pub nft_calls : Config → Calls
nft_calls c =
    let (nft, warnings) = build_nftables c in
    for_each warnings (λ text. one (warning text []))
    ++ write "render nftables policy" "/run/las/nftables.conf" "0600" nft
      ∷ command "load nftables policy" "sh" (
          "-c"
          ∷ "nft list table inet las_router >/dev/null 2>&1 && nft delete table inet las_router || true; nft -f /run/las/nftables.conf"
          ∷ [])
      ∷ []

-- Go's order of the keys of a map, on which the hook of certbot depends.
module _ (order : List String → List String) where
  -- The calls that come before the policy of nftables.
  unfoldable pub system_calls : Config → Calls
  system_calls c =
      add_host_plan c
      ++ add_interface_plan c.interfaces
      ++ add_certificate_store_plan order c.services.certificate_store
      ++ add_tunnel_plan c.tunnels
      ++ add_routing_plan c
      ++ add_services_plan c
      ++ add_platform_plan c
      ++ add_security_plan c

  unfoldable pub plan_calls : Config → Calls
  plan_calls c = system_calls c ++ nft_calls c

  unfoldable pub build_plan : Config → Result Plan
  build_plan c = validate c >> ok (apply_calls (record { steps = [] }) (plan_calls c))
