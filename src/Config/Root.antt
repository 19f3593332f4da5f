-- ===== src/Config/Root.antt =====
-- internal/config/config.go: Config, the whole configuration.
use las.Prelude.{ℤ, List}
use las.Config.Host.{HostConfig, UiConfig, Interface, Tunnel}
use las.Config.Routing.{RoutingConfig}
use las.Config.Services.{ServicesConfig}
use las.Config.Platform.{PlatformConfig}
use las.Config.Security.{SecurityConfig}

pub record Config : Type 0 where
  pub version : ℤ
  pub host : HostConfig
  pub ui : UiConfig
  pub interfaces : List Interface
  pub tunnels : List Tunnel
  pub routing : RoutingConfig
  pub services : ServicesConfig
  pub platform : PlatformConfig
  pub security : SecurityConfig
