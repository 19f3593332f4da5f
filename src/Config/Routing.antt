-- ===== src/Config/Routing.antt =====
-- internal/config/config.go: RoutingConfig and what it holds.
use las.Prelude.{String, ℤ, Bool, List}

pub record RouteSet : Type 0 where
  pub id : String
  pub name : String
  pub type : String
  pub enabled : Bool
  pub description : String
  pub countries : List String
  pub cidrs : List String
  pub domains : List String
  pub source_urls : List String
  pub refresh : String

pub record WanMember : Type 0 where
  pub interface : String
  pub gateway : String
  pub weight : ℤ
  pub priority : ℤ
  pub healthcheck : String

pub record WanGroup : Type 0 where
  pub id : String
  pub name : String
  pub enabled : Bool
  pub mode : String
  pub mark : ℤ
  pub table : ℤ
  pub members : List WanMember

pub record StaticRoute : Type 0 where
  pub destination : String
  pub gateway : String
  pub interface : String
  pub table : ℤ
  pub metric : ℤ

pub record PortRange : Type 0 where
  pub from : ℤ
  pub to : ℤ

pub record RuleMatch : Type 0 where
  pub input_iface : String
  pub output_iface : String
  pub source_cidrs : List String
  pub destination_cidrs : List String
  pub source_ports : List PortRange
  pub destination_ports : List PortRange
  pub protocols : List String
  pub tunnel_ids : List String
  pub domains : List String
  pub geo_ip : List String
  pub sets : List String
  pub applications : List String
  pub services : List String

pub record RuleAction : Type 0 where
  pub type : String
  pub target : String
  pub nat : Bool
  pub log : Bool
  pub mark : ℤ
  pub table : ℤ

pub record RouteRule : Type 0 where
  pub id : String
  pub name : String
  pub enabled : Bool
  pub priority : ℤ
  pub match : RuleMatch
  pub action : RuleAction

pub record RoutingConfig : Type 0 where
  pub default_policy : String
  pub sets : List RouteSet
  pub wan_groups : List WanGroup
  pub static_routes : List StaticRoute
  pub rules : List RouteRule
