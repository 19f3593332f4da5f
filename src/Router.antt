-- ===== src/Router.antt =====
-- internal/router/nft.go: the nftables rules of a configuration.
pub mod Cidrs
pub mod Matches
pub mod Order
pub mod Chains
pub mod Nat
mod Tests
