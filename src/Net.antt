-- ===== src/Net.antt =====
-- The parts of Go's `net` and `net/netip` that internal/config/validate.go and
-- internal/router/nft.go call: `ParseAddr`, `ParsePrefix`, `ParseIP` and `SplitHostPort`. An error is
-- `none`: the program looks at no more of it.
mod Address
mod HostPort
mod Tests
pub use Address.{Addr, v4, v6, Prefix}
unfoldable pub use Address.{is4, is6, parse_addr, parse_prefix, parse_ip}
unfoldable pub use HostPort.{split_host_port}
