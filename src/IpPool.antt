-- ===== src/IpPool.antt =====
-- The package lib/util/ippool: a pool of numbers kept as a list of free segments, and the pool of
-- the IPv4 addresses of a subnet that stands on it.
pub mod Segment
pub mod Pool
pub mod Subnet
mod Tests
