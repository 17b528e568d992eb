-- ===== src/IpPool/Subnet.antt =====
-- lib/util/ippool/ip_pool.go: the pool of the IPv4 addresses of a subnet. An address is a `net.IP`,
-- a slice of bytes; a request that may be nil is an `Option`. What `net.ParseCIDR` answers is an
-- argument. `int(...)` of a `uint32` is exact, and `uint32(...)` of an `int` is written `% 2 ^ 32`.
pub mod Range
pub mod Lifecycle
pub mod Print
mod Tests
use Prim.Native.Nat.{bit_and, bit_or}
use Prim.Native.String.{String}
use free5gc_workspace.Prelude.{
  ℕ, ◌-◌, ◌%◌, ◌^◌, Bool, false, not, List, Option, none, some, ltb, leb, length,
}
use free5gc_workspace.Prelude.Outcome.{Outcome, returns, fails, ◌>>=◌, ◌>>◌, guard, or_fail}
use free5gc_workspace.Prelude.Bytes.{be_uint32, put_uint32}
use free5gc_workspace.IpPool.Pool.{
  LazyReusePool, PoolError, Result, ok, err, new_lazy_reuse_pool, allocate, use_value, free,
  reserve,
}

-- `net.IPNet`
pub record IpNet : Type 0 where
  pub ip : List ℕ
  pub mask : List ℕ

pub record IpPool : Type 0 where
  pub ip_subnet : IpNet
  pub pool : LazyReusePool

pub data IpPoolError : Type 0 where
  parse_cidr_failed mask_invalid ip_used pool_empty invalid_address release_failed : IpPoolError
  pool_error : PoolError → IpPoolError

unfoldable pub calc_addr_range : IpNet → Outcome IpPoolError (ℕ × ℕ)
calc_addr_range ip_net = do
  mask_val ← be_uint32 ip_net.mask
  base_ip_val ← be_uint32 ip_net.ip
  let min_addr = bit_and base_ip_val mask_val
  let max_addr = bit_or base_ip_val (2 ^ 32 - 1 - mask_val)
  guard (ltb min_addr max_addr) mask_invalid
  returns (min_addr, max_addr)

lift : {A : Type 0} → Result A → Outcome IpPoolError A
lift (ok a) = returns a
lift (err e) = fails (pool_error e)

-- A call of `Reserve` whose error is returned at once.
reserved : LazyReusePool × Option PoolError → Outcome IpPoolError LazyReusePool
reserved (p, none) = returns p
reserved (p, some e) = fails (pool_error e)

unfoldable pub new_ip_pool : (String → Option IpNet) → String → Outcome IpPoolError IpPool
unfolding lift reserved
new_ip_pool parse_cidr cidr = do
  ip_net ← or_fail (parse_cidr cidr) parse_cidr_failed
  range ← calc_addr_range ip_net
  new_pool ← lift (new_lazy_reuse_pool range.0 range.1)
  no_network ← reserved (reserve new_pool range.0 range.0)
  no_broadcast ← reserved (reserve no_network range.1 range.1)
  returns (record { ip_subnet = ip_net; pool = no_broadcast })

unfoldable pub uint32_to_ip : ℕ → List ℕ
unfolding put_uint32
uint32_to_ip intval = put_uint32 intval

-- The address and whether it is in use; nil and false for a request that is nil.
unfoldable pub reallocate :
    IpPool → Option (List ℕ) → Outcome IpPoolError (IpPool × Option (List ℕ) × Bool)
reallocate p none = returns (p, none, false)
reallocate p (some request) = do
  alloc_val ← be_uint32 request
  let used = use_value p.pool alloc_val
  returns (record p { pool = used.0 }, some (uint32_to_ip (alloc_val % 2 ^ 32)), not used.1)

allocated : IpPool → LazyReusePool × Option ℕ → Outcome IpPoolError (IpPool × List ℕ)
unfolding uint32_to_ip
allocated p (q, none) = fails pool_empty
allocated p (q, some alloc_val) = returns (record p { pool = q }, uint32_to_ip (alloc_val % 2 ^ 32))

-- `Allocate`; where it fails the pool stays as it is.
unfoldable pub allocate_ip : IpPool → Option (List ℕ) → Outcome IpPoolError (IpPool × List ℕ)
unfolding allocated
allocate_ip p none = allocated p (allocate p.pool)
allocate_ip p (some request) = do
  alloc_val ← be_uint32 request
  let used = use_value p.pool alloc_val
  guard used.1 ip_used
  returns (record p { pool = used.0 }, uint32_to_ip (alloc_val % 2 ^ 32))

unfoldable pub exclude : IpPool → IpPool → Outcome IpPoolError IpPool
unfolding reserved
exclude p exclude_pool = do
  q ← reserved (reserve p.pool exclude_pool.pool.first exclude_pool.pool.last)
  returns (record p { pool = q })

-- `Release`; where it fails the pool stays as it is.
unfoldable pub release : IpPool → List ℕ → Outcome IpPoolError IpPool
release p ip = do
  guard (leb 4 (length ip)) invalid_address
  addr_val ← be_uint32 ip
  let freed = free p.pool addr_val
  guard freed.1 release_failed
  returns (record p { pool = freed.0 })
