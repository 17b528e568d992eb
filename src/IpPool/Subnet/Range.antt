-- ===== src/IpPool/Subnet/Range.antt =====
-- Which addresses a fresh pool of a subnet has.
use Prim.Native.String.{String}
use free5gc_workspace.Prelude.{
  ℕ, ◌+◌, ◌-◌, ◌*◌, ◌^◌, ◌≡◌, ◌<◌, ◌≤◌, ◌&&◌, refl, ap, ◌∙◌, [], ◌∷◌, Option, some, arith, ltb,
  if◌then◌else◌,
}
use free5gc_workspace.Prelude.Bits.{and_high_mask, or_low_ones}
use free5gc_workspace.Prelude.Outcome.{returns, fails}
use free5gc_workspace.Prelude.Bytes.{put_uint32, be_uint32-put_uint32}
use free5gc_workspace.IpPool.Pool.{LazyReusePool, ok, new_lazy_reuse_pool, reserve}
use free5gc_workspace.IpPool.Pool.Multiplicity.{mult}
use free5gc_workspace.IpPool.Pool.Invariant.{
  Inv, new_lazy_reuse_pool-Inv, reserve-Inv, reserve-SameEnds, reserve_inside,
}
use free5gc_workspace.IpPool.Subnet.{
  IpNet, IpPool, IpPoolError, mask_invalid, calc_addr_range, new_ip_pool,
}

-- The subnet of the k highest digits of an address: q are these digits, r the others.
abbrev pub subnet : ℕ → ℕ → ℕ → ℕ → IpNet
subnet k h q r = record { ip = put_uint32 (q * 2 ^ h + r); mask = put_uint32 ((2 ^ k - 1) * 2 ^ h) }

mask_end_lem :
    (k h q : ℕ) → 2 ^ k * 2 ^ h ≡ 2 ^ 32 → q < 2 ^ k → (2 ^ k - 1) * 2 ^ h + 2 ^ h ≡ 2 ^ 32
mask_end_lem k h q e p = omega (arith, ap (λ (t : ℕ). t * 2 ^ h) (one_less (2 ^ k) (omega arith)))
  where
    one_less : (n : ℕ) → 0 < n → n ≡ n - 1 + 1
    one_less n g = omega arith

ip_end_lem : (k h q : ℕ) → 2 ^ k * 2 ^ h ≡ 2 ^ 32 → q < 2 ^ k → q * 2 ^ h + 2 ^ h ≤ 2 ^ 32
ip_end_lem k h q e p = grind arith

-- The range of a subnet goes from the address with no host digit set to the one with all set; a
-- subnet of one address has no range.
pub calc_addr_range_prefix :
    (k h q r : ℕ)
    → 2 ^ k * 2 ^ h ≡ 2 ^ 32
    → q < 2 ^ k
    → r < 2 ^ h
    → calc_addr_range (subnet k h q r)
      ≡ (if ltb 1 (2 ^ h) then returns (q * 2 ^ h, q * 2 ^ h + (2 ^ h - 1)) else fails mask_invalid)
unfolding calc_addr_range
calc_addr_range_prefix k h q r e p s =
    let mask_end : (2 ^ k - 1) * 2 ^ h + 2 ^ h ≡ 2 ^ 32 = mask_end_lem k h q e p in
    let ip_end : q * 2 ^ h + 2 ^ h ≤ 2 ^ 32 = ip_end_lem k h q e p in
    let not_mask : 2 ^ 32 - 1 - (2 ^ k - 1) * 2 ^ h ≡ 2 ^ h - 1 = omega arith in
    rw
      (
        be_uint32-put_uint32 {E = IpPoolError} ((2 ^ k - 1) * 2 ^ h) (omega arith),
        be_uint32-put_uint32 {E = IpPoolError} (q * 2 ^ h + r) (omega arith),
        and_high_mask h k q r p s,
      )
      (rw (not_mask, or_low_ones h q r s) (ground arith))

-- What a fresh pool over the addresses `lo` to `hi` is.
abbrev pub IsFresh : ℕ → ℕ → IpNet → IpPool → Type 0
IsFresh lo hi net p =
    (p.ip_subnet ≡ net)
    × (p.pool.first ≡ lo)
    × (p.pool.last ≡ hi)
    × Inv p.pool
    × ((v : ℕ) → mult p.pool.head v ≡ (if ltb lo v && ltb v hi then 1 else 0))

calc_addr_range-lt : (net : IpNet) (lo hi : ℕ) → calc_addr_range net ≡ returns (lo, hi) → lo < hi
unfolding calc_addr_range
calc_addr_range-lt net lo hi h = ground arith

abbrev whole : ℕ → ℕ → LazyReusePool
whole lo hi = record {
  head = record { first = lo; last = hi } ∷ [];
  first = lo;
  last = hi;
  remain = hi - lo + 1;
}

new_whole : (lo hi : ℕ) → lo < hi → new_lazy_reuse_pool lo hi ≡ ok (whole lo hi)
unfolding new_lazy_reuse_pool
new_whole lo hi h = ground arith

-- `NewIPPool` on a subnet that has a range gives a pool over that range in which every number is
-- free but the first and the last.
pub new_ip_pool-IsFresh :
    (parse_cidr : String → Option IpNet) (cidr : String) (net : IpNet) (lo hi : ℕ)
    → parse_cidr cidr ≡ some net
    → calc_addr_range net ≡ returns (lo, hi)
    → (p : IpPool) × (new_ip_pool parse_cidr cidr ≡ returns p) × IsFresh lo hi net p
unfolding new_ip_pool
new_ip_pool-IsFresh parse_cidr cidr net lo hi e r =
    let lt = calc_addr_range-lt net lo hi r in
    let p1 = (reserve (whole lo hi) lo lo).0 in
    let i0 = new_lazy_reuse_pool-Inv lo hi (new_whole lo hi lt) in
    let i1 = reserve-Inv (whole lo hi) lo lo i0 in
    let ends1 = reserve-SameEnds (whole lo hi) lo lo in
    let ends2 = reserve-SameEnds p1 hi hi in
    let first = reserve_inside (whole lo hi) lo lo i0 (omega arith) (omega arith) (omega arith) in
    let second = reserve_inside p1 hi hi i1 (omega arith) (omega arith) (omega arith) in
    (
      record { ip_subnet = net; pool = (reserve p1 hi hi).0 },
      ground (arith, e, r, new_whole lo hi lt, first.0, second.0),
      (
        refl,
        ends2.0 ∙ ends1.0,
        ends2.1 ∙ ends1.1,
        reserve-Inv p1 hi hi i1,
        λ v. ground (arith, first.1 v, second.1 v),
      ),
    )
