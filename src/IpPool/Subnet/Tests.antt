-- ===== src/IpPool/Subnet/Tests.antt =====
-- The addresses of a subnet on concrete inputs.
use free5gc_workspace.Prelude.{ℕ, ◌≡◌, ◌≤◌, refl, [], ◌∷◌, none, some, arith}
use free5gc_workspace.Prelude.{List}
use free5gc_workspace.Text.Decimal.{Bytes, codes, format}
use free5gc_workspace.IpPool.Subnet.Print.{string_of}
use free5gc_workspace.Prelude.Outcome.{returns, fails}
use free5gc_workspace.Prelude.Bytes.{put_uint32}
use free5gc_workspace.IpPool.Pool.{LazyReusePool, ok, new_lazy_reuse_pool}
use free5gc_workspace.IpPool.Pool.Multiplicity.{mult}
use free5gc_workspace.IpPool.Pool.Invariant.{new_lazy_reuse_pool-Inv}
use free5gc_workspace.IpPool.Subnet.{
  IpNet, IpPool, release_failed, ip_used, pool_empty, calc_addr_range, new_ip_pool, allocate_ip,
  reallocate,
}
use free5gc_workspace.IpPool.Subnet
use free5gc_workspace.IpPool.Subnet.Range.{
  subnet, IsFresh, calc_addr_range_prefix, new_ip_pool-IsFresh,
}
use free5gc_workspace.IpPool.Subnet.Lifecycle.{
  IsSound, Handed, release-allocate_ip, ipv4_in_16, ipv4_in_16_refused,
}

-- 10.10.0.0/30
abbrev net : IpNet
net = subnet 30 2 42106880 1

net_range : calc_addr_range net ≡ returns (168427520, 168427523)
net_range = calc_addr_range_prefix 30 2 42106880 1 refl (omega arith) (omega arith)

new_ip_pool-IsFresh_example :
    (p : IpPool) × (new_ip_pool (λ _. some net) "10.10.0.1/30" ≡ returns p)
    × IsFresh 168427520 168427523 net p
new_ip_pool-IsFresh_example =
    new_ip_pool-IsFresh (λ _. some net) "10.10.0.1/30" net 168427520 168427523 refl net_range

-- A pool with the addresses 0.0.0.3 to 0.0.0.6.
abbrev small : LazyReusePool
small = record { head = record { first = 3; last = 6 } ∷ []; first = 3; last = 6; remain = 4 }

abbrev addresses : IpPool
addresses = record { ip_subnet = net; pool = small }

small_new : new_lazy_reuse_pool 3 6 ≡ ok small
unfolding new_lazy_reuse_pool
small_new = refl

addresses-IsSound : IsSound addresses
addresses-IsSound = (new_lazy_reuse_pool-Inv 3 6 small_new, omega arith)

-- The pool after 0.0.0.3 was handed out.
abbrev rest : IpPool
rest = record {
  ip_subnet = net;
  pool = record { head = record { first = 4; last = 6 } ∷ []; first = 3; last = 6; remain = 3 };
}

rest-Handed : Handed addresses 3 rest
rest-Handed = (
  omega arith,
  omega arith,
  λ v. ground arith,
  refl,
  refl,
  record { fits = omega arith; disjoint = λ v. ground arith; counted = refl },
)

given : allocate_ip addresses none ≡ returns (rest, put_uint32 3)
unfolding allocate_ip free5gc_workspace.IpPool.Pool.allocate
given = refl

release-allocate_ip_example :
    (x : ℕ) × (s : IpPool) × (put_uint32 3 ≡ put_uint32 x)
    × (3 ≤ x)
    × (x ≤ 6)
    × (mult small.head x ≡ 1)
    × (mult rest.pool.head x ≡ 0)
    × (Subnet.release rest (put_uint32 3) ≡ returns s)
    × ((v : ℕ) → mult s.pool.head v ≡ mult small.head v)
    × IsSound s
release-allocate_ip_example =
    release-allocate_ip addresses rest none (put_uint32 3) addresses-IsSound tt given

ipv4_in_16_refused_example :
    (Subnet.release rest (ipv4_in_16 3) ≡ fails release_failed)
    × (allocate_ip rest (some (ipv4_in_16 3)) ≡ fails ip_used)
ipv4_in_16_refused_example = ipv4_in_16_refused rest 3 (rest-Handed.5) (omega arith)

-- A stand-in for the text of an address: its last byte.
abbrev last_byte : List ℕ → Bytes
last_byte [] = []
last_byte (b ∷ []) = format b
last_byte (b ∷ c ∷ s) = last_byte (c ∷ s)

string_of-two :
    string_of last_byte (record {
      ip_subnet = net;
      pool = record {
        head = record { first = 3; last = 6 } ∷ record { first = 258; last = 258 } ∷ [];
        first = 3;
        last = 300;
        remain = 5;
      };
    })
    ≡ returns (codes "[{3 - 6}->{2 - 2}]")
unfolding string_of format
string_of-two = refl
