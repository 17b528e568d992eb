-- ===== src/IpPool/Subnet/Lifecycle.antt =====
-- Addresses that are handed out and come back.
use free5gc_workspace.Prelude.{
  ℕ, ◌+◌, ◌^◌, ◌≡◌, ◌<◌, ◌≤◌, ◌⊎◌, true, false, refl, List, ◌∷◌, Option, none, some, arith, inl,
  inr, Option-cases,
}
use free5gc_workspace.Prelude.Outcome.{returns, fails}
use free5gc_workspace.Prelude.Bytes.{be_uint32, put_uint32, be_uint32-put_uint32, length-put_uint32}
use free5gc_workspace.IpPool.Pool.{allocate, use_value, free}
use free5gc_workspace.IpPool.Pool.Multiplicity.{mult, mult_range, unit_at}
use free5gc_workspace.IpPool.Pool.Allocate.{mult-allocate, allocate-none}
use free5gc_workspace.IpPool.Pool.Invariant.{
  Inv, allocate-Inv, allocate-SameEnds, use_value-SameEnds, free-SameEnds, use_value_cases,
  free-FreeEnds,
}
use free5gc_workspace.IpPool.Subnet.{
  IpPool, IpPoolError, release_failed, ip_used, pool_empty, uint32_to_ip, allocate_ip, reallocate,
  release,
}

-- A pool of addresses between two calls: its numbers are free at most once, and fit 32 bits.
abbrev pub IsSound : IpPool → Type 0
IsSound p = Inv p.pool × (p.pool.last < 2 ^ 32)

-- The address of the number `x` went from the pool `p` to a client, and `q` is left.
abbrev pub Handed : IpPool → ℕ → IpPool → Type 0
Handed p x q =
    (p.pool.first ≤ x)
    × (x ≤ p.pool.last)
    × ((v : ℕ) → mult p.pool.head v ≡ mult q.pool.head v + unit_at x v)
    × (q.pool.first ≡ p.pool.first)
    × (q.pool.last ≡ p.pool.last)
    × Inv q.pool

-- Without a request, `Allocate` fails just when no address is free, and hands one out else.
pub allocate_any :
    (p : IpPool)
    → IsSound p
    → ((allocate_ip p none ≡ fails pool_empty) × ((v : ℕ) → mult p.pool.head v ≡ 0))
      ⊎ ((x : ℕ) × (q : IpPool) × (allocate_ip p none ≡ returns (q, put_uint32 x)) × Handed p x q)
unfolding allocate_ip uint32_to_ip
allocate_any p (i, w) = elim (Option-cases (allocate p.pool).1) [
  | inl e ↦ inl (ground (arith, e), λ v. rw (allocate-none p.pool e).1 refl)
  | inr (x, e) ↦
      let moved = λ (v : ℕ). mult-allocate p.pool x v p.pool.first p.pool.last i.fits e in
      let range =
        mult_range p.pool.first p.pool.last x p.pool.head i.fits (ground (arith, moved x)) in
      inr (
        x,
        record p { pool = (allocate p.pool).0 },
        ground (arith, e, range),
        (
          range.0,
          range.1,
          moved,
          (allocate-SameEnds p.pool).0,
          (allocate-SameEnds p.pool).1,
          allocate-Inv p.pool i,
        ),
      )
]

-- With a request, `Allocate` fails just when the address is not free, and hands it out else.
pub allocate_requested :
    (p : IpPool) (x : ℕ)
    → IsSound p
    → x < 2 ^ 32
    → ((allocate_ip p (some (put_uint32 x)) ≡ fails ip_used) × (mult p.pool.head x ≡ 0))
      ⊎ ((q : IpPool) × (allocate_ip p (some (put_uint32 x)) ≡ returns (q, put_uint32 x))
          × Handed p x q)
unfolding allocate_ip uint32_to_ip
allocate_requested p x (i, w) s =
    rw (be_uint32-put_uint32 {E = IpPoolError} x s) (elim (use_value_cases p.pool x i) [
      | inl (e, z) ↦ inl (rw e refl, z)
      | inr (e, one, moved, _, j) ↦
          let range = mult_range p.pool.first p.pool.last x p.pool.head i.fits (omega arith) in
          inr (
            record p { pool = (use_value p.pool x).0 },
            ground (arith, e),
            (
              range.0,
              range.1,
              moved,
              (use_value-SameEnds p.pool x).0,
              (use_value-SameEnds p.pool x).1,
              j,
            ),
          )
    ])

-- `Reallocate` answers the address itself and whether it was not free; it takes a free one out.
pub reallocate_cases :
    (p : IpPool) (x : ℕ)
    → IsSound p
    → x < 2 ^ 32
    → ((reallocate p (some (put_uint32 x)) ≡ returns (p, some (put_uint32 x), true))
        × (mult p.pool.head x ≡ 0))
      ⊎ ((q : IpPool) × (reallocate p (some (put_uint32 x))
            ≡ returns (q, some (put_uint32 x), false))
          × Handed p x q)
unfolding reallocate uint32_to_ip
reallocate_cases p x (i, w) s =
    rw (be_uint32-put_uint32 {E = IpPoolError} x s) (elim (use_value_cases p.pool x i) [
      | inl (e, z) ↦ inl (ground (arith, e), z)
      | inr (e, one, moved, _, j) ↦
          let range = mult_range p.pool.first p.pool.last x p.pool.head i.fits (omega arith) in
          inr (
            record p { pool = (use_value p.pool x).0 },
            ground (arith, e),
            (
              range.0,
              range.1,
              moved,
              (use_value-SameEnds p.pool x).0,
              (use_value-SameEnds p.pool x).1,
              j,
            ),
          )
    ])

release-Handed :
    (p q : IpPool) (x : ℕ)
    → IsSound p
    → Handed p x q
    → (s : IpPool) × (release q (put_uint32 x) ≡ returns s)
      × ((v : ℕ) → mult s.pool.head v ≡ mult p.pool.head v)
      × IsSound s
unfolding release
release-Handed p q x (i, w) (lo, hi, moved, first, last, j) =
    let gone : mult q.pool.head x ≡ 0 = ground (arith, moved x, i.disjoint x) in
    let fits : x < 2 ^ 32 = omega arith in
    elim (free-FreeEnds q.pool x j) [
      | inl (_, why) ↦ ground arith
      | inr (e, _, _, back, _, k) ↦
          let ends = free-SameEnds q.pool x in
          (
            record q { pool = (free q.pool x).0 },
            rw (length-put_uint32 x, be_uint32-put_uint32 {E = IpPoolError} x fits, e) refl,
            λ v. omega (arith, moved v, back v),
            (k gone, omega arith),
          )
    ]

-- What a client asks for: no address in particular, or one of four bytes.
abbrev pub IsRequest : Option (List ℕ) → Type 0
IsRequest none = Unit
IsRequest (some a) = (x : ℕ) × (x < 2 ^ 32) × (a ≡ put_uint32 x)

-- What `Allocate` gives, with or without a request.
allocate_ip_cases :
    (p q : IpPool) (request : Option (List ℕ)) (a : List ℕ)
    → IsSound p
    → IsRequest request
    → allocate_ip p request ≡ returns (q, a)
    → (x : ℕ) × (a ≡ put_uint32 x) × Handed p x q
allocate_ip_cases p q none a i r e = elim (allocate_any p i) [
  | inl (f, _) ↦ cc
  | inr (x, q', f, h) ↦
      let same : q' ≡ q = cc in let text : a ≡ put_uint32 x = cc in (x, text, rw same at h)
]
allocate_ip_cases p q (some b) a i (x, small, is) e = elim (allocate_requested p x i small) [
  | inl (f, _) ↦ let f' = rw (← is) at f in cc
  | inr (q', f, h) ↦
      let f' = rw (← is) at f in
      let same : q' ≡ q = cc in let text : a ≡ put_uint32 x = cc in (x, text, rw same at h)
]

-- In a pool whose numbers are free at most once and fit 32 bits, and whose count of free numbers is
-- right, an address that Allocate gives, asked for with four bytes or not asked for, is the address of
-- a number of the pool's range that was free once and is not free in the pool that is left. Release
-- takes that address back there, and every number is then free as often as before the Allocate.
pub release-allocate_ip :
    (p q : IpPool) (request : Option (List ℕ)) (a : List ℕ)
    → IsSound p
    → IsRequest request
    → allocate_ip p request ≡ returns (q, a)
    → (x : ℕ) × (s : IpPool) × (a ≡ put_uint32 x)
      × (p.pool.first ≤ x)
      × (x ≤ p.pool.last)
      × (mult p.pool.head x ≡ 1)
      × (mult q.pool.head x ≡ 0)
      × (release q a ≡ returns s)
      × ((v : ℕ) → mult s.pool.head v ≡ mult p.pool.head v)
      × IsSound s
release-allocate_ip p q request a i r e =
    let (x, is, h) = allocate_ip_cases p q request a i r e in
    let (s, back, same, sound) = release-Handed p q x i h in
    (
      x,
      s,
      is,
      h.0,
      h.1,
      ground (arith, h.2 x, i.0.disjoint x),
      ground (arith, h.2 x, i.0.disjoint x),
      rw is back,
      same,
      sound,
    )

-- The 16 bytes of an IPv4 address as `net.ParseIP` gives them.
abbrev pub ipv4_in_16 : ℕ → List ℕ
ipv4_in_16 x =
    0 ∷ (0 ∷ (0 ∷ (0 ∷ (0 ∷ (0 ∷ (0 ∷ (0 ∷ (0 ∷ (0 ∷ (255 ∷ (255 ∷ put_uint32 x)))))))))))

-- Given in its form of 16 bytes, an address of a pool that does not begin at 0.0.0.0 is never
-- released, and never handed out on request.
pub ipv4_in_16_refused :
    (p : IpPool) (x : ℕ)
    → Inv p.pool
    → 0 < p.pool.first
    → (release p (ipv4_in_16 x) ≡ fails release_failed)
      × (allocate_ip p (some (ipv4_in_16 x)) ≡ fails ip_used)
unfolding release allocate_ip be_uint32
ipv4_in_16_refused p x i h = (
  elim (free-FreeEnds p.pool 0 i) [
    | inl (e, _) ↦ rw e refl
    | inr (_, lo, _, _, _, _) ↦ absurd (omega arith)
  ],
  elim (use_value_cases p.pool 0 i) [
    | inl (e, _) ↦ rw e refl
    | inr (_, one, _, _, _) ↦
        absurd
          (omega (arith, mult_range p.pool.first p.pool.last 0 p.pool.head i.fits (omega arith)))
  ],
)
