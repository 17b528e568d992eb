-- ===== src/IpPool/Subnet/Print.antt =====
-- lib/util/ippool/ip_pool.go: String. `net.IP.String` is an argument; reading past the end of a slice
-- panics.
use free5gc_workspace.Prelude.{ℕ, ◌%◌, ◌^◌, Bool, true, false, List, [], ◌∷◌, ◌++◌, if◌then◌else◌}
use free5gc_workspace.Prelude.Outcome.{Outcome, returns, panics, ◌>>=◌}
use free5gc_workspace.Prelude.Bytes.{put_uint32}
use free5gc_workspace.Text.Decimal.{Bytes, codes}
use free5gc_workspace.IpPool.Pool.{dump}
use free5gc_workspace.IpPool.Subnet.{IpPool, IpPoolError}

module _ (ip_string : List ℕ → Bytes) where
  abbrev address_text : ℕ → Bytes
  address_text n = ip_string (put_uint32 (n % 2 ^ 32))

  unfoldable range_text : List ℕ → Outcome IpPoolError Bytes
  unfolding put_uint32
  range_text (first ∷ last ∷ rest) =
      returns
        (codes "{" ++ (address_text first ++ (codes " - " ++ (address_text last ++ codes "}"))))
  range_text _ = panics

  -- The loop, before whose later elements an arrow stands.
  unfoldable ranges_text : Bool → List (List ℕ) → Outcome IpPoolError Bytes
  unfolding range_text
  ranges_text later [] = returns []
  ranges_text later (element ∷ elements) = do
    text ← range_text element
    rest ← ranges_text true elements
    returns ((if later then codes "->" else []) ++ (text ++ rest))

  unfoldable pub string_of : IpPool → Outcome IpPoolError Bytes
  unfolding ranges_text dump
  string_of p = do
    text ← ranges_text false (dump p.pool)
    returns (codes "[" ++ (text ++ codes "]"))
