-- ===== src/Packets/RawUdp/Balance.antt =====
-- The UDP checksum of a packet.
use free5gc_workspace.Prelude.{
  ℕ, ◌+◌, ◌≡◌, ◌≤◌, ◌<◌, ◌%◌, ◌^◌, refl, List, some, All, length, arith,
}
use free5gc_workspace.Prelude.Bytes.{put_uint16}
use free5gc_workspace.Packets.Checksum.{word_sum, word_sum_bound, checksum_balances}
use free5gc_workspace.Packets.RawUdp.{
  address_bytes, Iphdr, Udphdr, udp_bytes, pseudo_bytes, checked_bytes, udp_checksum,
}

-- The checksum adds itself to the sum of the words.
checked_bytes_sum :
    (ip : Iphdr) (u : Udphdr) (payload : List ℕ) (c : ℕ)
    → c ≤ 65535
    → word_sum (checked_bytes ip (record u { csum = c }) payload)
      ≡ word_sum (checked_bytes ip (record u { csum = 0 }) payload) + c
unfolding checked_bytes pseudo_bytes udp_bytes put_uint16
checked_bytes_sum ip u payload c h = omega arith

checked_bytes_bound :
    (ip : Iphdr) (u : Udphdr) (payload : List ℕ)
    → All (λ b. b < 256) (address_bytes ip.src)
    → All (λ b. b < 256) (address_bytes ip.dst)
    → ip.proto < 256
    → All (λ b. b < 256) payload
    → length payload ≤ 65507
    → word_sum (checked_bytes ip (record u { csum = 0 }) payload) < 2 ^ 32
unfolding checked_bytes pseudo_bytes udp_bytes put_uint16
checked_bytes_bound ip u payload hs hd p h l =
    let (s0, s1, s2, s3) : ip.src.0 < 256 × ip.src.1 < 256 × ip.src.2 < 256 × ip.src.3 < 256 =
      (hs.0, hs.1.0, hs.1.1.0, hs.1.1.1.0) in
    let (d0, d1, d2, d3) : ip.dst.0 < 256 × ip.dst.1 < 256 × ip.dst.2 < 256 × ip.dst.3 < 256 =
      (hd.0, hd.1.0, hd.1.1.0, hd.1.1.1.0) in
    let rest = word_sum_bound payload h in omega arith

-- For addresses and a payload of bytes, of which there are at most 65507, the UDP checksum exists, is
-- not zero, and makes the words of the pseudo header, the UDP header and the payload add up to zero in
-- one's complement.
pub udp_checksum_balances :
    (ip : Iphdr) (u : Udphdr) (payload : List ℕ)
    → All (λ b. b < 256) (address_bytes ip.src)
    → All (λ b. b < 256) (address_bytes ip.dst)
    → ip.proto < 256
    → All (λ b. b < 256) payload
    → length payload ≤ 65507
    → (u' : Udphdr) × (udp_checksum ip u payload ≡ some u')
      × (1 ≤ u'.csum)
      × (u'.csum ≤ 65535)
      × (word_sum (checked_bytes ip u' payload) % 65535 ≡ 0)
unfolding udp_checksum
udp_checksum_balances ip u payload hs hd p h l =
    let (c, e, low, high, balance) =
      checksum_balances (checked_bytes ip (record u { csum = 0 }) payload)
        (checked_bytes_bound ip u payload hs hd p h l) in
    (
      record u { csum = c },
      rw e refl,
      low,
      high,
      rw (checked_bytes_sum ip u payload c high) balance,
    )
