-- ===== src/Packets/RawUdp/Length.antt =====
-- The length of a packet.
use free5gc_workspace.Prelude.{
  ℕ, ◌+◌, ◌≡◌, ◌≤◌, ◌%◌, ◌^◌, refl, ap, true, false, List, ◌++◌, Option, leb, length, drop, arith,
}
use free5gc_workspace.Prelude.Outcome.{returns}
use free5gc_workspace.Prelude.Bytes.{put_uint16, be_uint16}
use free5gc_workspace.Text.Decimal.{Bytes}
use free5gc_workspace.Packets.Checksum.{checksum_total}
use free5gc_workspace.Packets.RawUdp.{
  Address, Iphdr, Udphdr, PacketError, ip_bytes, udp_bytes, ip_checksum, udp_checksum,
  checked_bytes, new_iphdr, swap_length, build_raw_udp_ip,
}

-- Where the packet is not too large, BuildRawUdpIp gives one, and but for OS X the length that its
-- header says, in the bytes 2 and 3, is two more than it has.
pub build_raw_udp_ip_short :
    (to4 : Bytes → Option Address) (src_ip dst_ip : Bytes) (src_port dst_port : ℕ)
    (payload : List ℕ)
    → 28 + length payload ≤ 0xffff
    → (packet : List ℕ) × (build_raw_udp_ip to4 false src_ip dst_ip src_port dst_port payload
        ≡ returns packet)
      × (be_uint16 {E = PacketError} (drop 2 packet) ≡ returns (length packet + 2))
      × (length packet ≡ 26 + length payload)
unfolding build_raw_udp_ip ip_checksum udp_checksum swap_length new_iphdr ip_bytes udp_bytes
    put_uint16 be_uint16
build_raw_udp_ip_short to4 src_ip dst_ip src_port dst_port payload h =
    let total = 28 + length payload in
    let ip = new_iphdr (to4 src_ip) (to4 dst_ip) (20 + (8 + length payload)) in
    let (c, e, _) = checksum_total (ip_bytes ip) in
    let ip' : Iphdr = record ip { csum = c } in
    let udp : Udphdr = record {
      src = src_port;
      dst = dst_port;
      ulen = (8 + length payload) % 2 ^ 16;
      csum = 0;
    } in
    let (c', e', _) = checksum_total (checked_bytes ip' udp payload) in
    let fits : leb (20 + (8 + length payload)) 0xffff ≡ true = ground arith in
    (
      ip_bytes ip' ++ (udp_bytes (record udp { csum = c' }) ++ payload),
      rw (fits, e, e') refl,
      ap returns (omega arith),
      omega arith,
    )
