-- ===== src/Packets/Tests.antt =====
-- Packets on concrete inputs.
use free5gc_workspace.Prelude.{◌≡◌, true, false, [], ◌∷◌, arith}
use free5gc_workspace.Prelude.Outcome.{returns}
use free5gc_workspace.Packets.Envelope.{
  encap_nas_msg_to_envelope, decap_nas_pdu_from_envelope,
  decap_nas_pdu_from_envelope-encap_nas_msg_to_envelope,
}
use free5gc_workspace.Prelude.{ℕ, ◌+◌, ◌%◌, ◌≤◌, List, Option, some, length, drop}
use free5gc_workspace.Prelude.Bytes.{be_uint16}
use free5gc_workspace.Text.Decimal.{Bytes}
use free5gc_workspace.Packets.Checksum.{word_sum}
use free5gc_workspace.Packets.RawUdp.{
  Address, Iphdr, Udphdr, PacketError, new_iphdr, checked_bytes, udp_checksum, build_raw_udp_ip,
}
use free5gc_workspace.Packets.RawUdp.Length.{build_raw_udp_ip_short}
use free5gc_workspace.Packets.RawUdp.Balance.{udp_checksum_balances}
use free5gc_workspace.Packets.Gtp.{Reads, build_gtpv1_header, build_gtpv1_header-Reads}

decap_nas_pdu_from_envelope-encap_nas_msg_to_envelope_example :
    decap_nas_pdu_from_envelope (encap_nas_msg_to_envelope (126 ∷ 0 ∷ 65 ∷ []))
    ≡ returns (126 ∷ 0 ∷ 65 ∷ [], 3)
decap_nas_pdu_from_envelope-encap_nas_msg_to_envelope_example =
    decap_nas_pdu_from_envelope-encap_nas_msg_to_envelope (126 ∷ 0 ∷ 65 ∷ []) (omega arith)

build_gtpv1_header-Reads_example :
    Reads true false false 9 0 0 84 1 (build_gtpv1_header true 9 false 0 false 0 84 1)
build_gtpv1_header-Reads_example =
    build_gtpv1_header-Reads true false false 9 0 0 84 1 (omega arith) (omega arith) (omega arith)

-- Addresses that are read as 10.0.0.1.
abbrev local_address : Bytes → Option Address
local_address text = some (10, 0, 0, 1)

build_raw_udp_ip_short_example :
    (packet : List ℕ) × (build_raw_udp_ip local_address false [] [] 2152 2152 (1 ∷ 2 ∷ 3 ∷ [])
      ≡ returns packet)
    × (be_uint16 {E = PacketError} (drop 2 packet) ≡ returns (length packet + 2))
    × (length packet ≡ 29)
build_raw_udp_ip_short_example =
    build_raw_udp_ip_short local_address [] [] 2152 2152 (1 ∷ 2 ∷ 3 ∷ []) (omega arith)

abbrev ip : Iphdr
ip = new_iphdr (some (10, 0, 0, 1)) (some (10, 0, 0, 2)) 31

abbrev udp : Udphdr
udp = record { src = 2152; dst = 2152; ulen = 11; csum = 0 }

udp_checksum_balances_example :
    (u' : Udphdr) × (udp_checksum ip udp (1 ∷ 2 ∷ 3 ∷ []) ≡ some u')
    × (1 ≤ u'.csum)
    × (u'.csum ≤ 65535)
    × (word_sum (checked_bytes ip u' (1 ∷ 2 ∷ 3 ∷ [])) % 65535 ≡ 0)
unfolding new_iphdr
udp_checksum_balances_example =
    udp_checksum_balances ip udp (1 ∷ 2 ∷ 3 ∷ [])
      (omega arith, (omega arith, (omega arith, (omega arith, tt))))
      (omega arith, (omega arith, (omega arith, (omega arith, tt)))) (omega arith)
      (omega arith, (omega arith, (omega arith, tt))) (omega arith)
