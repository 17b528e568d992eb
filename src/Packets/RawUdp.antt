-- ===== src/Packets/RawUdp.antt =====
-- The packets of test/rawudp.go: BuildRawUdpIp. `net.ParseIP` with `To4` is an argument; an address is
-- four bytes. Whether the program runs on OS X is an argument.
pub mod Length
pub mod Balance
use mathlib.Core.Option
use free5gc_workspace.Prelude.{
  ℕ, ◌+◌, ◌/◌, ◌%◌, ◌^◌, Bool, true, false, List, [], ◌∷◌, ◌++◌, Option, none, some, leb, length,
}
use free5gc_workspace.Prelude.Outcome.{Outcome, returns, fails, panics, ◌>>=◌, ◌>>◌, guard}
use free5gc_workspace.Prelude.Bytes.{put_uint16}
use free5gc_workspace.Text.Decimal.{Bytes}
use free5gc_workspace.Packets.Checksum.{checksum}

abbrev pub Address : Type 0
Address = ℕ × ℕ × ℕ × ℕ

abbrev pub address_bytes : Address → List ℕ
address_bytes (a, b, c, d) = a ∷ b ∷ c ∷ d ∷ []

pub record Iphdr : Type 0 where
  pub vhl : ℕ
  pub tos : ℕ
  pub iplen : ℕ
  pub off : ℕ
  pub ttl : ℕ
  pub proto : ℕ
  pub csum : ℕ
  pub src : Address
  pub dst : Address

pub record Udphdr : Type 0 where
  pub src : ℕ
  pub dst : ℕ
  pub ulen : ℕ
  pub csum : ℕ

-- What `binary.Write` makes of the headers, in the order of their fields.
unfoldable pub ip_bytes : Iphdr → List ℕ
ip_bytes h =
    h.vhl ∷ h.tos ∷ put_uint16 h.iplen
    ++ (put_uint16 h.off
        ++ (h.ttl ∷ h.proto ∷ put_uint16 h.csum ++ (address_bytes h.src ++ address_bytes h.dst)))

unfoldable pub udp_bytes : Udphdr → List ℕ
udp_bytes u = put_uint16 u.src ++ (put_uint16 u.dst ++ (put_uint16 u.ulen ++ put_uint16 u.csum))

-- The pseudo header of a UDP header.
unfoldable pub pseudo_bytes : Iphdr → Udphdr → List ℕ
pseudo_bytes ip u =
    address_bytes ip.src ++ (address_bytes ip.dst ++ (0 ∷ ip.proto ∷ put_uint16 u.ulen))

-- What the UDP checksum is taken of.
unfoldable pub checked_bytes : Iphdr → Udphdr → List ℕ → List ℕ
unfolding pseudo_bytes udp_bytes
checked_bytes ip u payload = pseudo_bytes ip u ++ (udp_bytes u ++ payload)

unfoldable pub ip_checksum : Iphdr → Option Iphdr
unfolding ip_bytes
ip_checksum h =
    Option.map (λ c. record h { csum = c }) (checksum (ip_bytes (record h { csum = 0 })))

unfoldable pub udp_checksum : Iphdr → Udphdr → List ℕ → Option Udphdr
unfolding checked_bytes
udp_checksum ip u payload =
    Option.map (λ c. record u { csum = c })
      (checksum (checked_bytes ip (record u { csum = 0 }) payload))

pub data PacketError : Type 0 where
  too_large : ℕ → PacketError

-- A checksum always exists.
abbrev pub computed {ℓ} : {A : Type ℓ} → Option A → Outcome PacketError A
computed none = panics
computed (some a) = returns a

-- A copy into an array of four zeros: a nil slice leaves them.
abbrev pub copied : Option Address → Address
copied none = (0, 0, 0, 0)
copied (some a) = a

-- On OS X the two bytes of the length are exchanged.
unfoldable pub swap_length : Bool → List ℕ → List ℕ
swap_length true (a ∷ b ∷ c ∷ d ∷ rest) = a ∷ b ∷ d ∷ c ∷ rest
swap_length _ packet = packet

unfoldable pub new_iphdr : Option Address → Option Address → ℕ → Iphdr
new_iphdr src dst total_len = record {
  vhl = 0x45;
  tos = 0;
  iplen = total_len % 2 ^ 16;
  off = 0;
  ttl = 64;
  proto = 17;
  csum = 0;
  src = copied src;
  dst = copied dst;
}

unfoldable pub build_raw_udp_ip :
    (Bytes → Option Address) → Bool → Bytes → Bytes → ℕ → ℕ → List ℕ → Outcome PacketError (List ℕ)
unfolding ip_checksum udp_checksum new_iphdr ip_bytes udp_bytes swap_length
build_raw_udp_ip to4 is_darwin src_ip dst_ip src_port dst_port payload = do
  let udplen = 8 + length payload
  let total_len = 20 + udplen
  guard (leb total_len 0xffff) (too_large total_len)
  ip ← computed (ip_checksum (new_iphdr (to4 src_ip) (to4 dst_ip) total_len))
  udp ← computed (
      udp_checksum ip (record { src = src_port; dst = dst_port; ulen = udplen % 2 ^ 16; csum = 0 })
        payload)
  returns (swap_length is_darwin (ip_bytes ip ++ (udp_bytes udp ++ payload)))
