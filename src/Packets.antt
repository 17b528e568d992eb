-- ===== src/Packets.antt =====
-- The packets of the test harness: test/packet.go, test/security.go, test/gtp.go and
-- test/rawudp.go.
pub mod Envelope
pub mod Gtp
pub mod Checksum
pub mod RawUdp
mod Tests
