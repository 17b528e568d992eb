-- ===== src/Pfcp.antt =====
-- lib/util/pfcp/outer_header.go: the fields of an Outer Header Creation IE. A byte is a number below
-- 256; a nil `net.IP` is `none`. An index or a slice beyond the payload panics.
pub mod OuterHeader
mod Tests
