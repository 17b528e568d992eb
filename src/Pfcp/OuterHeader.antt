-- ===== src/Pfcp/OuterHeader.antt =====
-- lib/util/pfcp/outer_header.go: the parser. The bit flags of the first byte say which fields follow.
pub mod Total
use Prim.Native.Nat.{bit_and}
use free5gc_workspace.Prelude.{
  ℕ, ◌+◌, ◌*◌, ◌/◌, ◌%◌, ◌^◌, Bool, not, ◌||◌, List, Option, none, some, leb, length, ◌==◌,
  if◌then◌else◌,
}
use free5gc_workspace.Prelude.Outcome.{Outcome, returns, fails, ◌>>=◌, ◌>>◌, guard}
use free5gc_workspace.Prelude.Bytes.{index, slice}

pub record OuterHeaderCreationFields : Type 0 where
  pub outer_header_creation_description : ℕ
  pub teid : ℕ
  pub ipv4_address : Option (List ℕ)
  pub ipv6_address : Option (List ℕ)
  pub port_number : ℕ
  pub c_tag : ℕ
  pub s_tag : ℕ

pub data Part : Type 0 where
  teid_part ipv4_part ipv6_part port_part c_tag_part s_tag_part : Part

pub data ParseError : Type 0 where
  too_short : ParseError
  insufficient_bytes : Part → ℕ → ParseError

-- `(oct5 & m) != 0`
abbrev pub has : ℕ → ℕ → Bool
has oct5 m = not (bit_and oct5 m == 0)

-- The flags under which each field is present.
abbrev pub teid_flag : ℕ → Bool
teid_flag o = has o 0x01 || has o 0x02

abbrev pub ipv4_flag : ℕ → Bool
ipv4_flag o = has o 0x01 || (has o 0x04 || has o 0x10)

abbrev pub ipv6_flag : ℕ → Bool
ipv6_flag o = has o 0x02 || (has o 0x08 || has o 0x20)

abbrev pub port_flag : ℕ → Bool
port_flag o = has o 0x04 || has o 0x08

abbrev pub c_tag_flag : ℕ → Bool
c_tag_flag o = has o 0x40

abbrev pub s_tag_flag : ℕ → Bool
s_tag_flag o = has o 0x80

abbrev pub Read : Type 0
Read = Outcome ParseError (OuterHeaderCreationFields × ℕ)

-- The fields read so far, and the offset of the next.
abbrev pub Parser : Type 0
Parser = List ℕ → OuterHeaderCreationFields × ℕ → Read

-- Two, three and four bytes, highest first, as the shifts and ors of the source put them together.
abbrev pub word16 : List ℕ → ℕ → Outcome ParseError ℕ
word16 p i = do a ← index p i; b ← index p (i + 1); returns (a * 2 ^ 8 + b)

abbrev pub word24 : List ℕ → ℕ → Outcome ParseError ℕ
word24 p i = do
  a ← index p i
  b ← index p (i + 1)
  c ← index p (i + 2)
  returns (a * 2 ^ 16 + b * 2 ^ 8 + c)

abbrev pub word32 : List ℕ → ℕ → Outcome ParseError ℕ
word32 p i = do
  a ← index p i
  b ← index p (i + 1)
  c ← index p (i + 2)
  d ← index p (i + 3)
  returns (a * 2 ^ 24 + b * 2 ^ 16 + c * 2 ^ 8 + d)

-- A field of n bytes under a flag: nothing happens without the flag, and too few bytes are an error.
abbrev pub field : Bool → ℕ → Part → (ℕ → Read) → List ℕ → OuterHeaderCreationFields × ℕ → Read
field present n part read p (f, offset) =
    let parsed =
      guard (leb (offset + n) (length p)) (insufficient_bytes part offset) >> read offset in
    if present then parsed else returns (f, offset)

abbrev pub read_teid : List ℕ → OuterHeaderCreationFields → ℕ → Read
read_teid p f i = do v ← word32 p i; returns (record f { teid = v }, i + 4)

unfoldable pub parse_teid : ℕ → Parser
parse_teid oct5 p (f, offset) = field (teid_flag oct5) 4 teid_part (read_teid p f) p (f, offset)

abbrev pub read_ipv4 : List ℕ → OuterHeaderCreationFields → ℕ → Read
read_ipv4 p f i = do ip ← slice p i 4; returns (record f { ipv4_address = some ip }, i + 4)

unfoldable pub parse_ipv4 : ℕ → Parser
parse_ipv4 oct5 p (f, offset) = field (ipv4_flag oct5) 4 ipv4_part (read_ipv4 p f) p (f, offset)

abbrev pub read_ipv6 : List ℕ → OuterHeaderCreationFields → ℕ → Read
read_ipv6 p f i = do ip ← slice p i 16; returns (record f { ipv6_address = some ip }, i + 16)

unfoldable pub parse_ipv6 : ℕ → Parser
parse_ipv6 oct5 p (f, offset) = field (ipv6_flag oct5) 16 ipv6_part (read_ipv6 p f) p (f, offset)

abbrev pub read_port : List ℕ → OuterHeaderCreationFields → ℕ → Read
read_port p f i = do v ← word16 p i; returns (record f { port_number = v }, i + 2)

unfoldable pub parse_port : ℕ → Parser
parse_port oct5 p (f, offset) = field (port_flag oct5) 2 port_part (read_port p f) p (f, offset)

abbrev pub read_c_tag : List ℕ → OuterHeaderCreationFields → ℕ → Read
read_c_tag p f i = do v ← word24 p i; returns (record f { c_tag = v }, i + 3)

unfoldable pub parse_c_tag : ℕ → Parser
parse_c_tag oct5 p (f, offset) = field (c_tag_flag oct5) 3 c_tag_part (read_c_tag p f) p (f, offset)

-- The last field: the source leaves the offset where it is.
abbrev pub read_s_tag : List ℕ → OuterHeaderCreationFields → ℕ → Read
read_s_tag p f i = do v ← word24 p i; returns (record f { s_tag = v }, i)

unfoldable pub parse_s_tag : ℕ → Parser
parse_s_tag oct5 p (f, offset) = field (s_tag_flag oct5) 3 s_tag_part (read_s_tag p f) p (f, offset)

abbrev pub blank : ℕ → OuterHeaderCreationFields
blank description = record {
  outer_header_creation_description = description;
  teid = 0;
  ipv4_address = none;
  ipv6_address = none;
  port_number = 0;
  c_tag = 0;
  s_tag = 0;
}

-- The fields in their order, from the third byte on.
unfoldable pub parse_steps :
    ℕ → List ℕ → OuterHeaderCreationFields → Outcome ParseError OuterHeaderCreationFields
unfolding parse_teid parse_ipv4 parse_ipv6 parse_port parse_c_tag parse_s_tag
parse_steps oct5 payload f = do
  s1 ← parse_teid oct5 payload (f, 2)
  s2 ← parse_ipv4 oct5 payload s1
  s3 ← parse_ipv6 oct5 payload s2
  s4 ← parse_port oct5 payload s3
  s5 ← parse_c_tag oct5 payload s4
  s6 ← parse_s_tag oct5 payload s5
  returns s6.0

unfoldable pub parse_outer_header_creation : List ℕ → Outcome ParseError OuterHeaderCreationFields
unfolding parse_steps
parse_outer_header_creation payload = do
  guard (leb 2 (length payload)) too_short
  description ← word16 payload 0
  oct5 ← index payload 0
  parse_steps oct5 payload (blank description)

-- `uint8((description & 0xff00) >> 8)`
abbrev oct5_of : OuterHeaderCreationFields → ℕ
oct5_of f = bit_and f.outer_header_creation_description 0xff00 / 2 ^ 8 % 2 ^ 8

unfoldable pub has_teid : OuterHeaderCreationFields → Bool
has_teid f = teid_flag (oct5_of f)

unfoldable pub has_ipv4 : OuterHeaderCreationFields → Bool
has_ipv4 f = ipv4_flag (oct5_of f)
