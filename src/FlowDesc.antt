-- ===== src/FlowDesc.antt =====
-- lib/util/flowdesc/ip_filter_rule.go: the rules of TS 29.212 as texts, which are ASCII. What
-- `net.ParseCIDR` and `net.ParseIP` make of an address is an argument: the text of the network or the
-- address that they print for it, if they take it. Of an error only its kind is kept.
pub mod Codec
pub mod Address
pub mod Ports
pub mod Parts
pub mod RoundTrip
mod Tests
use free5gc_workspace.Prelude.{
  ℕ, suc, ◌+◌, ◌-◌, ◌%◌, ◌≡◌, Bool, true, false, not, ◌&&◌, ◌||◌, List, [], ◌∷◌, ◌++◌, Option, none,
  some, map, length, ltb, leb, ◌==◌, if◌then◌else◌,
}
use free5gc_workspace.Prelude.Int.{ℤ, pos, negsuc}
use free5gc_workspace.Prelude.Outcome.{Outcome, returns, fails, panics, ◌>>=◌, ◌>>◌, guard, or_fail}
use free5gc_workspace.Text.Decimal.{Bytes, codes, is_digit, format, parse_uint, atoi}
use free5gc_workspace.Text.Words.{to_lower, fields, join, split_at, text_eq}
use free5gc_workspace.Text.Regex.{Regex, one_of, seq, alt, star, matches}
use free5gc_workspace.Text.Regex.Forms.{between, optional, anywhere}

-- `permit` and `deny`; another text is `other_action`.
pub data Action : Type 0 where
  permit deny other_action : Action

pub data Direction : Type 0 where
  inward outward other_direction : Direction

pub record PortRange : Type 0 where
  pub start : ℕ
  pub end : ℕ

pub record IpFilterRule : Type 0 where
  pub action : Action
  pub dir : Direction
  pub proto : ℕ
  pub src : Bytes
  pub src_ports : List PortRange
  pub dst : Bytes
  pub dst_ports : List PortRange

pub data FlowError : Type 0 where
  invalid_action bad_direction bad_address bad_ports too_few_fields bad_proto no_from no_to :
      FlowError

abbrev pub protocol_number_any : ℕ
protocol_number_any = 0xfc

unfoldable pub new_ip_filter_rule : IpFilterRule
new_ip_filter_rule = record {
  action = permit;
  dir = outward;
  proto = protocol_number_any;
  src = [];
  src_ports = [];
  dst = [];
  dst_ports = [];
}

-- `PortRange.String`
unfoldable pub port_range_string : PortRange → Bytes
port_range_string p =
    if p.start == p.end then format p.start else format p.start ++ (codes "-" ++ format p.end)

-- `PortRanges.String`: the ranges with a comma between.
unfoldable pub port_ranges_string : List PortRange → Bytes
unfolding port_range_string join
port_ranges_string ps = join (codes ",") (map port_range_string ps)

unfoldable pub swap_src_and_dst : IpFilterRule → IpFilterRule
swap_src_and_dst r = record r {
  src = r.dst;
  dst = r.src;
  src_ports = r.dst_ports;
  dst_ports = r.src_ports;
}

-- `([ ][0-9]{1,5}([,-][0-9]{1,5})*)?`
abbrev pub ports_regex : Regex
ports_regex =
    let numbers = between 1 5 (one_of is_digit) in
    optional (
      seq (one_of (λ c. c == b' '))
        (seq numbers (star (seq (one_of (λ c. c == b',' || c == b'-')) numbers))))

unfoldable pub valid_ports_format : Bytes → Bool
unfolding matches
valid_ports_format ports = matches (anywhere ports_regex) ports

abbrev pub Read : Type 0 → Type 0
Read = Outcome FlowError

-- One range of `ParsePorts`, split at the dash: what follows a second dash is left unread.
unfoldable pub parse_range : List Bytes → Read PortRange
parse_range [] = panics
parse_range (r ∷ []) = do
  p ← or_fail (parse_uint 16 r) bad_ports
  returns (record { start = p; end = p })
parse_range (r0 ∷ r1 ∷ rest) = do
  p0 ← or_fail (parse_uint 16 r0) bad_ports
  p1 ← or_fail (parse_uint 16 r1) bad_ports
  returns (record { start = p0; end = p1 })

unfoldable pub parse_ranges : List Bytes → Read (List PortRange)
unfolding parse_range split_at
parse_ranges [] = returns []
parse_ranges (r ∷ ranges) = do
  range ← parse_range (split_at b'-' r)
  rest ← parse_ranges ranges
  returns (range ∷ rest)

unfoldable pub parse_ports : Bytes → Read (List PortRange)
unfolding valid_ports_format parse_ranges split_at
parse_ports ports = do
  guard (valid_ports_format ports) bad_ports
  parse_ranges (split_at b',' ports)

unfoldable pub parse_action : Bytes → Read Action
unfolding text_eq
parse_action act =
    if text_eq act (codes "permit")
    then returns permit
    else if text_eq act (codes "deny")
    then returns deny
    else fails invalid_action

unfoldable pub parse_direction : Bytes → Read Direction
unfolding text_eq
parse_direction dir = if text_eq dir (codes "out") then returns outward else fails bad_direction

-- `uint8(n)`
unfoldable pub to_uint8 : ℤ → ℕ
to_uint8 (pos n) = n % 256
to_uint8 (negsuc n) = 255 - n % 256

unfoldable pub atoi_number : Option ℤ → Read ℕ
atoi_number none = fails bad_proto
atoi_number (some n) = returns (to_uint8 n)

unfoldable pub parse_proto : Bytes → Read ℕ
unfolding text_eq atoi_number
parse_proto proto =
    if text_eq proto (codes "ip") then returns protocol_number_any else atoi_number (atoi proto)

-- The next of the fields, and those behind it.
unfoldable pub next_field : List Bytes → Read (Bytes × List Bytes)
next_field [] = fails too_few_fields
next_field (f ∷ rest) = returns (f, rest)

-- The ports, if the field has any; else it is left to be read.
unfoldable pub source_ports :
    List Bytes → Read (List PortRange) → Bytes → List PortRange × List Bytes
source_ports rest (returns ps) f = (ps, rest)
source_ports rest _ f = ([], f ∷ rest)

unfoldable pub destination_ports : Read (List PortRange) → List PortRange
destination_ports (returns ps) = ps
destination_ports _ = []

unfoldable pub last_ports : List Bytes → List PortRange
unfolding destination_ports parse_ports
last_ports [] = []
last_ports (f ∷ rest) = destination_ports (parse_ports f)

module _ (parse_cidr parse_ip : Bytes → Option Bytes) where
  unfoldable pub is_some : Option Bytes → Bool
  is_some none = false
  is_some (some t) = true

  unfoldable pub valid_addrs_format : Bytes → Bool
  unfolding text_eq is_some
  valid_addrs_format [] = false
  valid_addrs_format (c ∷ s) =
      let addrs = c ∷ s in
      if c == b'!'
      then false
      else if text_eq addrs (codes "any") || text_eq addrs (codes "assigned")
      then true
      else is_some (parse_cidr addrs) || is_some (parse_ip addrs)

  unfoldable pub canonical : Option Bytes → Option Bytes → Read Bytes
  canonical (some net) ip = returns net
  canonical none (some ip) = returns ip
  canonical none none = fails bad_address

  unfoldable pub parse_flow_desc_addrs : Bytes → Read Bytes
  unfolding text_eq canonical
  parse_flow_desc_addrs [] = fails bad_address
  parse_flow_desc_addrs (c ∷ s) =
      let addrs = c ∷ s in
      if text_eq addrs (codes "any") || text_eq addrs (codes "assigned")
      then returns addrs
      else if c == b'!'
      then fails bad_address
      else canonical (parse_cidr addrs) (parse_ip addrs)
