-- ===== src/FlowDesc/Codec.antt =====
-- lib/util/flowdesc/ip_filter_rule.go: Encode and Decode.
use free5gc_workspace.Prelude.{ℕ, List, [], ◌∷◌, ◌++◌, Option, ◌==◌, if◌then◌else◌}
use free5gc_workspace.Prelude.Outcome.{returns, fails, ◌>>=◌, ◌>>◌, guard}
use free5gc_workspace.Text.Decimal.{Bytes, codes, format}
use free5gc_workspace.Text.Words.{to_lower, fields, join, text_eq}
use free5gc_workspace.FlowDesc.{
  Action, permit, deny, other_action, Direction, inward, outward, other_direction, IpFilterRule,
  invalid_action, bad_direction, bad_address, bad_ports, no_from, no_to, protocol_number_any,
  new_ip_filter_rule, port_ranges_string, valid_ports_format, Read, parse_action, parse_direction,
  parse_proto, parse_ports, next_field, source_ports, last_ports, valid_addrs_format,
  parse_flow_desc_addrs,
}

unfoldable pub action_word : Action → Read Bytes
action_word permit = returns (codes "permit")
action_word deny = returns (codes "deny")
action_word other_action = fails invalid_action

unfoldable pub direction_word : Direction → Read Bytes
direction_word outward = returns (codes "out")
direction_word inward = fails bad_direction
direction_word other_direction = fails bad_direction

unfoldable pub proto_word : ℕ → Bytes
proto_word n = if n == protocol_number_any then codes "ip" else format n

-- The ports as a word, if there are any.
unfoldable pub ports_words : Bytes → Read (List Bytes)
unfolding valid_ports_format
ports_words [] = returns []
ports_words (c ∷ s) = if valid_ports_format (c ∷ s) then returns ((c ∷ s) ∷ []) else fails bad_ports

module _ (parse_cidr parse_ip : Bytes → Option Bytes) where
  unfoldable pub address_word : Bytes → Read Bytes
  unfolding valid_addrs_format
  address_word [] = returns (codes "any")
  address_word (c ∷ s) =
      if valid_addrs_format parse_cidr parse_ip (c ∷ s) then returns (c ∷ s) else fails bad_address

  unfoldable pub encode : IpFilterRule → Read Bytes
  unfolding action_word direction_word proto_word address_word ports_words port_ranges_string join
  encode r = do
    action ← action_word r.action
    dir ← direction_word r.dir
    src ← address_word r.src
    src_ports ← ports_words (port_ranges_string r.src_ports)
    dst ← address_word r.dst
    dst_ports ← ports_words (port_ranges_string r.dst_ports)
    returns (
        join (codes " ") (
          action
          ∷ dir
          ∷ proto_word r.proto
          ∷ codes "from"
          ∷ src
          ∷ (src_ports ++ (codes "to" ∷ dst ∷ dst_ports))))

  -- Behind the source's ports: `to`, the destination and its ports.
  unfoldable pub decode_destination : IpFilterRule → List Bytes → Read IpFilterRule
  unfolding next_field parse_flow_desc_addrs last_ports text_eq
  decode_destination r parts = do
    to ← next_field parts
    guard (text_eq to.0 (codes "to")) no_to
    dst ← next_field to.1
    address ← parse_flow_desc_addrs parse_cidr parse_ip dst.0
    returns (record r { dst = address; dst_ports = last_ports dst.1 })

  unfoldable pub decode_fields : List Bytes → Read IpFilterRule
  unfolding next_field parse_action parse_direction parse_proto parse_flow_desc_addrs parse_ports
      source_ports decode_destination new_ip_filter_rule text_eq
  decode_fields parts = do
    act ← next_field parts
    action ← parse_action act.0
    way ← next_field act.1
    dir ← parse_direction way.0
    protocol ← next_field way.1
    proto ← parse_proto protocol.0
    from ← next_field protocol.1
    guard (text_eq from.0 (codes "from")) no_from
    src ← next_field from.1
    address ← parse_flow_desc_addrs parse_cidr parse_ip src.0
    ports ← next_field src.1
    let more = source_ports ports.1 (parse_ports ports.0) ports.0
    decode_destination
        (record new_ip_filter_rule {
          action = action;
          dir = dir;
          proto = proto;
          src = address;
          src_ports = more.0;
        })
        more.1

  unfoldable pub decode : Bytes → Read IpFilterRule
  unfolding decode_fields to_lower fields
  decode s = decode_fields (fields (to_lower s))
