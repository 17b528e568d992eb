-- ===== src/FlowDesc/RoundTrip.antt =====
-- What Decode makes of the text that Encode prints.
use free5gc_workspace.Prelude.{◌≡◌, ◌≢◌, ◌<◌, refl, ap, ◌∙◌, List, [], ◌∷◌, ◌++◌, Option, All}
use free5gc_workspace.Prelude.Outcome.{returns}
use free5gc_workspace.Text.Decimal.{Bytes, codes}
use free5gc_workspace.Text.Words.{join, fields-to_lower-join, text_eq, IsPlain, lower}
use free5gc_workspace.FlowDesc.{
  permit, deny, other_action, outward, IpFilterRule, next_field, parse_action, parse_direction,
  Action,
}
use free5gc_workspace.FlowDesc.Codec.{
  action_word, direction_word, proto_word, encode, decode_fields, decode,
}
use free5gc_workspace.FlowDesc.Address.{
  IsAddress, printed, canonical_address, address_word_lem, parse_flow_desc_addrs-printed,
}
use free5gc_workspace.FlowDesc.Ports.{InRange}
use free5gc_workspace.FlowDesc.Parts.{
  parse_proto-proto_word, part_of_ports, ports_words_lem, IsWord, IsCons→IsWord, is_plain,
  literal_IsWord, part_of_ports_words, last_ports-part_of_ports, proto_word-IsWord, IsWord-append,
  source_ports-part_of_ports,
}

-- The rule has a known action, leads outward, fits into its fields, and has addresses that pass and
-- have no spaces and capitals.
pub record IsEncodable (parse_cidr parse_ip : Bytes → Option Bytes) (r : IpFilterRule)
    : Type 0 where
  pub known : r.action ≢ other_action
  pub leads_out : r.dir ≡ outward
  pub proto_fits : r.proto < 256
  pub src_passes : IsAddress parse_cidr parse_ip r.src
  pub src_plain : IsPlain r.src
  pub src_ports_fit : All InRange r.src_ports
  pub dst_passes : IsAddress parse_cidr parse_ip r.dst
  pub dst_plain : IsPlain r.dst
  pub dst_ports_fit : All InRange r.dst_ports

module _ (parse_cidr parse_ip : Bytes → Option Bytes) where
  abbrev name_of : Action → Bytes
  name_of permit = codes "permit"
  name_of deny = codes "deny"
  name_of other_action = []

  abbrev words : IpFilterRule → List Bytes
  words r =
      name_of r.action
      ∷ codes "out"
      ∷ proto_word r.proto
      ∷ codes "from"
      ∷ printed parse_cidr parse_ip r.src
      ∷ (part_of_ports r.src_ports
          ++ (codes "to" ∷ printed parse_cidr parse_ip r.dst ∷ part_of_ports r.dst_ports))

  action_word_lem : (a : Action) → a ≢ other_action → action_word a ≡ returns (name_of a)
  unfolding action_word
  action_word_lem permit h = refl
  action_word_lem deny h = refl
  action_word_lem other_action h = absurd (h refl)

  parse_action_lem : (a : Action) → a ≢ other_action → parse_action (name_of a) ≡ returns a
  unfolding parse_action text_eq
  parse_action_lem permit h = refl
  parse_action_lem deny h = refl
  parse_action_lem other_action h = absurd (h refl)

  encode-words :
      (r : IpFilterRule)
      → IsEncodable parse_cidr parse_ip r
      → encode parse_cidr parse_ip r ≡ returns (join (codes " ") (words r))
  unfolding encode direction_word
  encode-words r h =
      rw (action_word_lem r.action h.known, h.leads_out)
        (rw
          (
            address_word_lem parse_cidr parse_ip r.src h.src_passes,
            ports_words_lem r.src_ports,
            address_word_lem parse_cidr parse_ip r.dst h.dst_passes,
            ports_words_lem r.dst_ports,
          )
          refl)

  name_of-IsWord : (a : Action) → a ≢ other_action → IsWord (name_of a)
  unfolding is_plain lower
  name_of-IsWord permit h = literal_IsWord _ _ refl
  name_of-IsWord deny h = literal_IsWord _ _ refl
  name_of-IsWord other_action h = absurd (h refl)

  printed-IsWord : (a : Bytes) → IsPlain a → IsWord (printed parse_cidr parse_ip a)
  unfolding is_plain lower
  printed-IsWord [] h = literal_IsWord _ _ refl
  printed-IsWord (c ∷ s) h = IsCons→IsWord (c ∷ s) h (c, s, refl)

  words-IsWord : (r : IpFilterRule) → IsEncodable parse_cidr parse_ip r → All IsWord (words r)
  unfolding is_plain lower
  words-IsWord r h =
      IsWord-append
        (name_of r.action
          ∷ codes "out"
          ∷ proto_word r.proto
          ∷ codes "from"
          ∷ printed parse_cidr parse_ip r.src
          ∷ [])
        _
        (
          name_of-IsWord r.action h.known,
          (
            literal_IsWord _ _ refl,
            (
              proto_word-IsWord r.proto,
              (literal_IsWord _ _ refl, (printed-IsWord r.src h.src_plain, tt)),
            ),
          ),
        )
        (IsWord-append (part_of_ports r.src_ports) _ (part_of_ports_words r.src_ports) (
          literal_IsWord _ _ refl,
          (printed-IsWord r.dst h.dst_plain, part_of_ports_words r.dst_ports),
        ))

  decode_fields-words :
      (r : IpFilterRule)
      → IsEncodable parse_cidr parse_ip r
      → decode_fields parse_cidr parse_ip (words r)
        ≡ returns (record r {
          src = canonical_address parse_cidr parse_ip r.src;
          dst = canonical_address parse_cidr parse_ip r.dst;
        })
  unfolding decode_fields parse_direction next_field text_eq
  decode_fields-words r h =
      let (f, more, next, ports) =
        source_ports-part_of_ports r.src_ports
          (printed parse_cidr parse_ip r.dst ∷ part_of_ports r.dst_ports) h.src_ports_fit in
      rw
        (
          parse_action_lem r.action h.known,
          parse_proto-proto_word r.proto h.proto_fits,
          parse_flow_desc_addrs-printed parse_cidr parse_ip r.src h.src_passes,
        )
        (rw (next, ports)
          (rw
            (
              parse_flow_desc_addrs-printed parse_cidr parse_ip r.dst h.dst_passes,
              last_ports-part_of_ports r.dst_ports h.dst_ports_fit,
              h.leads_out,
            )
            refl))

  -- Encode prints every rule that has a known action, leads outward, has a protocol below 256, ports
  -- of 16 bits, and addresses that pass the check of their format and have no spaces and capitals;
  -- Decode reads the text as the same rule, with `any` for an address that is missing, and for
  -- another one the text of its network or else of its address.
  pub decode-encode :
      (r : IpFilterRule)
      → IsEncodable parse_cidr parse_ip r
      → (text : Bytes) × (encode parse_cidr parse_ip r ≡ returns text)
        × (decode parse_cidr parse_ip text
            ≡ returns (record r {
              src = canonical_address parse_cidr parse_ip r.src;
              dst = canonical_address parse_cidr parse_ip r.dst;
            }))
  unfolding decode
  decode-encode r h = (
    join (codes " ") (words r),
    encode-words r h,
    ap (decode_fields parse_cidr parse_ip) (fields-to_lower-join (words r) (words-IsWord r h))
        ∙ decode_fields-words r h,
  )
