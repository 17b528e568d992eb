-- ===== src/FlowDesc/Tests.antt =====
-- The code on concrete rules, and the theorems at concrete inputs.
use free5gc_workspace.Prelude.{◌≡◌, refl, [], ◌∷◌, Option, none, some, if◌then◌else◌, arith}
use free5gc_workspace.Prelude.Outcome.{returns, fails}
use free5gc_workspace.Text.Decimal.{Bytes, codes, format, atoi, parse_uint}
use free5gc_workspace.Text.Words.{text_eq}
use free5gc_workspace.FlowDesc.{
  permit, deny, outward, IpFilterRule, valid_addrs_format, no_to, too_few_fields,
}
use free5gc_workspace.FlowDesc.Codec.{encode, decode}
use free5gc_workspace.FlowDesc.Address.{canonical_address}
use free5gc_workspace.FlowDesc.Parts.{is_plain, is_plain-IsPlain}
use free5gc_workspace.FlowDesc.RoundTrip.{IsEncodable, decode-encode}

-- Of networks one is known, and of addresses one.
unfoldable networks : Bytes → Option Bytes
unfolding text_eq
networks t = if text_eq t (codes "10.1.2.3/8") then some (codes "10.0.0.0/8") else none

unfoldable addresses : Bytes → Option Bytes
unfolding text_eq
addresses t = if text_eq t (codes "192.168.0.1") then some t else none

abbrev web : IpFilterRule
web = record {
  action = permit;
  dir = outward;
  proto = 6;
  src = codes "10.1.2.3/8";
  src_ports = [];
  dst = codes "192.168.0.1";
  dst_ports = (record { start = 80; end = 80 }) ∷ (record { start = 8000; end = 8080 }) ∷ [];
}

encode-web :
    encode networks addresses web
    ≡ returns (codes "permit out 6 from 10.1.2.3/8 to 192.168.0.1 80,8000-8080")
unfolding encode networks addresses format
encode-web = refl

decode_capitals :
    decode networks addresses (codes "DENY out ip from any 1-2 to 192.168.0.1 x")
    ≡ returns (record {
      action = deny;
      dir = outward;
      proto = 252;
      src = codes "any";
      src_ports = (record { start = 1; end = 2 }) ∷ [];
      dst = codes "192.168.0.1";
      dst_ports = [];
    })
unfolding decode networks addresses atoi parse_uint
decode_capitals = refl

decode_short : decode networks addresses (codes "permit out 17 from any") ≡ fails too_few_fields
unfolding decode networks addresses atoi parse_uint
decode_short = refl

decode_without_to : decode networks addresses (codes "permit out 17 from any any") ≡ fails no_to
unfolding decode networks addresses atoi parse_uint
decode_without_to = refl

web-IsEncodable : IsEncodable networks addresses web
unfolding networks addresses is_plain valid_addrs_format
web-IsEncodable = record {
  known = λ h. cc;
  leads_out = refl;
  proto_fits = omega arith;
  src_passes = refl;
  src_plain = is_plain-IsPlain web.src refl;
  src_ports_fit = tt;
  dst_passes = refl;
  dst_plain = is_plain-IsPlain web.dst refl;
  dst_ports_fit = ((omega arith, omega arith), ((omega arith, omega arith), tt));
}

decode-encode_example :
    (text : Bytes) × (encode networks addresses web ≡ returns text)
    × (decode networks addresses text
        ≡ returns (record web {
          src = canonical_address networks addresses web.src;
          dst = canonical_address networks addresses web.dst;
        }))
decode-encode_example = decode-encode networks addresses web web-IsEncodable
