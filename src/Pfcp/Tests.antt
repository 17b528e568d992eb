-- ===== src/Pfcp/Tests.antt =====
-- lib/util/pfcp on concrete payloads.
use free5gc_workspace.Prelude.{◌≡◌, refl, [], ◌∷◌, none, some}
use free5gc_workspace.Prelude.Outcome.{returns, fails}
use free5gc_workspace.Prelude.Bytes.{index, slice}
use free5gc_workspace.Pfcp.OuterHeader.{teid_part, insufficient_bytes, parse_outer_header_creation}
use free5gc_workspace.Pfcp.OuterHeader.Total.{Whole, needed, parse-Whole}

-- GTP-U/UDP/IPv4: a TEID and an address.
gtpu_ipv4 :
    parse_outer_header_creation (1 ∷ (0 ∷ (0 ∷ (0 ∷ (1 ∷ (2 ∷ (10 ∷ (0 ∷ (0 ∷ (1 ∷ []))))))))))
    ≡ returns (record {
      outer_header_creation_description = 256;
      teid = 258;
      ipv4_address = some (10 ∷ (0 ∷ (0 ∷ (1 ∷ []))));
      ipv6_address = none;
      port_number = 0;
      c_tag = 0;
      s_tag = 0;
    })
unfolding parse_outer_header_creation index slice
gtpu_ipv4 = refl

no_teid : parse_outer_header_creation (1 ∷ (0 ∷ (7 ∷ []))) ≡ fails (insufficient_bytes teid_part 2)
unfolding parse_outer_header_creation index slice
no_teid = refl

parse-Whole_example : Whole 3 (needed 1) (parse_outer_header_creation (1 ∷ (0 ∷ (7 ∷ []))))
parse-Whole_example = parse-Whole 1 0 (7 ∷ [])
