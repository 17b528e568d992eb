-- ===== src/FlowDesc/Address.antt =====
-- Addresses: what is printed for one, and what is read of that.
use free5gc_workspace.Prelude.{
  ◌≡◌, refl, Bool, true, false, [], ◌∷◌, Option, none, some, ◌||◌, ◌==◌, if◌then◌else◌,
}
use free5gc_workspace.Prelude.Outcome.{returns, fails}
use free5gc_workspace.Text.Decimal.{Bytes, codes}
use free5gc_workspace.Text.Words.{text_eq}
use free5gc_workspace.FlowDesc.{
  valid_addrs_format, parse_flow_desc_addrs, is_some, canonical, bad_address,
}
use free5gc_workspace.FlowDesc.Codec.{address_word}

module _ (parse_cidr parse_ip : Bytes → Option Bytes) where
  -- No address, or one that the check of the format lets pass.
  abbrev pub IsAddress : Bytes → Type 0
  IsAddress [] = Unit {0}
  IsAddress (c ∷ s) = valid_addrs_format parse_cidr parse_ip (c ∷ s) ≡ true

  abbrev pub printed : Bytes → Bytes
  printed [] = codes "any"
  printed (c ∷ s) = c ∷ s

  abbrev first_of : Option Bytes → Option Bytes → Bytes → Bytes
  first_of (some net) ip t = net
  first_of none (some ip) t = ip
  first_of none none t = t

  -- The text that is kept for an address: the network's, else the single address', and `any` for none.
  abbrev pub canonical_address : Bytes → Bytes
  canonical_address [] = codes "any"
  canonical_address (c ∷ s) =
      if text_eq (c ∷ s) (codes "any") || text_eq (c ∷ s) (codes "assigned")
      then c ∷ s
      else first_of (parse_cidr (c ∷ s)) (parse_ip (c ∷ s)) (c ∷ s)

  pub address_word_lem :
      (a : Bytes) → IsAddress a → address_word parse_cidr parse_ip a ≡ returns (printed a)
  unfolding address_word
  address_word_lem [] h = refl
  address_word_lem (c ∷ s) h = rw h refl

  canonical_lem :
      (net ip : Option Bytes) (t : Bytes)
      → is_some parse_cidr parse_ip net || is_some parse_cidr parse_ip ip ≡ true
      → canonical parse_cidr parse_ip net ip ≡ returns (first_of net ip t)
  unfolding is_some canonical
  canonical_lem (some net) ip t h = refl
  canonical_lem none (some ip) t h = refl
  canonical_lem none none t h = cc

  pub parse_flow_desc_addrs-printed :
      (a : Bytes)
      → IsAddress a
      → parse_flow_desc_addrs parse_cidr parse_ip (printed a) ≡ returns (canonical_address a)
  unfolding parse_flow_desc_addrs valid_addrs_format
  parse_flow_desc_addrs-printed [] h = refl
  parse_flow_desc_addrs-printed (c ∷ s) h =
      read (c == b'!') (text_eq (c ∷ s) (codes "any") || text_eq (c ∷ s) (codes "assigned")) h
    where
      net : Option Bytes
      net = parse_cidr (c ∷ s)

      ip : Option Bytes
      ip = parse_ip (c ∷ s)

      read :
          (bang special : Bool)
          → (if bang
              then false
              else if special
              then true
              else is_some parse_cidr parse_ip net || is_some parse_cidr parse_ip ip)
            ≡ true
          → (if special
              then returns (c ∷ s)
              else if bang
              then fails bad_address
              else canonical parse_cidr parse_ip net ip)
            ≡ returns (if special then c ∷ s else first_of net ip (c ∷ s))
      read true special h = cc
      read false true h = refl
      read false false h = canonical_lem net ip (c ∷ s) h
