-- ===== src/FlowDesc/Parts.antt =====
-- The words of a rule's text: the protocol's and the ports'.
use free5gc_workspace.Prelude.{
  ℕ, ◌%◌, ◌^◌, ◌≡◌, ◌≢◌, ◌<◌, refl, ap, sym, ◌∙◌, Bool, true, false, List, [], ◌∷◌, ◌++◌, All, not,
  ◌&&◌, ◌==◌, ==_iff, Bool-cases, inl, inr, arith,
}
use free5gc_workspace.Prelude.Outcome.{returns, fails}
use free5gc_workspace.Text.Decimal.{
  Bytes, parse_uint, scan, codes, format, format_cons, atoi-format,
}
use free5gc_workspace.Text.Words.{text_eq, IsPlain, is_space, lower}
use free5gc_workspace.FlowDesc.{
  PortRange, port_ranges_string, protocol_number_any, parse_proto, parse_ports, last_ports,
  next_field, source_ports, atoi_number, to_uint8, destination_ports, parse_ranges, parse_range,
  bad_ports,
}
use free5gc_workspace.FlowDesc.Codec.{proto_word, ports_words}
use free5gc_workspace.FlowDesc.Ports.{
  InRange, IsCons, format-IsPlain, format-IsCons, port_ranges_string-IsCons,
  port_ranges_string-IsPlain, valid_ports_format_always, parse_ports-port_ranges_string,
}

-- A protocol number below 2^63 in decimal is read modulo 256.
pub parse_proto-format : (n : ℕ) → n < 2 ^ 63 → parse_proto (format n) ≡ returns (n % 256)
unfolding parse_proto atoi_number to_uint8 text_eq
parse_proto-format n h =
    let (c, s, e, all) = format_cons n in
    let other : (c == b'i') ≡ false = ground arith in
    let word : text_eq (format n) (codes "ip") ≡ false = rw e (rw other refl) in
    rw word (rw (atoi-format n h) refl)

pub parse_proto-proto_word : (n : ℕ) → n < 256 → parse_proto (proto_word n) ≡ returns n
unfolding proto_word parse_proto text_eq
parse_proto-proto_word n h = elim (Bool-cases (n == protocol_number_any)) [
  | inl e ↦ rw e (ap returns (sym ((==_iff n protocol_number_any).0 e)))
  | inr e ↦ rw e (parse_proto-format n (omega arith) ∙ ap returns (omega arith))
]

-- The words that ports are printed as.
unfoldable pub part_of_ports : List PortRange → List Bytes
part_of_ports [] = []
part_of_ports (p ∷ ps) = port_ranges_string (p ∷ ps) ∷ []

pub ports_words_lem :
    (ps : List PortRange) → ports_words (port_ranges_string ps) ≡ returns (part_of_ports ps)
unfolding ports_words part_of_ports port_ranges_string
ports_words_lem [] = refl
ports_words_lem (p ∷ ps) =
    let (c, s, e) = port_ranges_string-IsCons p ps in
    rw e (rw (valid_ports_format_always (c ∷ s)) refl)

abbrev pub IsWord : Bytes → Type 0
IsWord w = IsPlain w × (w ≢ [])

pub IsCons→IsWord : (w : Bytes) → IsPlain w → IsCons w → IsWord w
IsCons→IsWord w p (c, s, e) = (p, λ h. no_cons (sym h ∙ e))
  where
    no_cons : [] ≡ c ∷ s → ⊥
    no_cons h = cc

-- The test of a word.
unfoldable pub is_plain : Bytes → Bool
unfolding lower
is_plain [] = true
is_plain (c ∷ s) = (not (is_space c) && lower c == c) && is_plain s

pub is_plain-IsPlain : (s : Bytes) → is_plain s ≡ true → IsPlain s
unfolding is_plain lower
is_plain-IsPlain [] h = tt
is_plain-IsPlain (c ∷ s) h = split (is_space c) (lower c == c) refl refl h (is_plain-IsPlain s)
  where
    split :
        (a b : Bool)
        → is_space c ≡ a
        → (lower c == c) ≡ b
        → (not a && b) && is_plain s ≡ true
        → (is_plain s ≡ true → IsPlain s)
        → ((is_space c ≡ false) × (lower c ≡ c)) × IsPlain s
    split true b p q h rest = cc
    split false false p q h rest = cc
    split false true p q h rest = ((p, (==_iff (lower c) c).0 q), rest h)

pub literal_IsWord : (c : ℕ) (s : Bytes) → is_plain (c ∷ s) ≡ true → IsWord (c ∷ s)
literal_IsWord c s h = IsCons→IsWord (c ∷ s) (is_plain-IsPlain (c ∷ s) h) (c, s, refl)

pub part_of_ports_words : (ps : List PortRange) → All IsWord (part_of_ports ps)
unfolding part_of_ports
part_of_ports_words [] = tt
part_of_ports_words (p ∷ ps) = (
  IsCons→IsWord (port_ranges_string (p ∷ ps)) (port_ranges_string-IsPlain (p ∷ ps))
      (port_ranges_string-IsCons p ps),
  tt,
)

pub last_ports-part_of_ports :
    (ps : List PortRange) → All InRange ps → last_ports (part_of_ports ps) ≡ ps
unfolding last_ports part_of_ports destination_ports
last_ports-part_of_ports [] h = refl
last_ports-part_of_ports (p ∷ ps) h = rw (parse_ports-port_ranges_string p ps h.0 h.1) refl

-- `to` is no list of ports.
parse_ports_to : parse_ports (codes "to") ≡ fails bad_ports
unfolding parse_ports parse_ranges parse_range parse_uint scan
parse_ports_to = refl

pub proto_word-IsWord : (n : ℕ) → IsWord (proto_word n)
unfolding proto_word is_plain lower
proto_word-IsWord n = elim (Bool-cases (n == protocol_number_any)) [
  | inl e ↦ rw e (literal_IsWord _ _ refl)
  | inr e ↦ rw e (IsCons→IsWord (format n) (format-IsPlain n) (format-IsCons n))
]

pub IsWord-append : (ws vs : List Bytes) → All IsWord ws → All IsWord vs → All IsWord (ws ++ vs)
IsWord-append [] vs p q = q
IsWord-append (w ∷ ws) vs p q = (p.0, IsWord-append ws vs p.1 q)

-- The ports before `to`, whether there are any or none.
pub source_ports-part_of_ports :
    (ps : List PortRange) (rest : List Bytes)
    → All InRange ps
    → (f : Bytes) × (more : List Bytes) × (next_field (part_of_ports ps ++ (codes "to" ∷ rest))
        ≡ returns (f, more))
      × (source_ports more (parse_ports f) f ≡ (ps, codes "to" ∷ rest))
unfolding part_of_ports next_field source_ports
source_ports-part_of_ports [] rest h = (codes "to", rest, refl, rw parse_ports_to refl)
source_ports-part_of_ports (p ∷ ps) rest h = (
  port_ranges_string (p ∷ ps),
  codes "to" ∷ rest,
  refl,
  rw (parse_ports-port_ranges_string p ps h.0 h.1) refl,
)
