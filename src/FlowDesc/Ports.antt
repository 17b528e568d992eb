-- ===== src/FlowDesc/Ports.antt =====
-- Port ranges as texts: printing and reading them.
use free5gc_workspace.Prelude.{
  ℕ, ◌^◌, ◌≡◌, ◌<◌, refl, ap, ◌∙◌, Bool, true, List, [], ◌∷◌, ◌++◌, map, All, ◌||◌, ◌==◌, ==_iff,
  Bool-cases, inl, inr, arith,
}
use free5gc_workspace.Prelude.Outcome.{returns}
use free5gc_workspace.Text.Decimal.{Bytes, codes, is_digit, format, format_cons, parse_uint-format}
use free5gc_workspace.Text.Words.{
  join, split_at, split_at-join, Lacks, IsPlain, IsPlain-append, lower,
}
use free5gc_workspace.Text.Regex.Forms.{anywhere-nullable}
use free5gc_workspace.FlowDesc.{
  PortRange, port_range_string, port_ranges_string, valid_ports_format, ports_regex, parse_range,
  parse_ranges, parse_ports,
}

-- The check of the format lets every text pass.
pub valid_ports_format_always : (s : Bytes) → valid_ports_format s ≡ true
unfolding valid_ports_format
valid_ports_format_always s = anywhere-nullable ports_regex refl s

-- Both ports have 16 bits.
abbrev pub InRange : PortRange → Type 0
InRange p = (p.start < 2 ^ 16) × (p.end < 2 ^ 16)

-- A byte that port ranges are printed with.
abbrev pub is_port_byte : ℕ → Bool
is_port_byte c = is_digit c || c == b'-'

abbrev Text : (ℕ → Bool) → Bytes → Type 0
Text p = All (λ c. p c ≡ true)

Text-append : (p : ℕ → Bool) (s t : Bytes) → Text p s → Text p t → Text p (s ++ t)
Text-append p [] t a b = b
Text-append p (c ∷ s) t a b = (a.0, Text-append p s t a.1 b)

Text-All :
    {p : ℕ → Bool} {P : ℕ → Type 0}
    → ((c : ℕ) → p c ≡ true → P c)
    → (s : Bytes) → Text p s
    → All P s
Text-All f [] a = tt
Text-All f (c ∷ s) a = (f c a.0, Text-All f s a.1)

format-Text : (n : ℕ) → Text is_digit (format n)
format-Text n = let (c, s, e, all) = format_cons n in rw e all

format-Lacks : (n : ℕ) → Lacks b'-' (format n)
format-Lacks n = Text-All (λ c h. ground arith) (format n) (format-Text n)

pub format-IsPlain : (n : ℕ) → IsPlain (format n)
unfolding lower
format-IsPlain n = Text-All (λ c h. (ground arith, ground arith)) (format n) (format-Text n)

range-Text : (p : PortRange) → Text is_port_byte (port_range_string p)
unfolding port_range_string
range-Text p = elim (Bool-cases (p.start == p.end)) [
  | inl e ↦ rw e (bytes p.start)
  | inr e ↦ rw e (
      Text-append is_port_byte (format p.start) (codes "-" ++ format p.end) (bytes p.start)
        (refl, bytes p.end))
]
  where
    bytes : (n : ℕ) → Text is_port_byte (format n)
    bytes n = Text-All (λ c h. rw h refl) (format n) (format-Text n)

range-Lacks : (p : PortRange) → Lacks b',' (port_range_string p)
range-Lacks p = Text-All (λ c h. ground arith) (port_range_string p) (range-Text p)

range-IsPlain : (p : PortRange) → IsPlain (port_range_string p)
unfolding lower
range-IsPlain p =
    Text-All (λ c h. (ground arith, ground arith)) (port_range_string p) (range-Text p)

parse_range-one :
    (n : ℕ) → n < 2 ^ 16 → parse_range (format n ∷ []) ≡ returns (record { start = n; end = n })
unfolding parse_range
parse_range-one n h = rw (parse_uint-format 16 n h) refl

parse_range-two :
    (p : PortRange) → InRange p → parse_range (format p.start ∷ format p.end ∷ []) ≡ returns p
unfolding parse_range
parse_range-two p h = rw (parse_uint-format 16 p.start h.0, parse_uint-format 16 p.end h.1) refl

-- A range is read back from its print.
parse_range-port_range_string :
    (p : PortRange) → InRange p → parse_range (split_at b'-' (port_range_string p)) ≡ returns p
unfolding port_range_string join
parse_range-port_range_string p h = elim (Bool-cases (p.start == p.end)) [
  | inl e ↦ rw e (
      ap parse_range (split_at-join b'-' (format p.start) [] (format-Lacks p.start) tt)
      ∙ parse_range-one p.start h.0
      ∙ ap (λ n. returns (record { start = p.start; end = n })) ((==_iff p.start p.end).0 e))
  | inr e ↦ rw e (
      ap parse_range (
        split_at-join b'-' (format p.start) (format p.end ∷ []) (format-Lacks p.start)
          (format-Lacks p.end, tt))
      ∙ parse_range-two p h)
]

parse_ranges-map :
    (ps : List PortRange) → All InRange ps → parse_ranges (map port_range_string ps) ≡ returns ps
unfolding parse_ranges
parse_ranges-map [] h = refl
parse_ranges-map (p ∷ ps) h = rw (parse_range-port_range_string p h.0, parse_ranges-map ps h.1) refl

-- A list of port ranges of 16 bits that is not empty is read back from its print.
pub parse_ports-port_ranges_string :
    (p : PortRange) (ps : List PortRange)
    → InRange p
    → All InRange ps
    → parse_ports (port_ranges_string (p ∷ ps)) ≡ returns (p ∷ ps)
unfolding parse_ports port_ranges_string
parse_ports-port_ranges_string p ps h hs =
    rw (valid_ports_format_always (port_ranges_string (p ∷ ps))) (
      ap parse_ranges (
        split_at-join b',' (port_range_string p) (map port_range_string ps) (range-Lacks p)
          (all ps))
      ∙ parse_ranges-map (p ∷ ps) (h, hs))
  where
    all : (ps : List PortRange) → All (Lacks b',') (map port_range_string ps)
    all [] = tt
    all (p ∷ ps) = (range-Lacks p, all ps)

abbrev pub IsCons : Bytes → Type 0
IsCons t = (c : ℕ) × (s : Bytes) × (t ≡ c ∷ s)

IsCons-append : (s t : Bytes) → IsCons s → IsCons (s ++ t)
IsCons-append s t (c, s', e) = (c, s' ++ t, ap (λ l. l ++ t) e)

pub format-IsCons : (n : ℕ) → IsCons (format n)
format-IsCons n = let (c, s, e, _) = format_cons n in (c, s, e)

range-IsCons : (p : PortRange) → IsCons (port_range_string p)
unfolding port_range_string
range-IsCons p = elim (Bool-cases (p.start == p.end)) [
  | inl e ↦ rw e (format-IsCons p.start)
  | inr e ↦
      rw e (IsCons-append (format p.start) (codes "-" ++ format p.end) (format-IsCons p.start))
]

pub port_ranges_string-IsCons :
    (p : PortRange) (ps : List PortRange) → IsCons (port_ranges_string (p ∷ ps))
unfolding port_ranges_string join
port_ranges_string-IsCons p [] = range-IsCons p
port_ranges_string-IsCons p (q ∷ ps) =
    IsCons-append (port_range_string p) (codes "," ++ port_ranges_string (q ∷ ps)) (range-IsCons p)

-- Ports are printed without spaces and capitals.
pub port_ranges_string-IsPlain : (ps : List PortRange) → IsPlain (port_ranges_string ps)
unfolding port_ranges_string join lower
port_ranges_string-IsPlain [] = tt
port_ranges_string-IsPlain (p ∷ []) = range-IsPlain p
port_ranges_string-IsPlain (p ∷ q ∷ ps) =
    IsPlain-append (port_range_string p) (codes "," ++ port_ranges_string (q ∷ ps))
      (range-IsPlain p) ((refl, refl), port_ranges_string-IsPlain (q ∷ ps))
