-- ===== src/Pfcp/OuterHeader/Total.antt =====
-- The parser never reads beyond the payload: it succeeds just when all the fields of the flags fit.
use native.Mathlib.Nat.{add-zero}
use free5gc_workspace.Prelude.{
  ℕ, suc, ◌+◌, ◌≤◌, ◌<◌, ◌≡◌, ◌⊎◌, refl, Bool, true, false, List, ◌∷◌, some, arith, leb, length,
  if◌then◌else◌, Bool-cases, inl, inr, ◌*◌, ◌^◌,
}
use free5gc_workspace.Prelude.Outcome.{Outcome, returns, fails, ◌>>=◌}
use free5gc_workspace.Prelude.Bytes.{index, slice, index_inside, slice_inside}
use free5gc_workspace.Pfcp.OuterHeader.{
  OuterHeaderCreationFields, Part, ParseError, insufficient_bytes, teid_part, ipv4_part, ipv6_part,
  port_part, c_tag_part, s_tag_part, too_short, teid_flag, ipv4_flag, ipv6_flag, port_flag,
  c_tag_flag, s_tag_flag, Read, read_teid, read_ipv4, read_ipv6, read_port, read_c_tag, read_s_tag,
  field, word16, word24, word32, parse_teid, parse_ipv4, parse_ipv6, parse_port, parse_c_tag,
  parse_s_tag, blank, parse_steps, parse_outer_header_creation,
}

abbrev pub width : Bool → ℕ → ℕ
width present n = if present then n else 0

-- The bytes that the flags ask for.
abbrev pub needed : ℕ → ℕ
needed o =
    2
    + width (teid_flag o) 4
    + width (ipv4_flag o) 4
    + width (ipv6_flag o) 16
    + width (port_flag o) 2
    + width (c_tag_flag o) 3
    + width (s_tag_flag o) 3

abbrev pub Fields : Type 0
Fields = OuterHeaderCreationFields

-- What a step does at an offset inside the payload, if it takes n bytes: it moves to an offset `next`
-- when they are there, and is an error when they are not.
abbrev Ends : ℕ → ℕ → ℕ → ℕ → Outcome ParseError (Fields × ℕ) → Type 0
Ends l offset n next r =
    ((offset + n ≤ l) × ((f' : Fields) × (r ≡ returns (f', next))))
    ⊎ ((l < offset + n) × ((e : ParseError) × (r ≡ fails e)))

byte_at : (p : List ℕ) (i : ℕ) → i < length p → (v : ℕ) × (index {E = ParseError} p i ≡ returns v)
byte_at p i h = index_inside p i h

word16_inside : (p : List ℕ) (i : ℕ) → i + 2 ≤ length p → (v : ℕ) × (word16 p i ≡ returns v)
word16_inside p i h =
    let (a, ea) = byte_at p i (omega arith) in
    let (b, eb) = byte_at p (i + 1) (omega arith) in (a * 2 ^ 8 + b, rw (ea, eb) refl)

word24_inside : (p : List ℕ) (i : ℕ) → i + 3 ≤ length p → (v : ℕ) × (word24 p i ≡ returns v)
word24_inside p i h =
    let (a, ea) = byte_at p i (omega arith) in
    let (b, eb) = byte_at p (i + 1) (omega arith) in
    let (c, ec) = byte_at p (i + 2) (omega arith) in
    (a * 2 ^ 16 + b * 2 ^ 8 + c, rw (ea, eb, ec) refl)

word32_inside : (p : List ℕ) (i : ℕ) → i + 4 ≤ length p → (v : ℕ) × (word32 p i ≡ returns v)
word32_inside p i h =
    let (a, ea) = byte_at p i (omega arith) in
    let (b, eb) = byte_at p (i + 1) (omega arith) in
    let (c, ec) = byte_at p (i + 2) (omega arith) in
    let (d, ed) = byte_at p (i + 3) (omega arith) in
    (a * 2 ^ 24 + b * 2 ^ 16 + c * 2 ^ 8 + d, rw (ea, eb, ec, ed) refl)

bytes_inside :
    (p : List ℕ) (i n : ℕ)
    → i + n ≤ length p
    → (s : List ℕ) × (slice {E = ParseError} p i n ≡ returns s)
bytes_inside p i n h = slice_inside p i n h

field-Ends :
    (present : Bool) (n step : ℕ) (part : Part) (read : ℕ → Read) (p : List ℕ) (f : Fields)
    (offset : ℕ)
    → offset ≤ length p
    → (offset + n ≤ length p → (f' : Fields) × (read offset ≡ returns (f', offset + step)))
    → Ends
        (length p)
        offset
        (width present n)
        (offset + width present step)
        (field present n part read p (f, offset))
field-Ends false n step part read p f offset h can = inl (omega arith, (f, rw add-zero refl))
field-Ends true n step part read p f offset h can =
    elim (Bool-cases (leb (offset + n) (length p))) [
      | inl e ↦ let (f', r) = can (ground arith) in inl (ground arith, (f', rw (e, r) refl))
      | inr e ↦ inr (ground arith, (insufficient_bytes part offset, rw e refl))
    ]

parse_teid-Ends :
    (o : ℕ) (p : List ℕ) (f : Fields) (i : ℕ)
    → i ≤ length p
    → Ends (length p) i (width (teid_flag o) 4) (i + width (teid_flag o) 4) (parse_teid o p (f, i))
unfolding parse_teid
parse_teid-Ends o p f i h =
    field-Ends (teid_flag o) 4 4 teid_part (read_teid p f) p f i h
      λ g. let (v, e) = word32_inside p i g in (record f { teid = v }, rw e refl)

parse_ipv4-Ends :
    (o : ℕ) (p : List ℕ) (f : Fields) (i : ℕ)
    → i ≤ length p
    → Ends (length p) i (width (ipv4_flag o) 4) (i + width (ipv4_flag o) 4) (parse_ipv4 o p (f, i))
unfolding parse_ipv4
parse_ipv4-Ends o p f i h =
    field-Ends (ipv4_flag o) 4 4 ipv4_part (read_ipv4 p f) p f i h
      λ g. let (v, e) = bytes_inside p i 4 g in (record f { ipv4_address = some v }, rw e refl)

parse_ipv6-Ends :
    (o : ℕ) (p : List ℕ) (f : Fields) (i : ℕ)
    → i ≤ length p
    → Ends
        (length p)
        i
        (width (ipv6_flag o) 16)
        (i + width (ipv6_flag o) 16)
        (parse_ipv6 o p (f, i))
unfolding parse_ipv6
parse_ipv6-Ends o p f i h =
    field-Ends (ipv6_flag o) 16 16 ipv6_part (read_ipv6 p f) p f i h
      λ g. let (v, e) = bytes_inside p i 16 g in (record f { ipv6_address = some v }, rw e refl)

parse_port-Ends :
    (o : ℕ) (p : List ℕ) (f : Fields) (i : ℕ)
    → i ≤ length p
    → Ends (length p) i (width (port_flag o) 2) (i + width (port_flag o) 2) (parse_port o p (f, i))
unfolding parse_port
parse_port-Ends o p f i h =
    field-Ends (port_flag o) 2 2 port_part (read_port p f) p f i h
      λ g. let (v, e) = word16_inside p i g in (record f { port_number = v }, rw e refl)

parse_c_tag-Ends :
    (o : ℕ) (p : List ℕ) (f : Fields) (i : ℕ)
    → i ≤ length p
    → Ends
        (length p)
        i
        (width (c_tag_flag o) 3)
        (i + width (c_tag_flag o) 3)
        (parse_c_tag o p (f, i))
unfolding parse_c_tag
parse_c_tag-Ends o p f i h =
    field-Ends (c_tag_flag o) 3 3 c_tag_part (read_c_tag p f) p f i h
      λ g. let (v, e) = word24_inside p i g in (record f { c_tag = v }, rw e refl)

parse_s_tag-Ends :
    (o : ℕ) (p : List ℕ) (f : Fields) (i : ℕ)
    → i ≤ length p
    → Ends
        (length p)
        i
        (width (s_tag_flag o) 3)
        (i + width (s_tag_flag o) 0)
        (parse_s_tag o p (f, i))
unfolding parse_s_tag
parse_s_tag-Ends o p f i h =
    field-Ends (s_tag_flag o) 3 0 s_tag_part (read_s_tag p f) p f i h
      λ g. let (v, e) = word24_inside p i g in (record f { s_tag = v }, rw (e, add-zero) refl)

-- A parser of a payload of l bytes succeeds if it has the bytes that it needs, and fails if not.
abbrev pub Whole : ℕ → ℕ → Outcome ParseError Fields → Type 0
Whole l need r =
    ((need ≤ l) × ((f : Fields) × (r ≡ returns f)))
    ⊎ ((l < need) × ((e : ParseError) × (r ≡ fails e)))

chain-Whole :
    (l i n need : ℕ) (r : Read) (k : Fields × ℕ → Outcome ParseError Fields)
    → i + n ≤ need
    → Ends l i n (i + n) r
    → ((f : Fields) → i + n ≤ l → Whole l need (k (f, i + n)))
    → Whole l need (r >>= k)
chain-Whole l i n need r k g (inl (h, (f, e))) rest = rw e (rest f h)
chain-Whole l i n need r k g (inr (h, (x, e))) rest = inr (omega arith, (x, rw e refl))

last-Whole :
    (l i n next : ℕ) (r : Read) → Ends l i n next r → Whole l (i + n) (r >>= λ s. returns s.0)
last-Whole l i n next r (inl (h, (f, e))) = inl (h, (f, rw e refl))
last-Whole l i n next r (inr (h, (x, e))) = inr (h, (x, rw e refl))

steps-Whole :
    (o : ℕ) (p : List ℕ) (f : Fields)
    → 2 ≤ length p
    → Whole (length p) (needed o) (parse_steps o p f)
unfolding parse_steps
steps-Whole o p f h =
    let l = length p in
    let w1 = width (teid_flag o) 4 in
    let w2 = width (ipv4_flag o) 4 in
    let w3 = width (ipv6_flag o) 16 in
    let w4 = width (port_flag o) 2 in
    let w5 = width (c_tag_flag o) 3 in
    let w6 = width (s_tag_flag o) 3 in
    let n = needed o in
    chain-Whole l 2 w1 n (parse_teid o p (f, 2)) _ (omega arith) (parse_teid-Ends o p f 2 h)
      λ f1 h1.
        chain-Whole l (2 + w1) w2 n (parse_ipv4 o p (f1, 2 + w1)) _ (omega arith)
          (parse_ipv4-Ends o p f1 (2 + w1) h1)
          λ f2 h2.
            chain-Whole l (2 + w1 + w2) w3 n (parse_ipv6 o p (f2, 2 + w1 + w2)) _ (omega arith)
              (parse_ipv6-Ends o p f2 (2 + w1 + w2) h2)
              λ f3 h3.
                chain-Whole l (2 + w1 + w2 + w3) w4 n (parse_port o p (f3, 2 + w1 + w2 + w3)) _
                  (omega arith) (parse_port-Ends o p f3 (2 + w1 + w2 + w3) h3)
                  λ f4 h4.
                    chain-Whole l (2 + w1 + w2 + w3 + w4) w5 n
                      (parse_c_tag o p (f4, 2 + w1 + w2 + w3 + w4)) _ (omega arith)
                      (parse_c_tag-Ends o p f4 (2 + w1 + w2 + w3 + w4) h4)
                      λ f5 h5.
                        last-Whole l (2 + w1 + w2 + w3 + w4 + w5) w6 _
                          (parse_s_tag o p (f5, 2 + w1 + w2 + w3 + w4 + w5))
                          (parse_s_tag-Ends o p f5 (2 + w1 + w2 + w3 + w4 + w5) h5)

two_bytes : (n : ℕ) → leb 2 (suc (suc n)) ≡ true
two_bytes n = ground arith

-- A payload of two bytes or more is parsed if it has all the bytes that the flags of its first byte
-- ask for, and is an error if it has fewer; no index is out of range.
pub parse-Whole :
    (o b : ℕ) (rest : List ℕ)
    → Whole (length (o ∷ b ∷ rest)) (needed o) (parse_outer_header_creation (o ∷ b ∷ rest))
unfolding parse_outer_header_creation index
parse-Whole o b rest =
    rw (two_bytes (length rest))
      (steps-Whole o (o ∷ b ∷ rest) (blank (o * 2 ^ 8 + b)) (omega arith))

-- A shorter payload is an error.
pub parse_too_short : (p : List ℕ) → length p < 2 → parse_outer_header_creation p ≡ fails too_short
unfolding parse_outer_header_creation
parse_too_short p h = ground arith
