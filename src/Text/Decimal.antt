-- ===== src/Text/Decimal.antt =====
-- Decimal numbers: `strconv.ParseUint` to base 10, `strconv.Atoi`, and the printing of a number. Of an
-- error only that there is one is kept.
use Prim.Native.Char.{code}
use Prim.Native.String.{String}
use free5gc_workspace.Prelude.{
  ℕ, zero, suc, ◌+◌, ◌-◌, ◌*◌, ◌/◌, ◌%◌, ◌^◌, ◌≡◌, ◌<◌, refl, ap, sym, ◌∙◌, Bool, true, false, ◌&&◌,
  List, [], ◌∷◌, Option, none, some, All, ltb, leb, ◌==◌, if◌then◌else◌, Bool-cases, ltb→lt, inl,
  inr, arith,
}
use free5gc_workspace.Prelude.Int.{ℤ, pos, negsuc}

abbrev pub Bytes : Type 0
Bytes = List ℕ

-- The bytes of a literal.
abbrev pub codes : String → Bytes
codes String.[] = []
codes (String.◌∷◌ c s) = code c ∷ codes s

abbrev pub is_digit : ℕ → Bool
is_digit c = leb b'0' c && leb c b'9'

-- The number that digits spell behind `n`.
unfoldable pub scan : Bytes → ℕ → Option ℕ
scan [] n = some n
scan (c ∷ s) n = let rest = scan s (n * 10 + (c - b'0')) in if is_digit c then rest else none

abbrev pub at_most : ℕ → Option ℕ → Option ℕ
at_most bound none = none
at_most bound (some n) = if leb n bound then some n else none

-- `strconv.ParseUint(s, 10, bits)`
unfoldable pub parse_uint : ℕ → Bytes → Option ℕ
unfolding scan
parse_uint bits [] = none
parse_uint bits (c ∷ s) = at_most (2 ^ bits - 1) (scan (c ∷ s) 0)

negated : ℕ → ℤ
negated zero = pos 0
negated (suc n) = negsuc n

signed : Bool → Option ℕ → Option ℤ
signed minus none = none
signed true (some n) = some (negated n)
signed false (some n) = some (pos n)

unsigned : ℕ → Bytes → Option ℕ
unfolding scan
unsigned bound [] = none
unsigned bound (c ∷ s) = at_most bound (scan (c ∷ s) 0)

-- `strconv.Atoi`, with an `int` of 64 bits
unfoldable pub atoi : Bytes → Option ℤ
unfolding signed unsigned negated
atoi [] = none
atoi (c ∷ s) =
    if c == b'-'
    then signed true (unsigned (2 ^ 63) s)
    else if c == b'+'
    then signed false (unsigned (2 ^ 63 - 1) s)
    else signed false (unsigned (2 ^ 63 - 1) (c ∷ s))

-- The digits of `n` before `out`, one for each unit of fuel at most.
unfoldable pub digits : ℕ → ℕ → Bytes → Bytes
digits zero n out = out
digits (suc fuel) n out = elim (ltb n 10) [
  | true ↦ (b'0' + n) ∷ out
  | false ↦ digits fuel (n / 10) ((b'0' + n % 10) ∷ out)
]

-- `fmt.Sprint` and `strconv.Itoa` of a number that is not negative
unfoldable pub format : ℕ → Bytes
unfolding digits
format n = digits (suc n) n []

digits_small :
    (fuel n : ℕ) (out : Bytes) → ltb n 10 ≡ true → digits (suc fuel) n out ≡ (b'0' + n) ∷ out
unfolding digits
digits_small fuel n out e = rw (digits, e) refl

digits_step :
    (fuel n : ℕ) (out : Bytes)
    → ltb n 10 ≡ false
    → digits (suc fuel) n out ≡ digits fuel (n / 10) ((b'0' + n % 10) ∷ out)
unfolding digits
digits_step fuel n out e = rw (digits, e) refl

scan_digit :
    (m c n : ℕ) (out : Bytes) → c < 10 → m * 10 + c ≡ n → scan ((b'0' + c) ∷ out) m ≡ scan out n
unfolding scan
scan_digit m c n out h v =
    let d : is_digit (b'0' + c) ≡ true = ground arith in
    let w : m * 10 + (b'0' + c - b'0') ≡ n = omega arith in rw (d, w) refl

scan-digits : (fuel n : ℕ) (out : Bytes) → n < fuel → scan (digits fuel n out) 0 ≡ scan out n
scan-digits zero n out h = absurd (omega arith)
scan-digits (suc fuel) n out h = elim (Bool-cases (ltb n 10)) [
  | inl e ↦
      ap (λ t. scan t 0) (digits_small fuel n out e)
      ∙ scan_digit 0 n n out (ltb→lt n 10 e) (omega arith)
  | inr e ↦
      ap (λ t. scan t 0) (digits_step fuel n out e)
      ∙ scan-digits fuel (n / 10) ((b'0' + n % 10) ∷ out) (tenth n fuel e h)
      ∙ scan_digit (n / 10) (n % 10) n out (omega arith) (omega arith)
]
  where
    tenth : (n fuel : ℕ) → ltb n 10 ≡ false → n < suc fuel → n / 10 < fuel
    tenth n fuel e h = ground arith

digits-zero : (n : ℕ) (out : Bytes) → digits zero n out ≡ out
unfolding digits
digits-zero n out = refl

digit : (n : ℕ) → n < 10 → is_digit (b'0' + n) ≡ true
digit n h = ground arith

-- What a number is printed as: a digit and further digits.
pub digits_cons :
    (fuel n : ℕ) (out : Bytes)
    → All (λ c. is_digit c ≡ true) out
    → (c : ℕ) × (s : Bytes) × (digits (suc fuel) n out ≡ c ∷ s)
      × All (λ c. is_digit c ≡ true) (c ∷ s)
digits_cons zero n out all = elim (Bool-cases (ltb n 10)) [
  | inl e ↦ (b'0' + n, out, digits_small zero n out e, (digit n (ltb→lt n 10 e), all))
  | inr e ↦ (
    b'0' + n % 10,
    out,
    digits_step zero n out e ∙ digits-zero _ _,
    (digit (n % 10) (omega arith), all),
  )
]
digits_cons (suc fuel) n out all = elim (Bool-cases (ltb n 10)) [
  | inl e ↦ (b'0' + n, out, digits_small (suc fuel) n out e, (digit n (ltb→lt n 10 e), all))
  | inr e ↦
      let (c, s, step, more) =
        digits_cons fuel (n / 10) ((b'0' + n % 10) ∷ out) (digit (n % 10) (omega arith), all) in
      (c, s, digits_step (suc fuel) n out e ∙ step, more)
]

pub format_cons :
    (n : ℕ) → (c : ℕ) × (s : Bytes) × (format n ≡ c ∷ s) × All (λ c. is_digit c ≡ true) (c ∷ s)
unfolding format
format_cons n = digits_cons n n [] tt

pub scan-format : (n : ℕ) → scan (format n) 0 ≡ some n
unfolding format scan
scan-format n = scan-digits (suc n) n [] (omega arith)

-- A number that fits is read back from its print.
pub parse_uint-format : (bits n : ℕ) → n < 2 ^ bits → parse_uint bits (format n) ≡ some n
unfolding parse_uint
parse_uint-format bits n h =
    let (c, s, e, _) = format_cons n in
    let v : scan (c ∷ s) 0 ≡ some n = ap (λ t. scan t 0) (sym e) ∙ scan-format n in
    rw e (rw v (fits n (2 ^ bits) h))
  where
    fits : (n b : ℕ) → n < b → at_most (b - 1) (some n) ≡ some n
    fits n b h = ground arith

-- `Atoi` reads a number of 63 bits back from its print.
pub atoi-format : (n : ℕ) → n < 2 ^ 63 → atoi (format n) ≡ some (pos n)
unfolding atoi
atoi-format n h =
    let (c, s, e, all) = format_cons n in
    let v : scan (c ∷ s) 0 ≡ some n = ap (λ t. scan t 0) (sym e) ∙ scan-format n in
    let no_minus : (c == b'-') ≡ false = ground arith in
    let no_plus : (c == b'+') ≡ false = ground arith in
    let low : leb n (2 ^ 63 - 1) ≡ true = ground arith in
    rw e (rw (no_minus, no_plus) (rw (v, low) refl))
