-- ===== src/Packets/Checksum.antt =====
-- The internet checksum of test/rawudp.go. The sum is a `uint32`. The second loop runs on fuel: two
-- rounds are enough for every `uint32` (`fold_sum_cases`).
use mathlib.Core.Option
use native.Mathlib.Nat.{zero-add}
use free5gc_workspace.Prelude.{
  ℕ, zero, suc, ◌+◌, ◌-◌, ◌*◌, ◌/◌, ◌%◌, ◌^◌, ◌≡◌, ◌<◌, ◌≤◌, refl, false, List, [], ◌∷◌, Option,
  none, some, All, length, ltb, ◌==◌, ==_iff, ◌∙◌, inl, inr, Bool-cases, if◌then◌else◌, arith,
}

-- The first loop and the odd byte after it.
unfoldable pub add_words : ℕ → List ℕ → ℕ
add_words sum [] = sum
add_words sum (a ∷ []) = (sum + a * 2 ^ 8) % 2 ^ 32
add_words sum (a ∷ b ∷ buf) = add_words ((sum + (a * 2 ^ 8 + b)) % 2 ^ 32) buf

unfoldable pub fold_sum : ℕ → ℕ → Option ℕ
fold_sum zero sum = if ltb 0xffff sum then none else some sum
fold_sum (suc fuel) sum =
    let rest = fold_sum fuel (sum / 2 ^ 16 + sum % 2 ^ 16) in
    if ltb 0xffff sum then rest else some sum

-- The complement, with all ones in place of zero.
unfoldable pub complement : ℕ → ℕ
complement sum = let csum : ℕ = 0xffff - sum in if csum == 0 then 0xffff else csum

unfoldable pub checksum : List ℕ → Option ℕ
unfolding add_words fold_sum complement
checksum buf = Option.map complement (fold_sum 2 (add_words 0 buf))

-- The sum of the words of a text of bytes, an odd one being filled up with zero.
abbrev pub word_sum : List ℕ → ℕ
word_sum [] = 0
word_sum (a ∷ []) = a * 256
word_sum (a ∷ b ∷ buf) = a * 256 + b + word_sum buf

add_words_lem :
    (sum : ℕ) (buf : List ℕ) → sum + word_sum buf < 2 ^ 32 → add_words sum buf ≡ sum + word_sum buf
unfolding add_words
add_words_lem sum [] h = omega arith
add_words_lem sum (a ∷ []) h = omega arith
add_words_lem sum (a ∷ b ∷ buf) h =
    let same : (sum + (a * 2 ^ 8 + b)) % 2 ^ 32 ≡ sum + (a * 256 + b) = omega arith in
    rw same (omega (arith, add_words_lem (sum + (a * 256 + b)) buf (omega arith)))

not_above : (s : ℕ) → s ≤ 65535 → ltb 65535 s ≡ false
not_above s h = ground arith

fold_sum_cases :
    (sum : ℕ)
    → sum < 2 ^ 32
    → (s : ℕ) × (fold_sum 2 sum ≡ some s) × (s ≤ 65535) × (s % 65535 ≡ sum % 65535)
unfolding fold_sum
fold_sum_cases sum h =
    let once : ℕ = sum / 65536 + sum % 65536 in
    let twice : ℕ = once / 65536 + once % 65536 in
    elim (Bool-cases (ltb 65535 sum)) [
      | inr e ↦ (sum, rw e refl, ground arith, refl)
      | inl e ↦ elim (Bool-cases (ltb 65535 once)) [
        | inr e' ↦ (once, rw (e, e') refl, ground arith, omega arith)
        | inl e' ↦ (twice, rw (e, e', not_above twice (omega arith)) refl, omega arith, omega arith)
      ]
    ]

complement_cases :
    (s sum : ℕ)
    → s ≤ 65535
    → s % 65535 ≡ sum % 65535
    → (1 ≤ complement s) × (complement s ≤ 65535) × ((sum + complement s) % 65535 ≡ 0)
unfolding complement
complement_cases s sum h e = elim (Bool-cases ((65535 - s) == 0)) [
  | inl z ↦
      let full : 65535 - s ≡ 0 = (==_iff (65535 - s) 0).0 z in
      rw z (omega arith, omega arith, omega arith)
  | inr z ↦ let part : 1 ≤ 65535 - s = positive s z in rw z (omega arith, omega arith, omega arith)
]
  where
    positive : (s : ℕ) → ((65535 - s) == 0) ≡ false → 1 ≤ 65535 - s
    positive s z = ground arith

-- The checksum of bytes whose words add up to less than 2 ^ 32 exists, is one of 1 to 65535, and
-- makes the sum of the words a multiple of 65535, which is zero in one's complement.
pub checksum_balances :
    (buf : List ℕ)
    → word_sum buf < 2 ^ 32
    → (c : ℕ) × (checksum buf ≡ some c) × (1 ≤ c) × (c ≤ 65535) × ((word_sum buf + c) % 65535 ≡ 0)
unfolding checksum
checksum_balances buf h =
    let (s, e, le, same) = fold_sum_cases (word_sum buf) h in
    let sum : add_words 0 buf ≡ word_sum buf =
      add_words_lem 0 buf (omega arith) ∙ zero-add (word_sum buf) in
    let (low, high, balance) = complement_cases s (word_sum buf) le same in
    (complement s, rw (sum, e) refl, low, high, balance)

add_words-lt : (sum : ℕ) (buf : List ℕ) → sum < 2 ^ 32 → add_words sum buf < 2 ^ 32
unfolding add_words
add_words-lt sum [] h = h
add_words-lt sum (a ∷ []) h = omega arith
add_words-lt sum (a ∷ b ∷ buf) h = add_words-lt ((sum + (a * 2 ^ 8 + b)) % 2 ^ 32) buf (omega arith)

pub checksum_total : (buf : List ℕ) → (c : ℕ) × (checksum buf ≡ some c) × (c ≤ 65535)
unfolding checksum
checksum_total buf =
    let (s, e, le, same) = fold_sum_cases (add_words 0 buf) (add_words-lt 0 buf (omega arith)) in
    let (low, high, balance) = complement_cases s (add_words 0 buf) le same in
    (complement s, rw e refl, high)

pub word_sum_bound : (buf : List ℕ) → All (λ b. b < 256) buf → word_sum buf ≤ 65535 * length buf
word_sum_bound [] h = omega arith
word_sum_bound (a ∷ []) h = let low : a < 256 = h.0 in omega arith
word_sum_bound (a ∷ b ∷ buf) h =
    let low : a < 256 = h.0 in
    let low' : b < 256 = h.1.0 in let rest = word_sum_bound buf h.1.1 in omega arith
