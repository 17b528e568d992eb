-- ===== src/Prelude/Bits.antt =====
-- `&`, `|` and `^` at variables: the equation of the lowest digit, and what follows from it about
-- masks and about the exclusive or.
use Prim.Native.Nat.{
  ℕ, zero, suc, ◌+◌, ◌-◌, ◌*◌, ◌/◌, ◌%◌, ◌^◌, ◌≤◌, ◌<◌, min, max, differ, digits, bitwise, bit_and,
  bit_or, bit_xor, bit_and-bitwise, bit_or-bitwise, bit_xor-bitwise,
}
use mathlib.Core.Path.{◌≡◌, refl, sym, ap, ◌∙◌}
use native.Mathlib.Nat.{pow-suc}
use native.Mathlib.Omega.{arith}

module _ (z : ℕ → ℕ) (f : ℕ → ℕ → ℕ) where
  digits_of_zero : (k b : ℕ) → digits z f k zero b ≡ z b
  digits_of_zero zero b = refl
  digits_of_zero (suc k) b = refl

  -- Any two bounds on the number of digits give the same value.
  enough_digits : (k l a b : ℕ) → a ≤ k → a ≤ l → digits z f k a b ≡ digits z f l a b
  enough_digits k l zero b p q = digits_of_zero k b ∙ sym (digits_of_zero l b)
  enough_digits zero l (suc a) b p q = absurd (omega arith)
  enough_digits (suc k) zero (suc a) b p q = absurd (omega arith)
  enough_digits (suc k) (suc l) (suc a) b p q =
      ap (λ (t : ℕ). t * 2 + f (suc a % 2) (b % 2))
        (enough_digits k l (suc a / 2) (b / 2) (omega arith) (omega arith))

  lowest_digit :
      (a b : ℕ)
      → bitwise z f (suc a) b ≡ bitwise z f (suc a / 2) (b / 2) * 2 + f (suc a % 2) (b % 2)
  lowest_digit a b =
      ap (λ (t : ℕ). t * 2 + f (suc a % 2) (b % 2))
        (enough_digits a (suc a / 2) (suc a / 2) (b / 2) (omega arith) (omega arith))

and_step : (a b : ℕ) → bit_and a b ≡ bit_and (a / 2) (b / 2) * 2 + min (a % 2) (b % 2)
and_step zero b = rw (bit_and-bitwise 0 b, bit_and-bitwise (0 / 2) (b / 2)) (omega arith)
and_step (suc a) b =
    rw (bit_and-bitwise (suc a) b, bit_and-bitwise (suc a / 2) (b / 2))
      (lowest_digit (λ b. zero) min a b)

or_step : (a b : ℕ) → bit_or a b ≡ bit_or (a / 2) (b / 2) * 2 + max (a % 2) (b % 2)
or_step zero b = rw (bit_or-bitwise 0 b, bit_or-bitwise (0 / 2) (b / 2)) (omega arith)
or_step (suc a) b =
    rw (bit_or-bitwise (suc a) b, bit_or-bitwise (suc a / 2) (b / 2))
      (lowest_digit (λ b. b) max a b)

differ_zero : (x : ℕ) → differ x 0 ≡ x
differ_zero zero = refl
differ_zero (suc x) = refl

xor_step : (a b : ℕ) → bit_xor a b ≡ bit_xor (a / 2) (b / 2) * 2 + differ (a % 2) (b % 2)
xor_step zero b = rw (bit_xor-bitwise 0 b, bit_xor-bitwise (0 / 2) (b / 2)) (omega arith)
xor_step (suc a) b =
    rw (bit_xor-bitwise (suc a) b, bit_xor-bitwise (suc a / 2) (b / 2))
      (lowest_digit (λ b. b) differ a b)

differ_digits : (x y : ℕ) → x < 2 → y < 2 → (differ x y < 2) × (differ (differ x y) y ≡ x)
differ_digits zero zero p q = (omega arith, refl)
differ_digits zero (suc zero) p q = (omega arith, refl)
differ_digits zero (suc (suc y)) p q = absurd (omega arith)
differ_digits (suc zero) zero p q = (omega arith, refl)
differ_digits (suc zero) (suc zero) p q = (omega arith, refl)
differ_digits (suc zero) (suc (suc y)) p q = absurd (omega arith)
differ_digits (suc (suc x)) y p q = absurd (omega arith)

xor_cancel_upto : (k a b : ℕ) → a ≤ k → b ≤ k → bit_xor (bit_xor a b) b ≡ a
xor_cancel_upto zero zero zero p q = refl
xor_cancel_upto zero zero (suc b) p q = absurd (omega arith)
xor_cancel_upto zero (suc a) b p q = absurd (omega arith)
xor_cancel_upto (suc k) a b p q = ground (
  arith,
  xor_step a b,
  xor_step (bit_xor a b) b,
  differ_digits (a % 2) (b % 2),
  xor_cancel_upto k (a / 2) (b / 2) (omega arith) (omega arith),
)

-- The exclusive or with a number undoes itself.
pub xor_cancel : (a b : ℕ) → bit_xor (bit_xor a b) b ≡ a
xor_cancel a b = xor_cancel_upto (max a b) a b (omega arith) (omega arith)

differ_comm : (x y : ℕ) → x < 2 → y < 2 → differ x y ≡ differ y x
differ_comm zero zero p q = refl
differ_comm zero (suc zero) p q = refl
differ_comm zero (suc (suc y)) p q = absurd (omega arith)
differ_comm (suc zero) zero p q = refl
differ_comm (suc zero) (suc zero) p q = refl
differ_comm (suc zero) (suc (suc y)) p q = absurd (omega arith)
differ_comm (suc (suc x)) y p q = absurd (omega arith)

xor_comm_upto : (k a b : ℕ) → a ≤ k → b ≤ k → bit_xor a b ≡ bit_xor b a
xor_comm_upto zero zero zero p q = refl
xor_comm_upto zero zero (suc b) p q = absurd (omega arith)
xor_comm_upto zero (suc a) b p q = absurd (omega arith)
xor_comm_upto (suc k) a b p q = omega (
  arith,
  xor_step a b,
  xor_step b a,
  differ_comm (a % 2) (b % 2) (omega arith) (omega arith),
  xor_comm_upto k (a / 2) (b / 2) (omega arith) (omega arith),
)

pub xor_comm : (a b : ℕ) → bit_xor a b ≡ bit_xor b a
xor_comm a b = xor_comm_upto (max a b) a b (omega arith) (omega arith)

xor-lt_upto : (k a b : ℕ) → a < 2 ^ k → b < 2 ^ k → bit_xor a b < 2 ^ k
xor-lt_upto zero zero zero p q = omega arith
xor-lt_upto zero zero (suc b) p q = absurd (omega arith)
xor-lt_upto zero (suc a) b p q = absurd (omega arith)
xor-lt_upto (suc k) a b p q = omega (
  arith,
  xor_step a b,
  pow-suc 2 k,
  differ_digits (a % 2) (b % 2) (omega arith) (omega arith),
  xor-lt_upto k (a / 2) (b / 2) (omega (arith, pow-suc 2 k)) (omega (arith, pow-suc 2 k)),
)

-- The exclusive or of two bytes is a byte.
pub xor-lt : (a b : ℕ) → a < 256 → b < 256 → bit_xor a b < 256
xor-lt a b p q = xor-lt_upto 8 a b p q

and_zero : (k a : ℕ) → a ≤ k → bit_and a 0 ≡ 0
and_zero zero zero p = refl
and_zero zero (suc a) p = absurd (omega arith)
and_zero (suc k) a p = ground (arith, and_step a 0, and_zero k (a / 2) (omega arith))

or_zero : (k a : ℕ) → a ≤ k → bit_or a 0 ≡ a
or_zero zero zero p = refl
or_zero zero (suc a) p = absurd (omega arith)
or_zero (suc k) a p = ground (arith, or_step a 0, or_zero k (a / 2) (omega arith))

-- A mask of k ones.
and_ones : (k a : ℕ) → a < 2 ^ k → bit_and a (2 ^ k - 1) ≡ a
and_ones zero a p = ground (arith, and_zero a a)
and_ones (suc k) a p = ground (arith, and_step a (2 ^ suc k - 1), pow-suc 2 k, and_ones k (a / 2))

times_next_power : (q h : ℕ) → q * 2 ^ suc h ≡ 2 * (q * 2 ^ h)
times_next_power q h = omega (arith, ap (λ (t : ℕ). q * t) (pow-suc 2 h))

-- A mask of k ones above h zeros clears the h lowest digits.
pub and_high_mask :
    (h k q r : ℕ)
    → q < 2 ^ k
    → r < 2 ^ h
    → bit_and (q * 2 ^ h + r) ((2 ^ k - 1) * 2 ^ h) ≡ q * 2 ^ h
and_high_mask zero k q r p s = ground (arith, and_ones k q)
and_high_mask (suc h) k q r p s = ground (
  arith,
  times_next_power q h,
  times_next_power (2 ^ k - 1) h,
  pow-suc 2 h,
  and_step (q * 2 ^ suc h + r) ((2 ^ k - 1) * 2 ^ suc h),
  and_high_mask h k q (r / 2),
)

-- h ones set the h lowest digits.
pub or_low_ones :
    (h q r : ℕ) → r < 2 ^ h → bit_or (q * 2 ^ h + r) (2 ^ h - 1) ≡ q * 2 ^ h + (2 ^ h - 1)
or_low_ones zero q r s = ground (arith, or_zero q q)
or_low_ones (suc h) q r s = ground (
  arith,
  times_next_power q h,
  pow-suc 2 h,
  or_step (q * 2 ^ suc h + r) (2 ^ suc h - 1),
  or_low_ones h q (r / 2),
)
