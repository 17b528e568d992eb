-- ===== src/Prelude/Bytes.antt =====
-- encoding/binary: big-endian numbers in byte slices. Reading past the end of a slice panics.
use Prim.Native.Nat.{ℕ, zero, suc, ◌+◌, ◌≤◌, ◌*◌, ◌/◌, ◌%◌, ◌^◌, ◌<◌}
use mathlib.Core.Path.{◌≡◌, refl, sym, ap, ◌∙◌}
use mathlib.Core.List.{List, [], ◌∷◌, ◌++◌}
use native.Mathlib.Nat.{zero-add, suc-add}
use native.Mathlib.Omega.{arith}
use free5gc_workspace.Prelude.Lists.{length}
use free5gc_workspace.Prelude.Outcome.{
  Outcome, returns, panics, ◌>>=◌, >>=-eq-returns, returns-injective, Gives,
}

-- `binary.BigEndian.Uint32`
unfoldable pub be_uint32 : {E : Type 0} → List ℕ → Outcome E ℕ
be_uint32 (a ∷ b ∷ c ∷ d ∷ rest) = returns (a * 2 ^ 24 + b * 2 ^ 16 + c * 2 ^ 8 + d)
be_uint32 _ = panics

-- `binary.BigEndian.PutUint32` into four fresh bytes
unfoldable pub put_uint32 : ℕ → List ℕ
put_uint32 v = v / 2 ^ 24 % 256 ∷ (v / 2 ^ 16 % 256 ∷ (v / 2 ^ 8 % 256 ∷ (v % 256 ∷ [])))

-- `binary.BigEndian.PutUint16` into two fresh bytes
unfoldable pub put_uint16 : ℕ → List ℕ
put_uint16 v = v / 2 ^ 8 % 256 ∷ (v % 256 ∷ [])

-- `binary.BigEndian.Uint16`
unfoldable pub be_uint16 : {E : Type 0} → List ℕ → Outcome E ℕ
be_uint16 (a ∷ b ∷ rest) = returns (a * 2 ^ 8 + b)
be_uint16 _ = panics

pub be_uint16-put_uint16 :
    {E : Type 0} (v : ℕ) (rest : List ℕ)
    → v < 2 ^ 16
    → be_uint16 {E = E} (put_uint16 v ++ rest) ≡ returns v
unfolding be_uint16 put_uint16
be_uint16-put_uint16 v rest h = ground arith

pub be_uint32-put_uint32 :
    {E : Type 0} (v : ℕ) → v < 2 ^ 32 → be_uint32 {E = E} (put_uint32 v) ≡ returns v
unfolding be_uint32 put_uint32
be_uint32-put_uint32 v h = ground arith

pub length-put_uint32 : (v : ℕ) → length (put_uint32 v) ≡ 4
unfolding put_uint32
length-put_uint32 v = refl

-- `b[i]`
unfoldable pub index : {E : Type 0} → List ℕ → ℕ → Outcome E ℕ
index [] i = panics
index (b ∷ l) zero = returns b
index (b ∷ l) (suc i) = index l i

-- `b[i : i + n]` into fresh bytes
unfoldable pub slice : {E : Type 0} → List ℕ → ℕ → ℕ → Outcome E (List ℕ)
unfolding index
slice l i zero = returns []
slice l i (suc n) = index l i >>= λ b. slice l (i + 1) n >>= λ rest. returns (b ∷ rest)

pub index_inside :
    {E : Type 0} (l : List ℕ) (i : ℕ) → i < length l → (b : ℕ) × (index {E = E} l i ≡ returns b)
unfolding index
index_inside [] i h = absurd (omega arith)
index_inside (b ∷ l) zero h = (b, refl)
index_inside (b ∷ l) (suc i) h = index_inside l i (omega arith)

pub slice_inside :
    {E : Type 0} (l : List ℕ) (i n : ℕ)
    → i + n ≤ length l
    → (s : List ℕ) × (slice {E = E} l i n ≡ returns s)
unfolding slice
slice_inside {E} l i zero h = ([], refl)
slice_inside {E} l i (suc n) h =
    let (b, e) = index_inside {E = E} l i (omega arith) in
    let (s, e') = slice_inside {E = E} l (i + 1) n (omega arith) in (b ∷ s, rw (e, e') refl)

-- Past a first part of the bytes.
pub index-append :
    {E : Type 0} (pre l : List ℕ) (i : ℕ) → index {E = E} (pre ++ l) (length pre + i) ≡ index l i
unfolding index
index-append [] l i = rw zero-add
index-append (p ∷ pre) l i = rw suc-add (index-append pre l i)

slice-cons :
    {E : Type 0} (b : ℕ) (l : List ℕ) (i n : ℕ) → slice {E = E} (b ∷ l) (suc i) n ≡ slice l i n
unfolding slice
slice-cons b l i zero = refl
slice-cons {E} b l i (suc n) = rw (suc-add, slice-cons {E = E} b l (i + 1) n) refl

slice_front : {E : Type 0} (s rest : List ℕ) → slice {E = E} (s ++ rest) 0 (length s) ≡ returns s
unfolding slice
slice_front [] rest = refl
slice_front {E} (b ∷ s) rest =
    rw (slice-cons {E = E} b (s ++ rest) 0 (length s), slice_front {E = E} s rest) refl

pub slice-append :
    {E : Type 0} (pre s rest : List ℕ)
    → slice {E = E} (pre ++ (s ++ rest)) (length pre) (length s) ≡ returns s
slice-append [] s rest = slice_front s rest
slice-append {E} (p ∷ pre) s rest =
    slice-cons {E = E} p (pre ++ (s ++ rest)) (length pre) (length s)
    ∙ slice-append {E = E} pre s rest

pub length-slice :
    {E : Type 0} (l : List ℕ) (i n : ℕ) {s : List ℕ}
    → slice {E = E} l i n ≡ returns s
    → length s ≡ n
unfolding slice
length-slice l i zero h = ap length (sym (returns-injective h))
length-slice {E} l i (suc n) {s} h =
    let (b, e, h1) = >>=-eq-returns (index {E = E} l i) _ h in
    let (rest, e', h2) = >>=-eq-returns (slice {E = E} l (i + 1) n) _ h1 in
    ap length (sym (returns-injective h2)) ∙ ap suc (length-slice l (i + 1) n e')

pub slice-Gives :
    {E : Type 0} (l : List ℕ) (i n : ℕ)
    → i + n ≤ length l
    → Gives (slice {E = E} l i n) (λ s. length s ≡ n)
slice-Gives l i n h = let (s, e) = slice_inside l i n h in (s, e, length-slice l i n e)

-- A whole slice.
pub slice_whole : {E : Type 0} (s : List ℕ) (n : ℕ) → length s ≡ n → slice {E = E} s 0 n ≡ returns s
unfolding slice
slice_whole {E} s n e = ap (slice {E = E} s 0) (sym e) ∙ whole s
  where
    whole : (s : List ℕ) → slice {E = E} s 0 (length s) ≡ returns s
    whole [] = refl
    whole (b ∷ s) = rw (slice-cons {E = E} b s 0 (length s), whole s) refl
