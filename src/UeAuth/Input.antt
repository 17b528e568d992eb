-- ===== src/UeAuth/Input.antt =====
-- What the derived key depends on: the message that is hashed.
use free5gc_workspace.Prelude.{
  ℕ, zero, suc, ◌/◌, ◌%◌, ◌^◌, ◌≡◌, ◌⊎◌, inl, inr, ◌≤◌, ◌<◌, refl, ap, sym, ◌∙◌, List, [], ◌∷◌,
  ◌++◌, some, length, length-append, All, arith,
}
use free5gc_workspace.Prelude.Outcome.{returns}
use free5gc_workspace.Prelude.Bytes.{put_uint16}
use free5gc_workspace.Text.Decimal.{Bytes}
use free5gc_workspace.Text.Hex.{decode_hex}
use free5gc_workspace.UeAuth.{kdf_len, append_params, get_kdf_value}

-- The parameters each followed by its length, as the callers of GetKDFValue pass them.
abbrev pub with_lengths : List Bytes → List Bytes
with_lengths [] = []
with_lengths (p ∷ ps) = p ∷ kdf_len p ∷ with_lengths ps

-- Texts of the same length that begin two equal texts.
append-same_length :
    (a b : Bytes) {x y : Bytes} → length a ≡ length b → a ++ x ≡ b ++ y → (a ≡ b) × (x ≡ y)
append-same_length [] [] l e = (refl, e)
append-same_length [] (c ∷ b) l e = absurd (omega arith)
append-same_length (c ∷ a) [] l e = absurd (omega arith)
append-same_length (c ∷ a) (d ∷ b) {x} {y} l e =
    let head : c ≡ d = cc in
    let tails : a ++ x ≡ b ++ y = cc in
    let (front, rest) = append-same_length a b (omega arith) tails in
    (ap (λ l. c ∷ l) front ∙ ap (λ n. n ∷ b) head, rest)

-- Texts of the same length that end two equal texts.
append-same_end : (a b x y : Bytes) → length x ≡ length y → a ++ x ≡ b ++ y → (a ≡ b) × (x ≡ y)
append-same_end a b x y l e =
    append-same_length a b (omega (arith, ap length e, length-append a x, length-append b y, l)) e

kdf_len_injective :
    (p q : Bytes)
    → length p < 2 ^ 16
    → length q < 2 ^ 16
    → kdf_len p ≡ kdf_len q
    → length p ≡ length q
unfolding kdf_len put_uint16
kdf_len_injective p q hp hq e = digits (length p) (length q) hp hq e
  where
    digits :
        (m n : ℕ)
        → m < 2 ^ 16
        → n < 2 ^ 16
        → put_uint16 (m % 2 ^ 16) ≡ put_uint16 (n % 2 ^ 16)
        → m ≡ n
    digits m n hm hn h =
        let high : m % 2 ^ 16 / 2 ^ 8 % 256 ≡ n % 2 ^ 16 / 2 ^ 8 % 256 = cc in
        let low : m % 2 ^ 16 % 256 ≡ n % 2 ^ 16 % 256 = cc in omega arith

-- The last parameter and its length are found from the end.
last_param :
    (a b p q : Bytes)
    → length p < 2 ^ 16
    → length q < 2 ^ 16
    → (a ++ p) ++ kdf_len p ≡ (b ++ q) ++ kdf_len q
    → (a ≡ b) × (p ≡ q)
unfolding kdf_len put_uint16
last_param a b p q hp hq e =
    let (front, ends) = append-same_end (a ++ p) (b ++ q) (kdf_len p) (kdf_len q) refl e in
    append-same_end a b p q (kdf_len_injective p q hp hq ends) front

append_params-append :
    (s : Bytes) (xs ys : List Bytes)
    → append_params s (xs ++ ys) ≡ append_params (append_params s xs) ys
unfolding append_params
append_params-append s [] ys = refl
append_params-append s (x ∷ xs) ys = append_params-append (s ++ x) xs ys

with_lengths-append :
    (xs ys : List Bytes) → with_lengths (xs ++ ys) ≡ with_lengths xs ++ with_lengths ys
with_lengths-append [] ys = refl
with_lengths-append (x ∷ xs) ys = ap (λ l. x ∷ kdf_len x ∷ l) (with_lengths-append xs ys)

-- The message of one parameter more.
message_last :
    (s : Bytes) (xs : List Bytes) (p : Bytes)
    → append_params s (with_lengths (xs ++ p ∷ []))
      ≡ (append_params s (with_lengths xs) ++ p) ++ kdf_len p
unfolding append_params
message_last s xs p =
    ap (append_params s) (with_lengths-append xs (p ∷ []))
    ∙ append_params-append s (with_lengths xs) (p ∷ kdf_len p ∷ [])

last_of : (ps : List Bytes) → (ps ≡ []) ⊎ ((xs : List Bytes) × (p : Bytes) × (ps ≡ xs ++ p ∷ []))
last_of [] = inl refl
last_of (p ∷ ps) = elim (last_of ps) [
  | inl e ↦ inr ([], p, ap (λ l. p ∷ l) e)
  | inr (xs, q, e) ↦ inr (p ∷ xs, q, ap (λ l. p ∷ l) e)
]

abbrev pub Short : Bytes → Type 0
Short p = length p < 2 ^ 16

All-append-parts : (xs : List Bytes) (p : Bytes) → All Short (xs ++ p ∷ []) → All Short xs × Short p
All-append-parts [] p h = (tt, h.0)
All-append-parts (x ∷ xs) p h = let (a, b) = All-append-parts xs p h.1 in ((h.0, a), b)

-- A message that has a parameter is longer than the one byte it begins with.
longer : (s : Bytes) (xs : List Bytes) → length s ≤ length (append_params s xs)
unfolding append_params
longer s [] = omega arith
longer s (x ∷ xs) = omega (arith, longer (s ++ x) xs, length-append s x)

-- The message is longer with one parameter more.
message_longer :
    (a b : Bytes) (xs : List Bytes) (p : Bytes)
    → length a ≡ length b
    → a ≡ append_params b (with_lengths (xs ++ p ∷ []))
    → ⊥
unfolding kdf_len put_uint16
message_longer a b xs p l e =
    let whole = ap length (e ∙ message_last b xs p) in
    let m = append_params b (with_lengths xs) in
    omega (
      arith,
      l,
      whole,
      length-append (m ++ p) (kdf_len p),
      length-append m p,
      longer b (with_lengths xs),
    )

-- Two messages that begin with as many bytes, of parameters below 2^16 bytes that are each followed
-- by their length, are equal only if these bytes and the lists of the parameters are.
pub append_params-injective :
    (n : ℕ) (a b : Bytes) (ps qs : List Bytes)
    → length ps < n
    → length a ≡ length b
    → All Short ps
    → All Short qs
    → append_params a (with_lengths ps) ≡ append_params b (with_lengths qs)
    → (a ≡ b) × (ps ≡ qs)
unfolding append_params
append_params-injective zero a b ps qs h l sp sq e = absurd (omega arith)
append_params-injective (suc n) a b ps qs h l sp sq e = elim (last_of ps) [
  | inl ep ↦ elim (last_of qs) [
    | inl eq ↦ (rw (ep, eq) at e, ep ∙ sym eq)
    | inr (ys, q, eq) ↦ absurd (message_longer a b ys q l (rw (ep, eq) at e))
  ]
  | inr (xs, p, ep) ↦ elim (last_of qs) [
    | inl eq ↦ absurd (message_longer b a xs p (sym l) (sym (rw (ep, eq) at e)))
    | inr (ys, q, eq) ↦
        let (sx, hp) = All-append-parts xs p (rw ep at sp) in
        let (sy, hq) = All-append-parts ys q (rw eq at sq) in
        let e' : append_params a (with_lengths (xs ++ p ∷ []))
            ≡ append_params b (with_lengths (ys ++ q ∷ [])) =
          rw (ep, eq) at e in
        let (front, same) =
          last_param (append_params a (with_lengths xs)) (append_params b (with_lengths ys)) p q hp
            hq (sym (message_last a xs p) ∙ e' ∙ message_last b ys q) in
        let fewer : length xs < n = omega (arith, h, ap length ep, length-append xs (p ∷ [])) in
        let (begins, rest) = append_params-injective n a b xs ys fewer l sx sy front in
        (begins, ep ∙ ap (λ z. z ++ p ∷ []) rest ∙ ap (λ z. ys ++ z ∷ []) same ∙ sym eq)
  ]
]

-- GetKDFValue derives the HMAC of a message under the key: the bytes of the function code and the
-- parameters. With parameters below 2^16 bytes, each passed with its KDFLen, two function codes of as
-- many bytes give the same message only if the codes' bytes and the parameters are the same.
pub get_kdf_value_separates :
    (hmac_sha256 : Bytes → Bytes → Bytes) (key fc fc' : Bytes) (ps qs : List Bytes) {c c' : Bytes}
    → decode_hex fc ≡ some c
    → decode_hex fc' ≡ some c'
    → length c ≡ length c'
    → All Short ps
    → All Short qs
    → let m = append_params c (with_lengths ps) in
      let m' = append_params c' (with_lengths qs) in
      (get_kdf_value hmac_sha256 key fc (with_lengths ps) ≡ returns (hmac_sha256 key m))
      × (get_kdf_value hmac_sha256 key fc' (with_lengths qs) ≡ returns (hmac_sha256 key m'))
      × (m ≡ m' → (c ≡ c') × (ps ≡ qs))
unfolding get_kdf_value
get_kdf_value_separates hmac_sha256 key fc fc' ps qs {c = c} {c' = c'} h h' l sp sq = (
  rw h refl,
  rw h' refl,
  append_params-injective (suc (length ps)) c c' ps qs (omega arith) l sp sq,
)
