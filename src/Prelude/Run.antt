-- ===== src/Prelude/Run.antt =====
-- A call that reads and changes a state: the state after it, and what it comes to.
use mathlib.Core.Path.{◌≡◌, ap, ◌∙◌}
use free5gc_workspace.Prelude.Outcome.{Outcome, returns, fails, panics}

abbrev pub Run : Type 0 → Type 0 → Type 0 → Type 0
Run S E A = S → S × Outcome E A

continue : {S E A B : Type 0} → S × Outcome E A → (A → Run S E B) → S × Outcome E B
continue (s, returns a) f = f a s
continue (s, fails e) f = (s, fails e)
continue (s, panics) f = (s, panics)

infixl 5 ◌>>=◌ ◌>>◌
unfoldable pub ◌>>=◌ : {S E A B : Type 0} → Run S E A → (A → Run S E B) → Run S E B
unfolding continue
(m >>= f) s = continue (m s) f

unfoldable pub ◌>>◌ : {S E A B : Type 0} → Run S E A → Run S E B → Run S E B
unfolding ◌>>=◌
m >> k = m >>= λ _. k

unfoldable pub gives : {S E A : Type 0} → A → Run S E A
gives a s = (s, returns a)

continue_keeps :
    {S E A B : Type 0} (r : S × Outcome E A) (f : A → Run S E B) (s : S)
    → r.0 ≡ s
    → ((a : A) → (f a s).0 ≡ s)
    → (continue r f).0 ≡ s
unfolding continue
continue_keeps (s', returns a) f s h k = ap (λ x. (f a x).0) h ∙ k a
continue_keeps (s', fails e) f s h k = h
continue_keeps (s', panics) f s h k = h

-- Steps that keep the state, one after the other.
pub >>=-keeps :
    {S E A B : Type 0} (m : Run S E A) (f : A → Run S E B) (s : S)
    → (m s).0 ≡ s
    → ((a : A) → (f a s).0 ≡ s)
    → ((m >>= f) s).0 ≡ s
unfolding ◌>>=◌
>>=-keeps m f s h k = continue_keeps (m s) f s h k

continue_elim :
    {S E A B : Type 0} (P : S × Outcome E B → Type 0) (r : S × Outcome E A) (f : A → Run S E B)
    (s : S)
    → r.0 ≡ s
    → ((e : E) → P (s, fails e))
    → P (s, panics)
    → ((a : A) → P (f a s))
    → P (continue r f)
unfolding continue
continue_elim P (s', returns a) f s h failed panicked next = rw h (next a)
continue_elim P (s', fails e) f s h failed panicked next = rw h (failed e)
continue_elim P (s', panics) f s h failed panicked next = rw h panicked

-- What holds where a step that keeps the state stops, and of what comes behind it.
pub >>=-elim :
    {S E A B : Type 0} (P : S × Outcome E B → Type 0) (m : Run S E A) (f : A → Run S E B) (s : S)
    → (m s).0 ≡ s
    → ((e : E) → P (s, fails e))
    → P (s, panics)
    → ((a : A) → P (f a s))
    → P ((m >>= f) s)
unfolding ◌>>=◌
>>=-elim P m f s h failed panicked next = continue_elim P (m s) f s h failed panicked next
