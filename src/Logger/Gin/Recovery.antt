-- ===== src/Logger/Gin/Recovery.antt =====
-- Which requests an engine of NewGinWithLogrus answers.
use free5gc_workspace.Prelude.{◌≡◌, ◌⊎◌, inl, inr, refl, Bool, true, [], Option, none, some}
use free5gc_workspace.Prelude.Outcome.{returns, panics}
use free5gc_workspace.Text.Decimal.{Bytes}
use free5gc_workspace.Logger.Gin.{
  Gin, Claims, map_claims, other_claims, text_value, other_value, Ended, done, in_panic,
  type_assertion, Handler, Handled, user_of, gin_to_logrus, gin_recover, settle, chained,
  new_gin_with_logrus,
}

-- Whether the email of the claims is not a text.
abbrev pub NoEmail : Option Claims → Type 0
NoEmail none = ⊥
NoEmail (some other_claims) = ⊥
NoEmail (some (map_claims none)) = Unit {0}
NoEmail (some (map_claims (some other_value))) = Unit {0}
NoEmail (some (map_claims (some (text_value email)))) = ⊥

user_of_cases :
    (claims : Option Claims)
    → ((user : Bytes) × (user_of claims ≡ returns user) × (NoEmail claims → ⊥))
      ⊎ ((user_of claims ≡ panics) × NoEmail claims)
unfolding user_of
user_of_cases none = inl ([], refl, λ h. h)
user_of_cases (some other_claims) = inl ([], refl, λ h. h)
user_of_cases (some (map_claims none)) = inr (refl, tt)
user_of_cases (some (map_claims (some other_value))) = inr (refl, tt)
user_of_cases (some (map_claims (some (text_value email)))) = inl (email, refl, λ h. h)

module _ (gin : Gin) where
  -- The context when the handlers have ended, with the answer to a panic.
  abbrev pub settled : Ended gin.Context → gin.Context
  settled (done c) = c
  settled (in_panic p c) = settle gin p c

  Answered : Ended gin.Context → gin.Context → Type 0
  Answered e c =
      ((e ≡ done c) × (NoEmail (gin.claims c) → ⊥))
      ⊎ ((e ≡ in_panic type_assertion c) × NoEmail (gin.claims c))

  gin_to_logrus-Answered :
      (next : Handler gin) (c d : gin.Context)
      → (next c).1 ≡ done d
      → Answered (gin_to_logrus gin next c).1 d
  unfolding gin_to_logrus Answered
  gin_to_logrus-Answered next c d h = elim (user_of_cases (gin.claims d)) [
    | inl (user, e, good) ↦ inl (rw (h, e) refl, good)
    | inr (e, bad) ↦ inr (rw (h, e) refl, bad)
  ]

  gin_recover_ends :
      (has_log is_debugging : Bool) (c : gin.Context) (h : Handled gin)
      → (gin_recover gin has_log is_debugging (λ _. h) c).1 ≡ done (settled h.1)
  unfolding gin_recover
  gin_recover_ends has_log is_debugging c (logs, done d) = refl
  gin_recover_ends has_log is_debugging c (logs, in_panic p d) = refl

  -- In an engine with a logger and without further middleware, a request ends in no panic of its
  -- handlers. It ends in a panic of the engine's own where the context that the handlers leave, with the
  -- answer to their panic, has claims whose email is not a text, and is answered everywhere else.
  pub new_gin_with_logrus-Answered :
      (is_debugging : Bool) (next : Handler gin) (c : gin.Context)
      → let e = (new_gin_with_logrus gin is_debugging [] next c).1 in
        let d = settled (next c).1 in
        ((e ≡ done d) × (NoEmail (gin.claims d) → ⊥))
        ⊎ ((e ≡ in_panic type_assertion d) × NoEmail (gin.claims d))
  unfolding new_gin_with_logrus Answered chained gin_recover
  new_gin_with_logrus-Answered is_debugging next c =
      gin_to_logrus-Answered (gin_recover gin true is_debugging next) c (settled (next c).1)
        (gin_recover_ends true is_debugging c (next c))
