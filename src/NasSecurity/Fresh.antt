-- ===== src/NasSecurity/Fresh.antt =====
-- The count under which a message is protected.
use free5gc_workspace.Prelude.{
  ℕ, ◌≡◌, ◌⊎◌, inl, inr, refl, Bool, true, false, List, ◌∷◌, some, if◌then◌else◌,
}
use free5gc_workspace.Prelude.Outcome.{Outcome, returns, fails, panics}
use free5gc_workspace.Prelude.Run.{◌>>=◌, ◌>>◌, >>=-elim, gives}
use free5gc_workspace.NasSecurity.{
  NasLib, NasError, RanUeContext, EncodeStep, calls, asks, changes, encrypted, left_encrypted,
  leaving, mac_of, protect, is_ciphered, on_ue, nas_encode,
}
use free5gc_workspace.NasSecurity.Keeps.{calls-keeps, leaving-keeps, maybe_leaving-keeps}

module _ (lib : NasLib) where
  -- The UE with the next count.
  abbrev pub counted_up : RanUeContext lib → RanUeContext lib
  counted_up ue = record ue { ul_count = lib.count_up ue.ul_count }

  -- A payload without an error and the next count, or an error with what is left of the payload, or a
  -- panic of the library, and the same.
  abbrev pub Counted :
      RanUeContext lib → RanUeContext lib × Outcome (NasError lib.Err × List ℕ) (List ℕ) → Type 0
  Counted ue r =
      ((payload : List ℕ) × (r ≡ (counted_up ue, returns payload)))
      ⊎ (((e : NasError lib.Err × List ℕ) × (r ≡ (ue, fails e))) ⊎ (r ≡ (ue, panics)))

  Counted-bind :
      {A : Type 0} (ue : RanUeContext lib) (m : EncodeStep lib A) (f : A → EncodeStep lib (List ℕ))
      → (m ue).0 ≡ ue
      → ((a : A) → Counted ue (f a ue))
      → Counted ue ((m >>= f) ue)
  Counted-bind ue m f kept next =
      >>=-elim (Counted ue) m f ue kept (λ e. inr (inl (e, refl))) (inr (inr refl)) next

  protect-Counted :
      (ue : RanUeContext lib) (msg : lib.Message) (ciphers : Bool)
      → Counted ue (protect lib msg ciphers false ue)
  unfolding protect asks changes leaving ◌>>=◌ ◌>>◌ gives
  protect-Counted ue msg ciphers =
      Counted-bind ue
        (leaving lib (λ ue. lib.left_by_encode msg) (calls lib (lib.plain_nas_encode msg))) _
        (leaving-keeps lib (λ ue. lib.left_by_encode msg) (calls lib (lib.plain_nas_encode msg)) ue
          (calls-keeps lib _ ue))
        (λ plain.
          Counted-bind ue
            (if ciphers
              then leaving lib (left_encrypted lib plain) (asks lib (encrypted lib plain))
              else gives plain)
            _
            (maybe_leaving-keeps lib ciphers (left_encrypted lib plain) (encrypted lib plain) plain
              ue)
            (λ ciphered.
              let signed = lib.sqn ue.ul_count ∷ ciphered in
              Counted-bind ue (leaving lib (λ ue. signed) (asks lib (mac_of lib signed))) _
                (leaving-keeps lib (λ ue. signed) (asks lib (mac_of lib signed)) ue
                  (calls-keeps lib _ ue))
                (λ mac32. inl (_, refl))))

  -- Under a context that is not new, NASEncode returns a payload without an error and counts the
  -- uplink up by one; or it returns an error, beside which there may be a payload, or a call of the NAS
  -- library panics, and the UE is as it was.
  pub nas_encode-Counted :
      (ue : RanUeContext lib) (msg : lib.Message)
      → (result : RanUeContext lib × Outcome (NasError lib.Err × List ℕ) (List ℕ)) × (nas_encode lib
            (some ue)
            (some msg)
            true
            false
          ≡ (some result.0, result.1))
        × Counted ue result
  unfolding nas_encode on_ue
  nas_encode-Counted ue msg = (
    protect lib msg (is_ciphered lib msg) false ue,
    refl,
    protect-Counted ue msg (is_ciphered lib msg),
  )
