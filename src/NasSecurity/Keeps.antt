-- ===== src/NasSecurity/Keeps.antt =====
-- A call of the NAS library keeps the UE.
use free5gc_workspace.Prelude.{ℕ, ◌≡◌, refl, List, Bool, Bool-cases, inl, inr, if◌then◌else◌}
use free5gc_workspace.Prelude.Outcome.{Outcome, returns, fails, panics}
use free5gc_workspace.Prelude.Run.{gives}
use free5gc_workspace.NasSecurity.{NasLib, NasError, RanUeContext, Step, calls, asks, leaving}

pub calls-keeps :
    (lib : NasLib) {A : Type 0} (o : Outcome lib.Err A) (ue : RanUeContext lib)
    → (calls lib o ue).0 ≡ ue
unfolding calls
calls-keeps lib (returns a) ue = refl
calls-keeps lib (fails e) ue = refl
calls-keeps lib panics ue = refl

-- A call that is made or left out.
pub maybe_asks-keeps :
    (lib : NasLib) {A : Type 0} (ciphered : Bool) (f : RanUeContext lib → Outcome lib.Err A) (a : A)
    (ue : RanUeContext lib)
    → ((if ciphered then asks lib f else gives a) ue).0 ≡ ue
unfolding asks gives
maybe_asks-keeps lib ciphered f a ue = elim (Bool-cases ciphered) [
  | inl e ↦ rw e (calls-keeps lib (f ue) ue)
  | inr e ↦ rw e refl
]

-- What is returned beside an error does not matter for the UE.
beside_error-keeps :
    (lib : NasLib) {A : Type 0} (payload : RanUeContext lib → List ℕ)
    (r : RanUeContext lib × Outcome (NasError lib.Err) A) (ue : RanUeContext lib)
    → r.0 ≡ ue
    → (leaving lib payload (λ ue. r) ue).0 ≡ ue
unfolding leaving
beside_error-keeps lib payload (ue', returns a) ue h = h
beside_error-keeps lib payload (ue', fails e) ue h = h
beside_error-keeps lib payload (ue', panics) ue h = h

pub leaving-keeps :
    (lib : NasLib) {A : Type 0} (payload : RanUeContext lib → List ℕ) (step : Step lib A)
    (ue : RanUeContext lib)
    → (step ue).0 ≡ ue
    → (leaving lib payload step ue).0 ≡ ue
unfolding leaving
leaving-keeps lib payload step ue h = beside_error-keeps lib payload (step ue) ue h

pub maybe_leaving-keeps :
    (lib : NasLib) {A : Type 0} (ciphered : Bool) (payload : RanUeContext lib → List ℕ)
    (f : RanUeContext lib → Outcome lib.Err A) (a : A) (ue : RanUeContext lib)
    → ((if ciphered then leaving lib payload (asks lib f) else gives a) ue).0 ≡ ue
unfolding asks gives
maybe_leaving-keeps lib ciphered payload f a ue = elim (Bool-cases ciphered) [
  | inl e ↦ rw e (leaving-keeps lib payload (asks lib f) ue (calls-keeps lib (f ue) ue))
  | inr e ↦ rw e refl
]
