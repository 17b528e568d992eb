-- ===== src/NasSecurity/Mac.antt =====
-- What NASDecode makes of the MAC of a message.
use free5gc_workspace.Prelude.{ℕ, ◌≡◌, refl, false, ◌==◌, List, ◌∷◌, some}
use free5gc_workspace.NasSecurity.{NasLib, RanUeContext, on_ue}
use free5gc_workspace.NasSecurity.Decode.{nas_decode}

-- A protected message: its discriminator, the byte of its header type, its MAC, its number and the rest.
abbrev pub protected : ℕ → ℕ → ℕ × ℕ × ℕ × ℕ → ℕ → List ℕ → List ℕ
protected epd kind (m0, m1, m2, m3) number body = epd ∷ kind ∷ m0 ∷ m1 ∷ m2 ∷ m3 ∷ number ∷ body

-- Where the header type is read from the first two bytes, a protected message under an algorithm other
-- than the null one is decoded in the same way, with the same counts after it, whatever its MAC is.
pub nas_decode_ignores_mac :
    (lib : NasLib) (ue : RanUeContext lib) (security_header_type epd kind number : ℕ)
    (body : List ℕ) (mac mac' : ℕ × ℕ × ℕ × ℕ)
    → ((s t : List ℕ)
        → lib.get_security_header_type (epd ∷ kind ∷ s)
          ≡ lib.get_security_header_type (epd ∷ kind ∷ t))
    → (security_header_type == lib.plain_nas) ≡ false
    → (ue.integrity_alg == lib.alg_integrity_nia0) ≡ false
    → nas_decode lib (some ue) security_header_type (some (protected epd kind mac number body))
      ≡ nas_decode lib (some ue) security_header_type (some (protected epd kind mac' number body))
unfolding nas_decode on_ue
nas_decode_ignores_mac lib ue security_header_type epd kind number body (m0, m1, m2, m3)
      (n0, n1, n2, n3) reads secured alg =
    rw (secured, alg, reads (m0 ∷ m1 ∷ m2 ∷ m3 ∷ number ∷ body) (n0 ∷ n1 ∷ n2 ∷ n3 ∷ number ∷ body))
      refl
