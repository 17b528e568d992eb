-- ===== src/Milenage/Tests.antt =====
-- Milenage with a toy cipher, which adds the key to a block.
use free5gc_workspace.Prelude.{ℕ, ◌≡◌, ◌≢◌, ◌⊎◌, refl, ◌∙◌, sym, List, [], ◌∷◌, some}
use free5gc_workspace.Prelude.Outcome.{returns, fails}
use free5gc_workspace.Milenage.{
  Cipher, xor, cut_autn, cut_auts, mac_failure, Aka, Answered, generate_aka_parameters,
  generate_keys_with_autn, validate_auts, generate_auts,
}
use free5gc_workspace.Milenage.Blocks.{IsAes, length-xor}
use free5gc_workspace.Milenage.Parts.{IsBytes}
use free5gc_workspace.Milenage.Agreement.{
  generate_keys_with_autn-generate_aka_parameters, generate_keys_with_autn_cases,
  validate_auts-generate_auts, validate_auts_cases,
}

abbrev toy : Cipher
toy k = some (λ b. xor b k)

toy-IsAes : IsAes toy
toy-IsAes k lk = ((λ b. xor b k), refl, λ b lb. length-xor b k (lb ∙ sym lk) ∙ lb)

abbrev secret : List ℕ
secret = 1 ∷ 2 ∷ 3 ∷ 4 ∷ 5 ∷ 6 ∷ 7 ∷ 8 ∷ 9 ∷ 10 ∷ 11 ∷ 12 ∷ 13 ∷ 14 ∷ 15 ∷ 16 ∷ []

abbrev challenge : List ℕ
challenge = 16 ∷ 15 ∷ 14 ∷ 13 ∷ 12 ∷ 11 ∷ 10 ∷ 9 ∷ 8 ∷ 7 ∷ 6 ∷ 5 ∷ 4 ∷ 3 ∷ 2 ∷ 1 ∷ []

abbrev six : List ℕ
six = 0 ∷ 0 ∷ 0 ∷ 0 ∷ 0 ∷ 33 ∷ []

generate_keys_with_autn-generate_aka_parameters_example :
    (aka : Aka) × (ak : List ℕ) × (generate_aka_parameters toy challenge secret challenge six
        (128 ∷ 0 ∷ [])
      ≡ returns aka)
    × IsBytes 16 aka.autn
    × (generate_keys_with_autn toy challenge secret challenge aka.autn
        ≡ returns (record { sqnhe = six; ak = ak; ik = aka.ik; ck = aka.ck; res = aka.xres }))
generate_keys_with_autn-generate_aka_parameters_example =
    generate_keys_with_autn-generate_aka_parameters toy challenge secret challenge six
      (128 ∷ 0 ∷ []) toy-IsAes refl refl refl refl refl

generate_keys_with_autn_cases_example :
    ((mac : List ℕ) × (generate_keys_with_autn toy challenge secret challenge secret
        ≡ fails (mac_failure "MAC-A" (cut_autn secret).2 mac))
      × ((cut_autn secret).2 ≢ mac))
    ⊎ ((a : Answered) × (generate_keys_with_autn toy challenge secret challenge secret ≡ returns a)
        × (generate_aka_parameters toy challenge secret challenge a.sqnhe (cut_autn secret).1
            ≡ returns (record { ik = a.ik; ck = a.ck; xres = a.res; autn = secret })))
generate_keys_with_autn_cases_example =
    generate_keys_with_autn_cases toy challenge secret challenge secret toy-IsAes refl refl refl
      refl

validate_auts-generate_auts_example :
    (auts akstar : List ℕ) × (generate_auts toy challenge secret challenge six ≡ returns auts)
    × IsBytes 14 auts
    × (validate_auts toy challenge secret challenge auts ≡ returns (six, akstar))
validate_auts-generate_auts_example =
    validate_auts-generate_auts toy challenge secret challenge six toy-IsAes refl refl refl refl

abbrev resync : List ℕ
resync = 9 ∷ 9 ∷ 9 ∷ 9 ∷ 9 ∷ 9 ∷ 1 ∷ 1 ∷ 1 ∷ 1 ∷ 1 ∷ 1 ∷ 1 ∷ 1 ∷ []

validate_auts_cases_example :
    ((mac : List ℕ) × (validate_auts toy challenge secret challenge resync
        ≡ fails (mac_failure "MAC-S" mac (cut_auts resync).1))
      × (mac ≢ (cut_auts resync).1))
    ⊎ ((sqnms akstar : List ℕ) × (validate_auts toy challenge secret challenge resync
          ≡ returns (sqnms, akstar))
        × (generate_auts toy challenge secret challenge sqnms ≡ returns resync))
validate_auts_cases_example =
    validate_auts_cases toy challenge secret challenge resync toy-IsAes refl refl refl refl
