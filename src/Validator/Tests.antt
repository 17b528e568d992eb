-- ===== src/Validator/Tests.antt =====
-- The validators on concrete texts.
use free5gc_workspace.Prelude.{◌≡◌, ◌↔◌, refl, true, false}
use free5gc_workspace.Text.Decimal.{codes}
use free5gc_workspace.Validator.{is_valid_supi, is_valid_gpsi, is_valid_suci, is_valid_snssai}
use free5gc_workspace.Validator.Identity.{IsDigits, is_valid_supi_imsi}

supi : is_valid_supi (codes "imsi-208930000000003") ≡ true
unfolding is_valid_supi
supi = refl

gpsi : is_valid_gpsi (codes "extid-ue@free5gc.org") ≡ true
unfolding is_valid_gpsi
gpsi = refl

suci : is_valid_suci (codes "suci-0-208-93-0000-0-0-0000000003") ≡ true
unfolding is_valid_suci
suci = refl

snssai : is_valid_snssai (codes "1-010203") ≡ true
unfolding is_valid_snssai
snssai = refl

no_snssai : is_valid_snssai (codes "256-010203") ≡ false
unfolding is_valid_snssai
no_snssai = refl

is_valid_supi_imsi_example :
    (is_valid_supi (codes "imsi-20893") ≡ true) ↔ IsDigits 5 15 (codes "20893")
is_valid_supi_imsi_example = is_valid_supi_imsi (codes "20893")
