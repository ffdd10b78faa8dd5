-- ===== src/SireneClient/Tests.antt =====
-- Runs of the search.
use factpulse_billing_app_pu.Base.{ℕ, ◌+◌, ◌*◌, ◌%◌, ◌≤◌, ◌≡◌, refl, [], ◌∷◌, ◌++◌}
use factpulse_billing_app_pu.Base.Text.{codes, str_nat, zfill}
use factpulse_billing_app_pu.Base.Json.{field_end}
use factpulse_billing_app_pu.SireneClient.{
  int_of, found, failed, not_a_number, compute_vat_number, Company,
}
use factpulse_billing_app_pu.SireneClient.Keys.{compute_vat_number_lem}

abbrev sample_company : Company
sample_company = record {
  full_name = codes "ACME";
  siren = codes "732829320";
  state = codes "A";
  seat = field_end;
  matching = [];
}

compute_vat_number_test : compute_vat_number (codes "732829320") ≡ found (codes "FR44732829320")
unfolding compute_vat_number str_nat zfill
compute_vat_number_test = refl

compute_vat_number_of_name : compute_vat_number (codes "ACME") ≡ failed not_a_number
unfolding compute_vat_number
compute_vat_number_of_name = refl

compute_vat_number_lem_example :
    (a b : ℕ) × (a ≤ 9)
    × (b ≤ 9)
    × (compute_vat_number (codes "732829320")
        ≡ found (codes "FR" ++ (b'0' + a) ∷ (b'0' + b) ∷ codes "732829320"))
    × (10 * a + b ≡ (732829320 * 100 + 12) % 97)
unfolding int_of
compute_vat_number_lem_example = compute_vat_number_lem (codes "732829320") 732829320 refl
