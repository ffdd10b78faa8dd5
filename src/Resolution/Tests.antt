-- ===== src/Resolution/Tests.antt =====
-- Runs of the resolution on one supplier.
use factpulse_billing_app_pu.Base.{◌≡◌, refl, false, none, some, List, [], ◌∷◌, ◌++◌}
use factpulse_billing_app_pu.Base.Text.{codes, ◌=ᵗ◌}
use factpulse_billing_app_pu.Base.Json.{string, dict, Fields, field_end, field, lookup}
use factpulse_billing_app_pu.Core.Rows.{filter}
use factpulse_billing_app_pu.Resolution.Merge.{deep_merge}
use factpulse_billing_app_pu.Resolution.Merge.Lookup.{HasDistinctKeys}
use factpulse_billing_app_pu.Resolution.Merge.Steps.{at_path}
use factpulse_billing_app_pu.Resolution.Merge.Paths.{deep_merge_wins}
use factpulse_billing_app_pu.Resolution.Entities.{
  Entity, resolved, Warning, Reading, create_entity, match_siren, match_external_id,
  resolve_inline_entity,
}
use factpulse_billing_app_pu.Resolution.Entities.Again.{created_entity_is_matched}
use factpulse_billing_app_pu.Resolution.Parties.{
  address_of, electronic_address_of, entity_to_en16931, supplier_to_en16931,
}

abbrev base_data : Fields
base_data = field (codes "name") (string (codes "ACME")) (
    field (codes "postalAddress")
      (dict (
        field (codes "city") (string (codes "Paris"))
          (field (codes "countryCode") (string (codes "FR")) field_end)))
      field_end)

abbrev override_data : Fields
override_data =
    field (codes "postalAddress") (dict (field (codes "city") (string (codes "Lyon")) field_end))
      field_end

deep_merge_wins_example :
    at_path (codes "postalAddress" ∷ codes "city" ∷ []) (dict (deep_merge base_data override_data))
    ≡ some (string (codes "Lyon"))
deep_merge_wins_example =
    deep_merge_wins (codes "postalAddress" ∷ codes "city" ∷ []) base_data override_data
      (string (codes "Lyon")) (unfold HasDistinctKeys lookup in (refl, (refl, tt, tt), tt)) refl
      (unfold at_path lookup ◌=ᵗ◌ in refl)

abbrev sample_reading : Reading
sample_reading = record { parse_uuid = λ v. none; str = λ j. [] }

abbrev inline_supplier : Fields
inline_supplier =
    field (codes "name") (string (codes "ACME"))
      (field (codes "siren") (string (codes "123456789")) field_end)

abbrev no_warnings : Entity → List Warning
no_warnings e = []

abbrev sample_entity : Entity
sample_entity = create_entity 4 (codes "u4") 7 inline_supplier

created_entity_is_matched_example :
    (sample_entity ∷ [] ≡ [] ++ sample_entity ∷ [])
    × (resolve_inline_entity sample_reading no_warnings inline_supplier
          (create_entity 5 (codes "u5") 7 inline_supplier)
          (sample_entity ∷ [])
          false
        ≡ (resolved (sample_entity, false, []), sample_entity ∷ []))
created_entity_is_matched_example =
    created_entity_is_matched sample_reading no_warnings false inline_supplier 4 5 7 (codes "u4")
      (codes "u5") [] {e = sample_entity} {ws = []} {es = sample_entity ∷ []}
      (unfold resolve_inline_entity match_external_id match_siren create_entity filter lookup
          ◌=ᵗ◌ in
        refl)

-- the data of the matched supplier
supplier_to_en16931_test :
    supplier_to_en16931 sample_entity
    ≡ field (codes "name") (string (codes "ACME")) (
        field (codes "siren") (string (codes "123456789")) (
          field
            (codes "electronicAddress")
            (dict (address_of (string (codes "123456789")) (string (codes "0225"))))
            field_end))
unfolding supplier_to_en16931 entity_to_en16931 electronic_address_of create_entity lookup ◌=ᵗ◌
supplier_to_en16931_test = refl
