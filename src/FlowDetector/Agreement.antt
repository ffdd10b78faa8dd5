-- ===== src/FlowDetector/Agreement.antt =====
-- The flow that is detected from a recipient, against the one of the suggested customer type.
use factpulse_billing_app_pu.Base.{◌≡◌, ◌⊎◌, true, [], arith}
use factpulse_billing_app_pu.Base.Text.{upper, text_or_empty}
use factpulse_billing_app_pu.Model.{Flow, Party}
use factpulse_billing_app_pu.FlowDetector.{
  detect_from_recipient, suggest_customer_type, flow_from_customer_type, country_of, is_fr,
}

-- A recipient without SIREN and VAT number and with no country but France
abbrev pub IsAnonymous : Party → Type 0
IsAnonymous r =
    (text_or_empty r.siren ≡ [])
    × (text_or_empty r.vat_number ≡ [])
    × ((upper (country_of r) ≡ []) ⊎ (is_fr (upper (country_of r)) ≡ true))

-- The flow of the type that is suggested for a customer is the one that is detected from the same
-- identifiers, except for a recipient with no identifier and no country but France, which is
-- suggested as a French company and detected as a consumer.
pub suggestion_agrees :
    (r : Party)
    → let suggested = flow_from_customer_type (
        suggest_customer_type
          (text_or_empty r.siren)
          (text_or_empty r.vat_number)
          (country_of r)) in
      (¬ IsAnonymous r → suggested ≡ detect_from_recipient r)
      × (IsAnonymous r → (suggested ≡ Flow.b2b_domestic) × (detect_from_recipient r ≡ Flow.b2c))
unfolding suggest_customer_type detect_from_recipient flow_from_customer_type
suggestion_agrees r = (ground arith, ground arith)
