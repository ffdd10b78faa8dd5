-- ===== src/FlowDetector.antt =====
-- apps/billing/services/flow_detector.py: which e-invoicing or e-reporting flow an invoice follows.
pub mod Agreement
pub mod Enrichment
mod Tests
use factpulse_billing_app_pu.Base.{
  ℕ, Bool, not, ◌&&◌, ◌||◌, Option, none, some, List, [], ◌∷◌, ◌++◌, if◌then◌else◌, is_some,
  or_else, any,
}
use factpulse_billing_app_pu.Base.Text.{
  upper, strip, first_two, text_or_empty, Text, codes, ◌=ᵗ◌, truthy,
}
use factpulse_billing_app_pu.Model.{
  Flow, OperationCategory, CustomerType, Invoice, Customer, World, Snapshot, Party, Note, no_party,
  no_address, find, references_of,
}

-- `EU_COUNTRY_CODES`
abbrev pub eu_country_codes : List Text
eu_country_codes =
    codes "AT"
    ∷ codes "BE"
    ∷ codes "BG"
    ∷ codes "CY"
    ∷ codes "CZ"
    ∷ codes "DE"
    ∷ codes "DK"
    ∷ codes "EE"
    ∷ codes "ES"
    ∷ codes "FI"
    ∷ codes "GR"
    ∷ codes "HR"
    ∷ codes "HU"
    ∷ codes "IE"
    ∷ codes "IT"
    ∷ codes "LT"
    ∷ codes "LU"
    ∷ codes "LV"
    ∷ codes "MT"
    ∷ codes "NL"
    ∷ codes "PL"
    ∷ codes "PT"
    ∷ codes "RO"
    ∷ codes "SE"
    ∷ codes "SI"
    ∷ codes "SK"
    ∷ []

unfoldable pub is_eu : Text → Bool
unfolding ◌=ᵗ◌
is_eu country = any (λ c. c =ᵗ country) eu_country_codes

unfoldable pub is_fr : Text → Bool
unfolding ◌=ᵗ◌
is_fr country = country =ᵗ codes "FR"

-- `_flow_from_customer_type`
unfoldable pub flow_from_customer_type : CustomerType → Flow
flow_from_customer_type CustomerType.assujetti_fr = Flow.b2b_domestic
flow_from_customer_type CustomerType.intra_ue = Flow.b2b_intra_eu
flow_from_customer_type CustomerType.extra_ue = Flow.b2b_extra_eu
flow_from_customer_type CustomerType.particulier = Flow.b2c
flow_from_customer_type CustomerType.public = Flow.b2g

abbrev pub country_of : Party → Text
country_of recipient = text_or_empty (or_else recipient.postal_address no_address).country_code

-- `_detect_from_recipient`
unfoldable pub detect_from_recipient : Party → Flow
detect_from_recipient recipient =
    let country = upper (country_of recipient) in
    let prefix = upper (first_two (text_or_empty recipient.vat_number)) in
    if truthy (text_or_empty recipient.siren)
    then Flow.b2b_domestic
    else if truthy (text_or_empty recipient.vat_number)
    then (if is_fr prefix
        then Flow.b2b_domestic
        else if is_eu prefix
        then Flow.b2b_intra_eu
        else Flow.b2b_extra_eu)
    else if truthy country
    then (if is_fr country
        then Flow.b2c
        else if is_eu country
        then Flow.b2b_intra_eu
        else Flow.b2b_extra_eu)
    else Flow.b2c

abbrev pub customer_key : Customer → ℕ
customer_key c = c.pk

-- `invoice.customer`, the row behind the foreign key
abbrev pub customer_of : Invoice → World → Option Customer
customer_of invoice w = elim invoice.customer [
  | none ↦ none
  | some k ↦ find customer_key k w.customers
]

abbrev type_of : Option Customer → Option CustomerType
type_of none = none
type_of (some c) = c.customer_type

unfoldable pub detect_flow : Invoice → World → Flow
unfolding flow_from_customer_type detect_from_recipient
detect_flow invoice w = elim (type_of (customer_of invoice w)) [
  | some t ↦ flow_from_customer_type t
  | none ↦ detect_from_recipient (or_else invoice.en16931_data.recipient no_party)
]

unfoldable pub suggest_customer_type : Text → Text → Text → CustomerType
suggest_customer_type siren vat_number country_code =
    let country = upper country_code in
    let prefix = upper (first_two vat_number) in
    if truthy siren
    then CustomerType.assujetti_fr
    else if truthy vat_number
    then (if is_fr prefix
        then CustomerType.assujetti_fr
        else if is_eu prefix
        then CustomerType.intra_ue
        else CustomerType.extra_ue)
    else if truthy country && not (is_fr country)
    then (if is_eu country then CustomerType.intra_ue else CustomerType.extra_ue)
    else CustomerType.assujetti_fr

-- `FLOW_TO_BAR_VALUE`
unfoldable pub flow_to_bar_value : Flow → Text
flow_to_bar_value Flow.b2b_domestic = codes "B2B"
flow_to_bar_value Flow.b2c = codes "B2C"
flow_to_bar_value Flow.b2b_intra_eu = codes "B2BINT"
flow_to_bar_value Flow.b2b_extra_eu = codes "B2BINT"
flow_to_bar_value Flow.b2g = codes "B2B"

-- `CATEGORY_TO_FRAMEWORK`
unfoldable pub category_to_framework : OperationCategory → Text
category_to_framework OperationCategory.tps1 = codes "S1"
category_to_framework OperationCategory.tlb1 = codes "B1"
category_to_framework OperationCategory.tma1 = codes "M1"
category_to_framework OperationCategory.tnt1 = codes "S1"

abbrev pub bar_code : Text
bar_code = codes "BAR"

unfoldable pub is_bar : Note → Bool
unfolding ◌=ᵗ◌
is_bar note = note.subject_code =ᵗ bar_code

-- an empty `detected_flow` is `none`
unfoldable pub inject_bar_note : Snapshot → Option Flow → Snapshot
unfolding flow_to_bar_value is_bar
inject_bar_note en none = en
inject_bar_note en (some flow) =
    let notes = or_else en.notes [] in
    if any is_bar notes then en else record en {
      notes =
          some (notes ++ record { subject_code = bar_code; content = flow_to_bar_value flow } ∷ []);
    }

unfoldable pub inject_framework : Snapshot → OperationCategory → Snapshot
unfolding category_to_framework
inject_framework en category =
    let refs = references_of en.references in
    if truthy (text_or_empty refs.invoicing_framework) then en else record en {
      references =
          some (record refs { invoicing_framework = some (category_to_framework category) });
    }

-- `FLOW_TO_EREPORTING_FLUX`, `get_ereporting_flux_type`
unfoldable pub get_ereporting_flux_type : Option Flow → Option Text
get_ereporting_flux_type (some Flow.b2b_intra_eu) = some (codes "10.1")
get_ereporting_flux_type (some Flow.b2b_extra_eu) = some (codes "10.1")
get_ereporting_flux_type (some Flow.b2c) = some (codes "10.3")
get_ereporting_flux_type _ = none

unfoldable pub is_ereporting_flow : Option Flow → Bool
unfolding get_ereporting_flux_type
is_ereporting_flow flow = is_some (get_ereporting_flux_type flow)

-- the country code that a customer's address gives; an empty address is `none`
unfoldable pub customer_country : Option Customer → Text
unfolding strip
customer_country none = []
customer_country (some c) = elim c.address [
  | none ↦ []
  | some a ↦ strip (text_or_empty a.country_code)
]

unfoldable pub enrich_recipient_country : Snapshot → Option Customer → Snapshot
unfolding customer_country
enrich_recipient_country en customer =
    let recipient = or_else en.recipient no_party in
    let address = or_else recipient.postal_address no_address in
    let country = customer_country customer in
    if truthy (text_or_empty address.country_code) || not (truthy country) then en else record en {
      recipient = some (record recipient {
        postal_address = some (record address { country_code = some country });
      });
    }
