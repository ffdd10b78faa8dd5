-- ===== src/CustomerService/Enriched.antt =====
-- What the enrichment of a customer's data gives.
use factpulse_billing_app_pu.Base.{◌≡◌, refl, ap, ◌∙◌, true, none, some, arith, is_some}
use factpulse_billing_app_pu.Base.Text.{codes, truthy}
use factpulse_billing_app_pu.Model.{Address, no_address}
use factpulse_billing_app_pu.CustomerService.{
  CustomerData, text_of, enrich_customer_type, enrich_address, enrich_electronic_address,
  enrich_customer_data,
}

typed_once : (d : CustomerData) → is_some (enrich_customer_type d).customer_type ≡ true
unfolding enrich_customer_type
typed_once d = ground arith

type_stays : (d : CustomerData) → is_some d.customer_type ≡ true → enrich_customer_type d ≡ d
unfolding enrich_customer_type
type_stays d h = ground (arith, h)

address_stays :
    (d : CustomerData)
    → enrich_address (enrich_electronic_address (enrich_address d))
      ≡ enrich_electronic_address (enrich_address d)
unfolding enrich_address enrich_electronic_address
address_stays d = ground arith

electronic_stays :
    (d : CustomerData)
    → enrich_electronic_address (enrich_electronic_address d) ≡ enrich_electronic_address d
unfolding enrich_electronic_address
electronic_stays d = ground arith

keeps_type :
    (d : CustomerData)
    → (enrich_electronic_address (enrich_address d)).customer_type ≡ d.customer_type
unfolding enrich_address enrich_electronic_address
keeps_type d = ground arith

-- The data of a customer that were enriched stay as they are when they are enriched again.
pub enrich_customer_data_once :
    (d : CustomerData) → enrich_customer_data (enrich_customer_data d) ≡ enrich_customer_data d
unfolding enrich_customer_data
enrich_customer_data_once d =
    ap enrich_electronic_address (
      ap enrich_address (
        type_stays (enrich_electronic_address (enrich_address (enrich_customer_type d)))
          (ap is_some (keeps_type (enrich_customer_type d)) ∙ typed_once d))
      ∙ address_stays (enrich_customer_type d))
    ∙ electronic_stays (enrich_address (enrich_customer_type d))

-- Where a customer has neither type nor address but a flat city, its address gets the country FR,
-- whatever flat country was given.
pub flat_country_is_lost :
    (d : CustomerData)
    → d.customer_type ≡ none
    → d.address ≡ none
    → truthy (text_of d.address_city) ≡ true
    → (a : Address) × ((enrich_customer_data d).address ≡ some a)
      × (a.country_code ≡ some (codes "FR"))
unfolding enrich_customer_data enrich_customer_type enrich_address enrich_electronic_address
flat_country_is_lost d untyped no_address city = (
  record {
    line_one = some (text_of d.address_line1);
    postal_code = some (text_of d.address_postcode);
    city = some (text_of d.address_city);
    country_code = some (codes "FR");
  },
  ground (arith, untyped, no_address, city),
  refl,
)
