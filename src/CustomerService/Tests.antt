-- ===== src/CustomerService/Tests.antt =====
-- The data of a customer with flat fields.
use factpulse_billing_app_pu.Base.{◌≡◌, refl, none, some, []}
use factpulse_billing_app_pu.Base.Text.{codes}
use factpulse_billing_app_pu.Model.{Address}
use factpulse_billing_app_pu.CustomerService.{CustomerData, enrich_customer_data}
use factpulse_billing_app_pu.CustomerService.Enriched.{
  enrich_customer_data_once, flat_country_is_lost,
}

-- a German customer, as a form sends it
abbrev german : CustomerData
german = record {
  customer_type = none;
  siren = [];
  vat_number = [];
  address = none;
  address_line1 = none;
  address_postcode = none;
  address_city = some (codes "Berlin");
  address_country = some (codes "DE");
  electronic_address = none;
  electronic_address_id = some (codes "id");
}

enrich_customer_data_once_example :
    enrich_customer_data (enrich_customer_data german) ≡ enrich_customer_data german
enrich_customer_data_once_example = enrich_customer_data_once german

flat_country_is_lost_example :
    (a : Address) × ((enrich_customer_data german).address ≡ some a)
    × (a.country_code ≡ some (codes "FR"))
flat_country_is_lost_example = flat_country_is_lost german refl refl refl
