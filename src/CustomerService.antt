-- ===== src/CustomerService.antt =====
-- apps/billing/services/customer_service.py: the missing fields of a customer's data.
pub mod Enriched
mod Tests
use factpulse_billing_app_pu.Base.{Bool, ◌||◌, Option, none, some, [], if◌then◌else◌, or_else}
use factpulse_billing_app_pu.Base.Text.{Text, codes, truthy}
use factpulse_billing_app_pu.Model.{CustomerType, Address, ElectronicAddress}
use factpulse_billing_app_pu.FlowDetector.{suggest_customer_type}
use factpulse_billing_app_pu.Resolution.Parties.{afnor_scheme_id}

-- The keys that the service reads or writes; `none` is a key that is absent. An address that is an
-- empty dict is like an absent one.
pub record CustomerData : Type 0 where
  pub customer_type : Option CustomerType
  pub siren : Text
  pub vat_number : Text
  pub address : Option Address
  pub address_line1 : Option Text
  pub address_postcode : Option Text
  pub address_city : Option Text
  pub address_country : Option Text
  pub electronic_address : Option ElectronicAddress
  pub electronic_address_id : Option Text

abbrev pub text_of : Option Text → Text
text_of t = or_else t []

-- `value or default`
abbrev pub or_text : Text → Text → Text
or_text given fallback = if truthy given then given else fallback

abbrev address_country_of : Option Address → Text
address_country_of none = []
address_country_of (some a) = text_of a.country_code

-- `_enrich_customer_type`; the flat country is taken out of the data where it is read
unfoldable pub enrich_customer_type : CustomerData → CustomerData
unfolding suggest_customer_type
enrich_customer_type d = elim d.customer_type [
  | some t ↦ d
  | none ↦
      if truthy (address_country_of d.address)
      then record d {
        customer_type =
            some (suggest_customer_type d.siren d.vat_number (address_country_of d.address));
      }
      else record d {
        customer_type = some (
            suggest_customer_type d.siren d.vat_number
              (or_text (text_of d.address_country) (codes "FR")));
        address_country = none;
      }
]

abbrev has_flat_address : CustomerData → Bool
has_flat_address d =
    truthy (text_of d.address_line1)
    || truthy (text_of d.address_postcode)
    || truthy (text_of d.address_city)
    || truthy (text_of d.address_country)

-- `_enrich_address`
unfoldable pub enrich_address : CustomerData → CustomerData
enrich_address d = elim d.address [
  | some a ↦ d
  | none ↦
      if has_flat_address d
      then record d {
        address = some (record {
          line_one = some (text_of d.address_line1);
          postal_code = some (text_of d.address_postcode);
          city = some (text_of d.address_city);
          country_code = some (or_else d.address_country (codes "FR"));
        });
        address_line1 = none;
        address_postcode = none;
        address_city = none;
        address_country = none;
      }
      else d
]

abbrev afnor_address : Text → ElectronicAddress
afnor_address identifier = record {
  identifier = some identifier;
  scheme_id = some afnor_scheme_id;
  value = none;
}

-- `_enrich_electronic_address`
unfoldable pub enrich_electronic_address : CustomerData → CustomerData
enrich_electronic_address d = elim d.electronic_address [
  | some a ↦ d
  | none ↦ record d {
    electronic_address =
        (if truthy (text_of d.electronic_address_id)
          then some (afnor_address (text_of d.electronic_address_id))
          else none);
    electronic_address_id = none;
  }
]

unfoldable pub enrich_customer_data : CustomerData → CustomerData
unfolding enrich_customer_type enrich_address enrich_electronic_address
enrich_customer_data d = enrich_electronic_address (enrich_address (enrich_customer_type d))
