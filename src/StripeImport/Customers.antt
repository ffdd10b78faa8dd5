-- ===== src/StripeImport/Customers.antt =====
-- The customers of Stripe, of apps/payments/providers/stripe/sync.py, and what the imports read.
use factpulse_billing_app_pu.Base.{
  ℕ, ◌+◌, Bool, false, not, ◌&&◌, Option, none, some, List, [], ◌∷◌, ◌++◌, ◌==◌, if◌then◌else◌,
}
use factpulse_billing_app_pu.Base.Int.{ℤ}
use factpulse_billing_app_pu.Base.Text.{text_or_empty, Text, codes, ◌=ᵗ◌, truthy}
use factpulse_billing_app_pu.Model.{Address, ok, Action, ◌>>=◌, pure, Customer, Invoice, put}
use factpulse_billing_app_pu.CustomerService.{CustomerData, enrich_customer_data, or_text}
use factpulse_billing_app_pu.FlowDetector.{customer_key}
use factpulse_billing_app_pu.StripeMapper.{extract_tax_id}
use factpulse_billing_app_pu.StripeMapper.Invoices.{MappedProduct, StripeInvoice}

-- an expanded customer, or its identifier; an empty one stands for none
pub record StripeCustomer : Type 0 where
  pub id : Text
  pub name : Text
  pub email : Text
  pub address : Option Address
  pub tax_ids : List Text

pub data CustomerField : Type 0 where
  expanded : StripeCustomer → CustomerField
  customer_id : Text → CustomerField

-- an invoice with its customer and what was paid of it, in cents
pub record StripeDocument : Type 0 where
  pub invoice : StripeInvoice
  pub customer : CustomerField
  pub amount_paid : Option ℤ

pub record ProviderConfig : Type 0 where
  pub organization : ℕ
  pub default_supplier : Option ℕ

-- a product of the catalogue
pub record CatalogProduct : Type 0 where
  pub organization : ℕ
  pub external_id : Option Text
  pub archived : Bool
  pub mapped : MappedProduct

-- `filter(...).first()` on invoices, the newest one first; new rows are at the end
unfoldable pub newest {ℓ} : {A : Type ℓ} → (A → Bool) → List A → Option A
newest test [] = none
newest test (a ∷ rows) = elim (newest test rows) [
  | some b ↦ some b
  | none ↦ if test a then some a else none
]

abbrev pub is_external : Text → Option Text → Bool
is_external id none = false
is_external id (some e) = e =ᵗ id

-- an invoice of the organization that is not deleted and has the external identifier
unfoldable pub is_import_of : ℕ → Text → Invoice → Bool
unfolding ◌=ᵗ◌
is_import_of organization id i =
    i.organization == organization && is_external id i.external_id && not i.deleted

abbrev pub stripe_address : Option Address → Option Address
stripe_address none = none
stripe_address (some a) = some (record {
  line_one = some (text_or_empty a.line_one);
  postal_code = some (text_or_empty a.postal_code);
  city = some (text_or_empty a.city);
  country_code = some (or_text (text_or_empty a.country_code) (codes "FR"));
})

-- the data that `import_customer` enriches
unfoldable pub data_of_customer : StripeCustomer → CustomerData
unfolding extract_tax_id enrich_customer_data
data_of_customer c = enrich_customer_data (record {
  customer_type = none;
  siren = [];
  vat_number = extract_tax_id c.tax_ids;
  address = stripe_address c.address;
  address_line1 = none;
  address_postcode = none;
  address_city = none;
  address_country = none;
  electronic_address = none;
  electronic_address_id = none;
})

unfoldable pub is_customer : ℕ → Text → Customer → Bool
unfolding ◌=ᵗ◌
is_customer organization id c = c.organization == organization && is_external id c.external_id

abbrev customer_row : ℕ → ℕ → StripeCustomer → Customer
customer_row pk organization c = record {
  pk = pk;
  organization = organization;
  external_id = some c.id;
  name = or_text c.name c.id;
  siren = [];
  siret = [];
  vat_number = (data_of_customer c).vat_number;
  customer_type = (data_of_customer c).customer_type;
  email = c.email;
  address = (data_of_customer c).address;
  electronic_address = none;
}

-- `import_customer`: `update_or_create` by the organization and the identifier
unfoldable pub import_customer : ℕ → StripeCustomer → Action ℕ
unfolding data_of_customer newest is_customer
import_customer organization c w = elim (newest (is_customer organization c.id) w.customers) [
  | some old ↦ (
    ok old.pk,
    record w {
      customers =
          put customer_key
            (record (customer_row old.pk organization c) {
              siren = old.siren;
              siret = old.siret;
              electronic_address = old.electronic_address;
            })
            w.customers;
    },
  )
  | none ↦ (
    ok w.next_pk,
    record w {
      customers = w.customers ++ customer_row w.next_pk organization c ∷ [];
      next_pk = w.next_pk + 1;
    },
  )
]

-- the customer that the flat fields of an invoice describe
abbrev flat_customer : Text → StripeInvoice → StripeCustomer
flat_customer id i = record {
  id = id;
  name = i.customer_name;
  email = i.customer_email;
  address = i.customer_address;
  tax_ids = i.customer_tax_ids;
}

-- `import_customer_from_invoice`, where the identifier is not empty
abbrev customer_in : StripeDocument → StripeCustomer
customer_in d = elim d.customer [ expanded c ↦ c | customer_id id ↦ flat_customer id d.invoice ]

abbrev id_in : StripeDocument → Text
id_in d = elim d.customer [ expanded c ↦ c.id | customer_id id ↦ id ]

-- the customer of an invoice, which is created where it is missing
unfoldable pub link_customer : ℕ → StripeDocument → Action (Option ℕ)
unfolding import_customer newest is_customer
link_customer organization d w =
    if not (truthy (id_in d))
    then (ok none, w)
    else elim (newest (is_customer organization (id_in d)) w.customers) [
      | some c ↦ (ok (some c.pk), w)
      | none ↦ (import_customer organization (customer_in d) >>= λ pk. pure (some pk)) w
    ]
