-- ===== src/StripeMapper/Invoices.antt =====
-- Stripe's invoices as payloads: `_map_line_items` and `stripe_invoice_to_payload`.
use factpulse_billing_app_pu.Base.{
  ℕ, ◌+◌, true, Option, none, some, List, [], ◌∷◌, ◌++◌, if◌then◌else◌, or_else,
}
use factpulse_billing_app_pu.Base.Text.{upper, text_or_empty, Text, codes, truthy, str_nat}
use factpulse_billing_app_pu.Base.Int.{ℤ, pos}
use factpulse_billing_app_pu.Base.Date.{Date}
use factpulse_billing_app_pu.Base.Decimal.{Decimal}
use factpulse_billing_app_pu.Model.{Line, no_line, no_totals, dec, no_references, no_party, Address}
use factpulse_billing_app_pu.StripeMapper.{
  whole_dec, or_zero, or_one, cents_to_decimal, zero_rate, category_of, Payload, currency_of,
  resolve_payment_means, resolve_issue_date, extract_tax_id,
}

-- `tax_rate` of a tax amount: an object, with a percentage or without, or the identifier of one
pub data TaxRate : Type 0 where
  rate_object : Option Decimal → TaxRate
  rate_id : Text → TaxRate

pub record InvoiceItem : Type 0 where
  pub description : Text
  pub quantity : Option ℕ
  pub amount : ℤ
  pub product_id : Text
  pub tax_amounts : List TaxRate

-- what the mapper reads of a product of the catalogue
pub record MappedProduct : Type 0 where
  pub name : Text
  pub default_vat_rate : Option Decimal
  pub default_unit : Text
  pub reference : Text

-- the rate that Stripe's data give
unfoldable pub stripe_rate : List TaxRate → Decimal
stripe_rate [] = zero_rate
stripe_rate (rate_object none ∷ _) = whole_dec (pos 0)
stripe_rate (rate_object (some percentage) ∷ _) = percentage
stripe_rate (rate_id _ ∷ _) = record { coeff = pos 2000; scale = 2 }

abbrev pub product_rate : Option MappedProduct → List TaxRate → Decimal
product_rate none taxes = stripe_rate taxes
product_rate (some p) taxes = or_else p.default_vat_rate (stripe_rate taxes)

abbrev pub optional_text : Text → Option Text
optional_text t = if truthy t then some t else none

abbrev pub unit_of : Option MappedProduct → Option Text
unit_of none = none
unit_of (some p) = optional_text p.default_unit

abbrev pub reference_of : Option MappedProduct → Option Text
reference_of none = none
reference_of (some p) = optional_text p.reference

abbrev pub name_of : Option MappedProduct → ℕ → Text
name_of none i = codes "Stripe item #" ++ str_nat i
name_of (some p) i = p.name

module _ (divide : Decimal → Decimal → Decimal) (product_map : Text → Option MappedProduct) where
  -- one line of `_map_line_items`; an empty identifier is not looked up
  unfoldable pub line_item : ℕ → InvoiceItem → Line
  unfolding stripe_rate cents_to_decimal str_nat
  line_item i item =
      let product = if truthy item.product_id then product_map item.product_id else none in
      let rate = product_rate product item.tax_amounts in
      let amount = cents_to_decimal item.amount in
      record no_line {
        line_number = some i;
        item_name = some (if truthy item.description then item.description else name_of product i);
        quantity = some (dec (whole_dec (pos (or_one item.quantity))));
        unit_net_price = some (dec (divide amount (whole_dec (pos (or_one item.quantity)))));
        line_net_amount = some (dec amount);
        manual_vat_rate = some (dec rate);
        vat_category = some (category_of rate);
        quantity_unit = unit_of product;
        item_reference = reference_of product;
      }

  unfoldable pub map_line_items : ℕ → List InvoiceItem → List Line
  unfolding line_item
  map_line_items i [] = []
  map_line_items i (item ∷ items) = line_item i item ∷ map_line_items (i + 1) items

-- An invoice of Stripe, with the dates of its time stamps.
pub record StripeInvoice : Type 0 where
  pub id : Text
  pub number : Text
  pub currency : Text
  pub total : ℤ
  pub subtotal : ℤ
  pub tax : Option ℤ
  pub finalized_at : Option Date
  pub effective_at : Option Date
  pub created : Option Date
  pub due_date : Option Date
  pub customer_name : Text
  pub customer_email : Text
  pub customer_address : Option Address
  pub customer_tax_ids : List Text
  pub payment_method_types : List Text
  pub collection_method : Text
  pub items : List InvoiceItem

-- every key of the address, empty where Stripe has none
abbrev pub full_address : Address → Address
full_address a = record {
  line_one = some (text_or_empty a.line_one);
  postal_code = some (text_or_empty a.postal_code);
  city = some (text_or_empty a.city);
  country_code = some (text_or_empty a.country_code);
}

abbrev pub mapped_address : Option Address → Option Address
mapped_address none = none
mapped_address (some a) = some (full_address a)

-- `stripe_invoice_to_payload`; `supplier` is the UUID of the provider's default supplier
unfoldable pub stripe_invoice_to_payload :
    (Decimal → Decimal → Decimal)
    → (Text → Option MappedProduct)
    → Option Text
    → Date
    → StripeInvoice
    → Payload
unfolding map_line_items cents_to_decimal resolve_payment_means extract_tax_id upper
stripe_invoice_to_payload divide product_map supplier today invoice = record {
  references = record no_references {
    invoice_type = some (codes "FACTURE");
    issue_date = some (
        or_else (resolve_issue_date invoice.finalized_at invoice.effective_at invoice.created)
          today);
    invoice_currency = some (currency_of invoice.currency);
    payment_means =
        some (resolve_payment_means invoice.payment_method_types invoice.collection_method);
    due_date = invoice.due_date;
  };
  recipient = some (record no_party {
    name = some invoice.customer_name;
    email = some invoice.customer_email;
    postal_address = mapped_address invoice.customer_address;
    vat_number = optional_text (extract_tax_id invoice.customer_tax_ids);
  });
  invoice_lines = map_line_items divide product_map 1 invoice.items;
  totals = record no_totals {
    total_net_amount = some (dec (cents_to_decimal invoice.subtotal));
    vat_amount = some (dec (cents_to_decimal (or_zero invoice.tax)));
    total_gross_amount = some (dec (cents_to_decimal invoice.total));
    amount_due = some (dec (cents_to_decimal invoice.total));
  };
  external_id = invoice.id;
  number = invoice.number;
  is_internal = true;
  supplier_id = supplier;
  customer_id = none;
}
