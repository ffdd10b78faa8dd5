-- ===== src/Model/Data.antt =====
-- `Invoice.en16931_data`, the JSON snapshot of an invoice: one optional field for each key that
-- the code reads or writes. A key that is absent is `none`; keys that the code only passes on are
-- left out.
use factpulse_billing_app_pu.Base.{ℕ, Option, none, List}
use factpulse_billing_app_pu.Base.Text.{Text}
use factpulse_billing_app_pu.Base.Decimal.{Decimal}
use factpulse_billing_app_pu.Base.Date.{Date}

-- An amount stands in the JSON as a number or as a text. `dec d` is one that `Decimal(str(v))`
-- reads as `d`, `text s` one that it refuses.
pub data Amount : Type 0 where
  dec : Decimal → Amount
  text : Text → Amount

pub record Address : Type 0 where
  pub line_one : Option Text
  pub postal_code : Option Text
  pub city : Option Text
  pub country_code : Option Text

pub record ElectronicAddress : Type 0 where
  pub identifier : Option Text
  pub scheme_id : Option Text
  pub value : Option Text

-- `electronicAddress` is a dict or a plain text
pub data AddressField : Type 0 where
  address_dict : ElectronicAddress → AddressField
  address_text : Text → AddressField

pub record Party : Type 0 where
  pub name : Option Text
  pub siren : Option Text
  pub siret : Option Text
  pub vat_number : Option Text
  pub email : Option Text
  pub postal_address : Option Address
  pub electronic_address : Option AddressField
  pub iban : Option Text
  pub bic : Option Text
  pub legal_description : Option Text
  pub tax_registration_id : Option Text

pub record References : Type 0 where
  pub invoice_type : Option Text
  pub vat_accounting_code : Option Text
  pub invoice_currency : Option Text
  pub payment_means : Option Text
  pub issue_date : Option Date
  pub due_date : Option Date
  pub invoicing_framework : Option Text
  pub preceding_invoice_reference : Option Text
  pub preceding_invoice_date : Option Date

pub record Line : Type 0 where
  pub product_id : Option Text
  pub line_number : Option ℕ
  pub item_name : Option Text
  pub item_reference : Option Text
  pub item_description : Option Text
  pub unit : Option Text
  pub quantity_unit : Option Text
  pub quantity : Option Amount
  pub unit_price : Option Amount
  pub unit_net_price : Option Amount
  pub vat_rate : Option Amount
  pub manual_vat_rate : Option Amount
  pub vat_category : Option Text
  pub line_net_amount : Option Amount
  pub exemption_reason : Option Text
  pub vatex_code : Option Text

pub record Totals : Type 0 where
  pub total_net_amount : Option Amount
  pub vat_amount : Option Amount
  pub total_gross_amount : Option Amount
  pub amount_due : Option Amount
  pub prepayment : Option Amount

pub record VatLine : Type 0 where
  pub taxable_amount : Amount
  pub manual_rate : Amount
  pub vat_amount : Amount
  pub category : Text
  pub exemption_reason : Text
  pub vatex_code : Text

pub record Note : Type 0 where
  pub subject_code : Text
  pub content : Text

pub record Snapshot : Type 0 where
  pub invoice_number : Option Text
  pub invoice_date : Option Date
  pub payment_due_date : Option Date
  pub supplier : Option Party
  pub recipient : Option Party
  pub references : Option References
  pub invoice_lines : Option (List Line)
  pub totals : Option Totals
  pub vat_lines : Option (List VatLine)
  pub notes : Option (List Note)

-- `{}`
abbrev pub no_address : Address
no_address = record { line_one = none; postal_code = none; city = none; country_code = none }

abbrev pub no_party : Party
no_party = record {
  name = none;
  siren = none;
  siret = none;
  vat_number = none;
  email = none;
  postal_address = none;
  electronic_address = none;
  iban = none;
  bic = none;
  legal_description = none;
  tax_registration_id = none;
}

abbrev pub no_references : References
no_references = record {
  invoice_type = none;
  vat_accounting_code = none;
  invoice_currency = none;
  payment_means = none;
  issue_date = none;
  due_date = none;
  invoicing_framework = none;
  preceding_invoice_reference = none;
  preceding_invoice_date = none;
}

abbrev pub no_totals : Totals
no_totals = record {
  total_net_amount = none;
  vat_amount = none;
  total_gross_amount = none;
  amount_due = none;
  prepayment = none;
}

abbrev pub no_line : Line
no_line = record {
  product_id = none;
  line_number = none;
  item_name = none;
  item_reference = none;
  item_description = none;
  unit = none;
  quantity_unit = none;
  quantity = none;
  unit_price = none;
  unit_net_price = none;
  vat_rate = none;
  manual_vat_rate = none;
  vat_category = none;
  line_net_amount = none;
  exemption_reason = none;
  vatex_code = none;
}

abbrev pub no_snapshot : Snapshot
no_snapshot = record {
  invoice_number = none;
  invoice_date = none;
  payment_due_date = none;
  supplier = none;
  recipient = none;
  references = none;
  invoice_lines = none;
  totals = none;
  vat_lines = none;
  notes = none;
}
