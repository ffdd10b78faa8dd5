-- ===== src/Samples.antt =====
-- Data for the tests: two suppliers of one organization, and their invoices.
use factpulse_billing_app_pu.Base.{true, false, none, some, List, [], ◌∷◌}
use factpulse_billing_app_pu.Base.Text.{Text, codes}
use factpulse_billing_app_pu.Base.Decimal.{Decimal}
use factpulse_billing_app_pu.Base.Date.{Date}
use factpulse_billing_app_pu.Base.Int.{pos}
use factpulse_billing_app_pu.Model.{
  Status, Flow, VatRegime, Organization, Supplier, Customer, Invoice, World, no_snapshot,
}
use factpulse_billing_app_pu.InvoiceService.CreditNote.{new_invoice, credit_note_type_code}

abbrev pub sample_date : Date
sample_date = record { year = 2026; month = 1; day = 31 }

-- the template engine of the tests
abbrev pub sample_render : Text → Date → Text
sample_render template day = codes "F-"

abbrev pub sample_organization : Organization
sample_organization = record {
  pk = 7;
  uuid = codes "u7";
  name = codes "ACME";
  slug = codes "acme";
  factpulse_client_uid = some (codes "uid");
}

abbrev pub sample_supplier : Supplier
sample_supplier = record {
  pk = 3;
  organization = 7;
  name = codes "ACME";
  siren = codes "123456789";
  siret = codes "12345678900011";
  vat_number = codes "FR12123456789";
  iban = codes "FR76";
  bic = codes "AGRI";
  email = codes "a@b.fr";
  legal_description = [];
  address = none;
  electronic_address = none;
  external_id = none;
  is_default = true;
  note_pmt = codes "40 EUR";
  note_pmd = [];
  note_aab = [];
  vat_regime = VatRegime.reel_normal_mensuel;
  default_vat_exemption_reason = [];
  default_vat_exemption_code = [];
  payment_terms_days = some 30;
  payment_terms_end_of_month = false;
}

abbrev pub amount_100 : Decimal
amount_100 = record { coeff = pos 10000; scale = 2 }

abbrev pub sample_draft : Invoice
sample_draft = record (new_invoice 1 7 3 none no_snapshot) {
  total_incl_tax = some amount_100;
  detected_flow = some Flow.b2c;
}

abbrev pub sample_processing : Invoice
sample_processing = record sample_draft { status = Status.processing; number = codes "F-001" }

abbrev pub sample_validated : Invoice
sample_validated = record sample_draft {
  status = Status.validated;
  number = codes "F-001";
  total_incl_tax = some amount_100;
}

abbrev pub sample_credit_note : Invoice
sample_credit_note = record (new_invoice 2 7 3 none no_snapshot) {
  status = Status.processing;
  number = codes "F-002";
  invoice_type_code = credit_note_type_code;
  total_incl_tax = some amount_100;
  preceding_invoice = some 1;
}

abbrev pub sample_world : World
sample_world = record {
  organizations = sample_organization ∷ [];
  suppliers = sample_supplier ∷ [];
  customers = [];
  invoices = [];
  sequences = [];
  counters = [];
  audit_logs = [];
  tasks = [];
  webhooks = [];
  signals = [];
  next_pk = 10;
  today = sample_date;
}

-- the database with these invoices
abbrev pub world_of : List Invoice → World
world_of invoices = record sample_world { invoices = invoices }

abbrev pub sample_customer : Customer
sample_customer = record {
  pk = 5;
  organization = 7;
  external_id = none;
  name = codes "Kunde";
  siren = [];
  siret = [];
  vat_number = [];
  customer_type = none;
  email = [];
  address = some (record {
    line_one = none;
    postal_code = none;
    city = none;
    country_code = some (codes "DE");
  });
  electronic_address = none;
}
