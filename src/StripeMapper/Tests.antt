-- ===== src/StripeMapper/Tests.antt =====
-- A credit note of one line.
use factpulse_billing_app_pu.Base.{false, none, some, [], ◌∷◌}
use factpulse_billing_app_pu.Base.Text.{codes}
use factpulse_billing_app_pu.Base.Int.{pos}
use factpulse_billing_app_pu.Base.Decimal.{Decimal}
use factpulse_billing_app_pu.StripeMapper.{StripeTax, CreditNote, Original}
use factpulse_billing_app_pu.Samples.{sample_date}

abbrev sample_tax : StripeTax
sample_tax = record {
  amount = some (pos 200);
  taxable_amount = some (pos 1000);
  inclusive = false;
  tax_behavior = codes "exclusive";
}

abbrev sample_credit_note : CreditNote
sample_credit_note = record {
  id = codes "cn_1";
  number = codes "INV-1-CN-01";
  currency = codes "eur";
  effective_at = none;
  created = some sample_date;
  total = pos 1200;
  total_taxes = sample_tax ∷ [];
  tax_amounts = [];
  lines = [];
}

abbrev sample_original : Original
sample_original = record {
  number = codes "INV-1";
  issue_date = some sample_date;
  payment_means = none;
  lines = [];
  supplier = none;
  customer = none;
  recipient = none;
}

abbrev first_operand : Decimal → Decimal → Decimal
first_operand a b = a
