-- ===== src/StripeMapper.antt =====
-- apps/payments/providers/stripe/mapper.py: invoices and credit notes of Stripe as payloads. Amounts
-- are whole cents. The quotient of two decimals is a parameter, since it is rounded to the digits of
-- the decimal context.
pub mod Amounts
pub mod Invoices
mod Tests
use factpulse_billing_app_pu.Base.{
  ℕ, ◌+◌, Bool, true, false, not, ◌&&◌, ◌||◌, Option, none, some, List, [], ◌∷◌, ◌++◌, ◌==◌,
  if◌then◌else◌, or_else, any,
}
use factpulse_billing_app_pu.Base.Text.{upper, Text, codes, ◌=ᵗ◌, truthy, str_nat}
use factpulse_billing_app_pu.Base.Int.{ℤ, pos, negsuc, ◌+ℤ◌, ◌-ℤ◌, ◌*ℤ◌}
use factpulse_billing_app_pu.Base.Date.{Date}
use factpulse_billing_app_pu.Base.Decimal.{
  Decimal, quantize_half_even, percent, is_pos_dec, eq_dec, ◌-ᵈ◌,
}
use factpulse_billing_app_pu.Model.{
  Line, no_line, Totals, no_totals, dec, References, no_references, Party,
}

abbrev pub whole_dec : ℤ → Decimal
whole_dec z = record { coeff = z; scale = 0 }

-- `x or 0` and `x or 1` of a number that may be missing
abbrev pub or_zero : Option ℤ → ℤ
or_zero none = pos 0
or_zero (some z) = z

abbrev pub or_one : Option ℕ → ℕ
or_one none = 1
or_one (some n) = if n == 0 then 1 else n

-- `_cents_to_decimal`
unfoldable pub cents_to_decimal : ℤ → Decimal
unfolding quantize_half_even percent
cents_to_decimal cents = quantize_half_even (percent (whole_dec cents))

-- a tax of a line, in both formats of the API
pub record StripeTax : Type 0 where
  pub amount : Option ℤ
  pub taxable_amount : Option ℤ
  pub inclusive : Bool
  pub tax_behavior : Text

-- a line of a credit note
pub record CreditLine : Type 0 where
  pub description : Text
  pub quantity : Option ℕ
  pub amount : Option ℤ
  pub taxes : List StripeTax
  pub tax_amounts : List StripeTax
  pub tax_rates : List (Option Decimal)
  pub discount_amounts : List (Option ℤ)

abbrev pub is_inclusive : StripeTax → Bool
is_inclusive t = t.inclusive || (t.tax_behavior =ᵗ codes "inclusive")

-- `_sum_tax_amounts`
unfoldable pub sum_tax_amounts : Bool → List StripeTax → ℤ
unfolding ◌+ℤ◌ ◌=ᵗ◌
sum_tax_amounts inclusive_only [] = pos 0
sum_tax_amounts inclusive_only (t ∷ taxes) =
    let rest = sum_tax_amounts inclusive_only taxes in
    if inclusive_only && not (is_inclusive t) then rest else or_zero t.amount +ℤ rest

unfoldable pub sum_taxable : List StripeTax → ℤ
unfolding ◌+ℤ◌
sum_taxable [] = pos 0
sum_taxable (t ∷ taxes) = or_zero t.taxable_amount +ℤ sum_taxable taxes

-- `_sum_discounts`
unfoldable pub sum_discounts : List (Option ℤ) → ℤ
unfolding ◌+ℤ◌
sum_discounts [] = pos 0
sum_discounts (d ∷ discounts) = or_zero d +ℤ sum_discounts discounts

-- `a or b` of two lists
abbrev pub or_list : {A : Type 0} → List A → List A → List A
or_list [] ys = ys
or_list (x ∷ xs) ys = x ∷ xs

abbrev pub is_zero : ℤ → Bool
is_zero (pos n) = n == 0
is_zero (negsuc n) = false

abbrev pub first_rate : List (Option Decimal) → Option Decimal
first_rate [] = none
first_rate (some d ∷ rates) = some d
first_rate (none ∷ rates) = first_rate rates

abbrev pub zero_rate : Decimal
zero_rate = record { coeff = pos 0; scale = 2 }

-- the category and the exemption of an original line where it has them
abbrev pub or_original : Option Text → Option Text → Option Text
or_original none own = own
or_original (some t) own = if truthy t then some t else own

-- `"S" if rate > 0 else "Z"`
abbrev pub category_of : Decimal → Text
category_of rate = if is_pos_dec rate then codes "S" else codes "Z"

-- The rate of an original line; one that is missing or empty counts as 0. A text that is no number,
-- which raises, is left out.
abbrev pub rate_of_line : Line → Decimal
rate_of_line line = elim line.manual_vat_rate [ some (dec d) ↦ d | _ ↦ whole_dec (pos 0) ]

-- the loop over the original lines, which ends at the first with the rate
unfoldable pub mirror : List Line → Decimal → Line → Line
unfolding eq_dec
mirror [] rate line = line
mirror (original ∷ originals) rate line =
    if eq_dec (rate_of_line original) rate
    then record line {
      vat_category = or_original original.vat_category line.vat_category;
      exemption_reason = or_original original.exemption_reason line.exemption_reason;
      vatex_code = or_original original.vatex_code line.vatex_code;
    }
    else mirror originals rate line

module _ (divide : Decimal → Decimal → Decimal) where
  -- `_credit_note_line_rate`
  unfoldable pub credit_note_line_rate : CreditLine → List StripeTax → Decimal
  unfolding sum_tax_amounts sum_taxable quantize_half_even ◌*ℤ◌
  credit_note_line_rate item taxes = elim (first_rate item.tax_rates) [
    | some percentage ↦ quantize_half_even percentage
    | none ↦
        let tax = sum_tax_amounts false taxes in
        let taxable = sum_taxable taxes in
        if is_zero tax || is_zero taxable
        then zero_rate
        else quantize_half_even (divide (whole_dec (tax *ℤ pos 100)) (whole_dec taxable))
  ]

  -- the amount of a credit note line, without discounts and inclusive taxes
  unfoldable pub credit_line_amount : CreditLine → List StripeTax → Decimal
  unfolding sum_tax_amounts sum_discounts cents_to_decimal ◌-ℤ◌
  credit_line_amount item taxes =
      cents_to_decimal
        (or_zero item.amount -ℤ sum_discounts item.discount_amounts -ℤ sum_tax_amounts true taxes)

  -- one line of `_map_credit_note_lines`; `i` counts from 1
  unfoldable pub credit_line : ℕ → List Line → CreditLine → Line
  unfolding credit_note_line_rate credit_line_amount mirror str_nat
  credit_line i originals item =
      let taxes = or_list item.taxes item.tax_amounts in
      let amount = credit_line_amount item taxes in
      let rate = credit_note_line_rate item taxes in
      mirror originals rate (record no_line {
        line_number = some i;
        item_name = some (
            if truthy item.description
            then item.description
            else codes "Stripe item #" ++ str_nat i);
        quantity = some (dec (whole_dec (pos (or_one item.quantity))));
        unit_net_price = some (dec (divide amount (whole_dec (pos (or_one item.quantity)))));
        line_net_amount = some (dec amount);
        manual_vat_rate = some (dec rate);
        vat_category = some (category_of rate);
      })

  -- `_map_credit_note_lines`
  unfoldable pub map_credit_note_lines : ℕ → List Line → List CreditLine → List Line
  unfolding credit_line
  map_credit_note_lines i originals [] = []
  map_credit_note_lines i originals (item ∷ items) =
      credit_line i originals item ∷ map_credit_note_lines (i + 1) originals items

-- A credit note, with the dates that `_ts_to_date` reads from its time stamps.
pub record CreditNote : Type 0 where
  pub id : Text
  pub number : Text
  pub currency : Text
  pub effective_at : Option Date
  pub created : Option Date
  pub total : ℤ
  pub total_taxes : List StripeTax
  pub tax_amounts : List StripeTax
  pub lines : List CreditLine

-- what the mapper reads of the credited invoice
pub record Original : Type 0 where
  pub number : Text
  pub issue_date : Option Date
  pub payment_means : Option Text
  pub lines : List Line
  pub supplier : Option Text
  pub customer : Option Text
  pub recipient : Option Party

-- the payload of `create_invoice`
pub record Payload : Type 0 where
  pub references : References
  pub recipient : Option Party
  pub invoice_lines : List Line
  pub totals : Totals
  pub external_id : Text
  pub number : Text
  pub is_internal : Bool
  pub supplier_id : Option Text
  pub customer_id : Option Text

abbrev pub currency_of : Text → Text
currency_of [] = codes "EUR"
currency_of (c ∷ s) = upper (c ∷ s)

abbrev pub optional_number : Text → Option Text
optional_number [] = none
optional_number (c ∷ s) = some (c ∷ s)

unfoldable pub totals_of_cents : ℤ → ℤ → Totals
unfolding cents_to_decimal ◌-ᵈ◌
totals_of_cents total tax = record no_totals {
  total_net_amount = some (dec (cents_to_decimal total -ᵈ cents_to_decimal tax));
  vat_amount = some (dec (cents_to_decimal tax));
  total_gross_amount = some (dec (cents_to_decimal total));
  amount_due = some (dec (cents_to_decimal total));
}

-- `stripe_credit_note_to_payload`
unfoldable pub stripe_credit_note_to_payload :
    (Decimal → Decimal → Decimal) → Date → CreditNote → Original → Payload
unfolding map_credit_note_lines totals_of_cents sum_tax_amounts upper
stripe_credit_note_to_payload divide today note original = record {
  references = record no_references {
    invoice_type = some (codes "381");
    issue_date = some (or_else note.effective_at (or_else note.created today));
    invoice_currency = some (currency_of note.currency);
    payment_means = some (or_else original.payment_means (codes "VIREMENT"));
    preceding_invoice_reference = optional_number original.number;
    preceding_invoice_date = original.issue_date;
  };
  recipient = elim original.customer [ some c ↦ none | none ↦ original.recipient ];
  invoice_lines = map_credit_note_lines divide 1 original.lines note.lines;
  totals =
      totals_of_cents note.total
        (sum_tax_amounts false (or_list note.total_taxes note.tax_amounts));
  external_id = note.id;
  number = note.number;
  is_internal = true;
  supplier_id = original.supplier;
  customer_id = original.customer;
}

-- `_resolve_payment_means`
unfoldable pub resolve_payment_means : List Text → Text → Text
unfolding ◌=ᵗ◌
resolve_payment_means types collection_method =
    if any (λ t. t =ᵗ codes "card") types
    then codes "CARTE"
    else if any (λ t. t =ᵗ codes "sepa_debit") types
    then codes "PRELEVEMENT"
    else from types
  where
    from : List Text → Text
    from (t ∷ ts) = codes "VIREMENT"
    from [] =
        if collection_method =ᵗ codes "charge_automatically"
        then codes "CARTE"
        else codes "VIREMENT"

-- `_resolve_issue_date`, on the dates of the time stamps
abbrev pub resolve_issue_date : Option Date → Option Date → Option Date → Option Date
resolve_issue_date (some d) _ _ = some d
resolve_issue_date none (some d) _ = some d
resolve_issue_date none none created = created

-- `_extract_tax_id`
unfoldable pub extract_tax_id : List Text → Text
extract_tax_id [] = []
extract_tax_id (t ∷ tax_ids) = if truthy t then t else extract_tax_id tax_ids
