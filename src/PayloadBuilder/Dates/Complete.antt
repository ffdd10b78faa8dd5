-- ===== src/PayloadBuilder/Dates/Complete.antt =====
-- The last steps of the enrichment fill what is missing, and only that.
use factpulse_billing_app_pu.Base.{◌≡◌, refl, ap, Option, none, some, arith, if◌then◌else◌}
use factpulse_billing_app_pu.Base.Text.{upper, lower, codes}
use factpulse_billing_app_pu.Base.Date.{
  Date, days_in_month, previous_day, add_days, HasMonth, add_days-HasMonth,
}
use factpulse_billing_app_pu.Model.{Supplier, Snapshot, references_of}
use factpulse_billing_app_pu.PayloadBuilder.Dates.{
  terms_of, month_end, compute_due_date, enrich_dates, set_default, copied, enrich_references,
  supplier_notes, enrich_notes, fill_missing,
}

-- the end of a month
pub month_end_lem :
    (due : Date)
    → HasMonth due
    → month_end due ≡ record due { day = days_in_month due.year due.month }
unfolding month_end previous_day days_in_month
month_end_lem due (lower, upper) = ground (arith, lower, upper)

-- For an issue date with a month from 1 to 12, the due date is the day that is the payment terms of
-- the supplier later, thirty days where it has none or 0, or, where the terms say so, the last day
-- of that month.
pub compute_due_date_lem :
    (issue_date : Date) (supplier : Supplier)
    → HasMonth issue_date
    → let due = add_days (terms_of supplier.payment_terms_days) issue_date in
      compute_due_date issue_date (some supplier) ≡ (
        if supplier.payment_terms_end_of_month
        then record due { day = days_in_month due.year due.month }
        else due)
unfolding compute_due_date
compute_due_date_lem issue_date supplier h =
    ap (λ d. if supplier.payment_terms_end_of_month then d else due)
      (month_end_lem due (add_days-HasMonth (terms_of supplier.payment_terms_days) issue_date h))
  where
    due : Date
    due = add_days (terms_of supplier.payment_terms_days) issue_date

default_twice :
    {A : Type 0} (v : A) (o : Option A) → set_default v (set_default v o) ≡ set_default v o
default_twice v none = refl
default_twice v (some a) = refl

copied_twice :
    {A : Type 0} (o source : Option A) → copied (copied o source) source ≡ copied o source
copied_twice (some a) source = refl
copied_twice none none = refl
copied_twice none (some b) = refl

-- When the dates, references and notes that are missing were filled in, doing so again for the same
-- supplier, on whatever day, changes nothing.
pub fill_missing_once :
    (today later : Date) (supplier : Option Supplier) (en : Snapshot)
    → fill_missing later supplier (fill_missing today supplier en) ≡ fill_missing today supplier en
unfolding fill_missing enrich_dates enrich_references enrich_notes
fill_missing_once today later supplier en =
    let refs = references_of en.references in
    ground (
      arith,
      default_twice (codes "380") refs.invoice_type,
      default_twice (codes "TVA_SUR_DEBIT") refs.vat_accounting_code,
      default_twice (codes "EUR") refs.invoice_currency,
      default_twice (codes "VIREMENT") refs.payment_means,
      copied_twice en.notes (supplier_notes supplier),
    )
