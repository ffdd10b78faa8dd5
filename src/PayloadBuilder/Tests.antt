-- ===== src/PayloadBuilder/Tests.antt =====
-- Tests of the enrichment, on an invoice of two lines at two rates.
use factpulse_billing_app_pu.Samples.{sample_date, sample_supplier}
use factpulse_billing_app_pu.Base.{true, ℕ, ◌≡◌, refl, some, List, [], ◌∷◌}
use factpulse_billing_app_pu.Model.{
  dec, Line, Totals, VatLine, Snapshot, no_line, no_snapshot, Result, ok, err,
}
use factpulse_billing_app_pu.PayloadBuilder.Dates.{compute_due_date, month_end}
use factpulse_billing_app_pu.Base.Date.{add_days, next_day, previous_day, days_in_month}
use factpulse_billing_app_pu.PayloadBuilder.Lines.{whole, read_amount}
use factpulse_billing_app_pu.PayloadBuilder.Totals.{
  enrich_totals, compute_totals, fill_buckets, vat_lines_of,
}
use factpulse_billing_app_pu.PayloadBuilder.Balance.{Balanced, computed_totals-Balanced}

abbrev line_at : ℕ → ℕ → Line
line_at net rate = record no_line {
  line_net_amount = some (dec (whole net));
  manual_vat_rate = some (dec (whole rate));
}

abbrev two_lines : List Line
two_lines = line_at 100 20 ∷ line_at 50 10 ∷ []

abbrev two_line_snapshot : Snapshot
two_line_snapshot = record no_snapshot { invoice_lines = some two_lines }

abbrev snapshot_of : Result Snapshot → Snapshot
snapshot_of (ok en) = en
snapshot_of (err _) = no_snapshot

abbrev enriched_snapshot : Snapshot
enriched_snapshot = snapshot_of (enrich_totals two_line_snapshot)

computed_totals-Balanced_example :
    (t : Totals) × (vs : List VatLine) × (enriched_snapshot.totals ≡ some t)
    × (enriched_snapshot.vat_lines ≡ some vs)
    × Balanced two_lines t vs
unfolding enrich_totals compute_totals fill_buckets vat_lines_of read_amount
computed_totals-Balanced_example =
    computed_totals-Balanced two_line_snapshot enriched_snapshot refl refl refl

abbrev plain_line : Line
plain_line = record no_line { quantity = some (dec (whole 3)); unit_price = some (dec (whole 7)) }

abbrev line_of : Result Line → Line
line_of (ok l) = l
line_of (err _) = no_line

-- thirty days after 31 January, at the end of the month
compute_due_date_test :
    compute_due_date sample_date
      (some (record sample_supplier { payment_terms_end_of_month = true }))
    ≡ record { year = 2026; month = 3; day = 31 }
unfolding compute_due_date add_days next_day month_end previous_day days_in_month
compute_due_date_test = refl
