-- ===== src/PayloadBuilder/Totals.antt =====
-- `_enrich_totals` of payload_builder.py: one bucket for each VAT rate and category.
use factpulse_billing_app_pu.Base.{
  Bool, false, ◌&&◌, Option, none, some, List, [], ◌∷◌, ◌==◌, if◌then◌else◌, is_some, or_else,
}
use factpulse_billing_app_pu.Base.Text.{text_or_empty, Text, codes, ◌=ᵗ◌, truthy}
use factpulse_billing_app_pu.Base.Int.{eq_ℤ}
use factpulse_billing_app_pu.Base.Decimal.{Decimal, zero_dec, ◌+ᵈ◌, ◌*ᵈ◌, percent, quantize_half_up}
use factpulse_billing_app_pu.Model.{
  Amount, dec, text, Line, Totals, VatLine, Snapshot, no_totals, Result, ok, err,
}
use factpulse_billing_app_pu.PayloadBuilder.Lines.{whole, read_amount}

-- the keys compare the texts of the rates: "20" and "20.0" are two rates
unfoldable pub same_amount : Amount → Amount → Bool
unfolding ◌=ᵗ◌
same_amount (dec a) (dec b) = eq_ℤ a.coeff b.coeff && (a.scale == b.scale)
same_amount (text a) (text b) = a =ᵗ b
same_amount _ _ = false

pub record Bucket : Type 0 where
  pub rate : Amount
  pub category : Text
  pub base : Decimal
  pub exemption_reason : Option Text
  pub vatex_code : Option Text

-- `if line.get(key): bucket.setdefault(key, line[key])`
abbrev set_text : Option Text → Option Text → Option Text
set_text (some t) given = some t
set_text none given = if truthy (text_or_empty given) then given else none

abbrev put_in : Line → Decimal → Bucket → Bucket
put_in line net bucket = record bucket {
  base = bucket.base +ᵈ net;
  exemption_reason = set_text bucket.exemption_reason line.exemption_reason;
  vatex_code = set_text bucket.vatex_code line.vatex_code;
}

abbrev rate_of : Line → Amount
rate_of line = or_else line.manual_vat_rate (dec (whole 20))

abbrev category_of : Line → Text
category_of line = or_else line.vat_category (codes "S")

abbrev empty_bucket : Line → Bucket
empty_bucket line = record {
  rate = rate_of line;
  category = category_of line;
  base = zero_dec;
  exemption_reason = none;
  vatex_code = none;
}

-- `vat_buckets.setdefault(key, ...)` and what the loop adds to the bucket
unfoldable pub add_to_bucket : Line → Decimal → List Bucket → List Bucket
unfolding same_amount ◌=ᵗ◌
add_to_bucket line net [] = put_in line net (empty_bucket line) ∷ []
add_to_bucket line net (b ∷ buckets) =
    if same_amount b.rate (rate_of line) && (b.category =ᵗ category_of line)
    then put_in line net b ∷ buckets
    else b ∷ add_to_bucket line net buckets

-- the first loop
unfoldable pub fill_buckets : List Line → Decimal → List Bucket → Result (Decimal × List Bucket)
unfolding add_to_bucket
fill_buckets [] total_net buckets = ok (total_net, buckets)
fill_buckets (line ∷ lines) total_net buckets = elim (read_amount line.line_net_amount zero_dec) [
  | err e ↦ err e
  | ok net ↦ fill_buckets lines (total_net +ᵈ net) (add_to_bucket line net buckets)
]

-- base × rate / 100, to the cent
abbrev pub vat_of : Decimal → Decimal → Decimal
vat_of base rate = quantize_half_up (percent (base *ᵈ rate))

abbrev pub vat_line_of : Bucket → Decimal → VatLine
vat_line_of b vat = record {
  taxable_amount = dec b.base;
  manual_rate = b.rate;
  vat_amount = dec vat;
  category = b.category;
  exemption_reason = text_or_empty b.exemption_reason;
  vatex_code = text_or_empty b.vatex_code;
}

abbrev pub add_vat_line :
    VatLine → Result (Decimal × List VatLine) → Result (Decimal × List VatLine)
add_vat_line v (ok (total, vs)) = ok (total, v ∷ vs)
add_vat_line v (err e) = err e

-- the second loop
unfoldable pub vat_lines_of : List Bucket → Decimal → Result (Decimal × List VatLine)
vat_lines_of [] total_vat = ok (total_vat, [])
vat_lines_of (b ∷ buckets) total_vat = elim (read_amount (some b.rate) zero_dec) [
  | err e ↦ err e
  | ok rate ↦
      add_vat_line (vat_line_of b (vat_of b.base rate))
        (vat_lines_of buckets (total_vat +ᵈ vat_of b.base rate))
]

abbrev pub computed_totals : Decimal → Decimal → Totals
computed_totals total_net total_vat = record no_totals {
  total_net_amount = some (dec total_net);
  vat_amount = some (dec total_vat);
  total_gross_amount = some (dec (total_net +ᵈ total_vat));
  amount_due = some (dec (total_net +ᵈ total_vat));
}

abbrev pub with_totals : Snapshot → Decimal → Decimal → List VatLine → Snapshot
with_totals en total_net total_vat lines = record en {
  totals = elim en.totals [ some t ↦ some t | none ↦ some (computed_totals total_net total_vat) ];
  vat_lines = elim en.vat_lines [ some v ↦ some v | none ↦ some lines ];
}

unfoldable pub compute_totals : Snapshot → Result Snapshot
compute_totals en = elim (fill_buckets (or_else en.invoice_lines []) zero_dec []) [
  | err e ↦ err e
  | ok filled ↦ elim (vat_lines_of filled.1 zero_dec) [
    | err e ↦ err e
    | ok vat ↦ ok (with_totals en filled.0 vat.0 vat.1)
  ]
]

unfoldable pub enrich_totals : Snapshot → Result Snapshot
unfolding compute_totals
enrich_totals en = if is_some en.totals && is_some en.vat_lines then ok en else compute_totals en
