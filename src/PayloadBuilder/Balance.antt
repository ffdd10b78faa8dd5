-- ===== src/PayloadBuilder/Balance.antt =====
-- The totals and the VAT lines that are computed agree with each other and with the lines.
use factpulse_billing_app_pu.Base.{
  ◌≡◌, refl, sym, ap, subst, ◌∙◌, Option, none, some, List, [], ◌∷◌, map, arith, or_else, All,
}
use factpulse_billing_app_pu.Base.Decimal.{Decimal, zero_dec, ◌+ᵈ◌, +ᵈ_comm, +ᵈ_assoc, zero-+ᵈ}
use factpulse_billing_app_pu.Model.{
  Amount, dec, text, Line, Totals, VatLine, Snapshot, Result, ok, err, ok-injective, result_step,
}
use factpulse_billing_app_pu.PayloadBuilder.Lines.{read_amount}
use factpulse_billing_app_pu.PayloadBuilder.Rates.{IsVat, vat_of-IsVat}
use factpulse_billing_app_pu.PayloadBuilder.Totals.{
  Bucket, add_to_bucket, add_vat_line, fill_buckets, vat_of, vat_line_of, vat_lines_of, with_totals,
  compute_totals, enrich_totals, computed_totals,
}

-- the number that an amount stands for, 0 for a text
abbrev pub value_of : Amount → Decimal
value_of (dec d) = d
value_of (text _) = zero_dec

unfoldable pub sum_dec : List Decimal → Decimal
sum_dec [] = zero_dec
sum_dec (d ∷ ds) = d +ᵈ sum_dec ds

abbrev pub net_of : Line → Decimal
net_of line = value_of (or_else line.line_net_amount (dec zero_dec))

-- the VAT of a line is a decimal, that of its base at its rate
abbrev pub HasOwnVat : VatLine → Type 0
HasOwnVat v =
    (vat : Decimal) × (v.vat_amount ≡ dec vat)
    × IsVat (value_of v.taxable_amount) (value_of v.manual_rate) vat

-- the three sums agree, and every VAT line has the VAT of its own base
pub record Balanced (lines : List Line) (t : Totals) (vs : List VatLine) : Type 0 where
  pub net : Decimal
  pub vat : Decimal
  pub net_is_sum : net ≡ sum_dec (map net_of lines)
  pub bases : sum_dec (map (λ (v : VatLine). value_of v.taxable_amount) vs) ≡ net
  pub vats : sum_dec (map (λ (v : VatLine). value_of v.vat_amount) vs) ≡ vat
  pub each : All HasOwnVat vs
  pub total_net : t.total_net_amount ≡ some (dec net)
  pub total_vat : t.vat_amount ≡ some (dec vat)
  pub total_gross : t.total_gross_amount ≡ some (dec (net +ᵈ vat))
  pub due : t.amount_due ≡ some (dec (net +ᵈ vat))

+ᵈ-zero : (a : Decimal) → a +ᵈ zero_dec ≡ a
+ᵈ-zero a = +ᵈ_comm a zero_dec ∙ zero-+ᵈ a

base_of : Bucket → Decimal
base_of b = b.base

move_front : (a b c : Decimal) → a +ᵈ b +ᵈ c ≡ b +ᵈ (a +ᵈ c)
move_front a b c = ap (λ x. x +ᵈ c) (+ᵈ_comm a b) ∙ +ᵈ_assoc b a c

swap_front : (a b c : Decimal) → a +ᵈ (b +ᵈ c) ≡ b +ᵈ (a +ᵈ c)
swap_front a b c = sym (+ᵈ_assoc a b c) ∙ move_front a b c

-- A line adds its net amount to the sum of the bases.
sum_bases-add :
    (line : Line) (net : Decimal) (buckets : List Bucket)
    → sum_dec (map base_of (add_to_bucket line net buckets)) ≡ net +ᵈ sum_dec (map base_of buckets)
unfolding add_to_bucket sum_dec base_of
sum_bases-add line net [] = ap (λ a. a +ᵈ zero_dec) (zero-+ᵈ net)
sum_bases-add line net (b ∷ buckets) =
    let s = sum_dec (map base_of buckets) in
    let later : b.base +ᵈ sum_dec (map base_of (add_to_bucket line net buckets))
        ≡ net +ᵈ (b.base +ᵈ s) =
      ap (λ x. b.base +ᵈ x) (sum_bases-add line net buckets) ∙ swap_front b.base net s in
    ground (arith, move_front b.base net s, later)

read_value :
    (o : Option Amount) (n : Decimal)
    → read_amount o zero_dec ≡ ok n
    → value_of (or_else o (dec zero_dec)) ≡ n
unfolding read_amount
read_value o n h = ground arith

-- the second half of the computation
abbrev with_vat : Snapshot → Decimal × List Bucket → Result Snapshot
with_vat en filled = elim (vat_lines_of filled.1 zero_dec) [
  | err e ↦ err e
  | ok vat ↦ ok (with_totals en filled.0 vat.0 vat.1)
]

-- The first loop: both sums grow by the net amounts of the lines.
fill_buckets-sums :
    (lines : List Line) (total net : Decimal) (buckets filled : List Bucket)
    → fill_buckets lines total buckets ≡ ok (net, filled)
    → (net ≡ total +ᵈ sum_dec (map net_of lines))
      × (sum_dec (map base_of filled) ≡ sum_dec (map base_of buckets) +ᵈ sum_dec (map net_of lines))
unfolding fill_buckets sum_dec
fill_buckets-sums [] total net buckets filled h =
    let e : (total, buckets) ≡ (net, filled) = ok-injective h in
    (
      sym (ap (λ (p : Decimal × List Bucket). p.0) e) ∙ sym (+ᵈ-zero total),
      ap (λ (p : Decimal × List Bucket). sum_dec (map base_of p.1)) (sym e)
          ∙ sym (+ᵈ-zero (sum_dec (map base_of buckets))),
    )
fill_buckets-sums (line ∷ lines) total net buckets filled h =
    let (n, read, k) =
      result_step (read_amount line.line_net_amount zero_dec)
        (λ n. fill_buckets lines (total +ᵈ n) (add_to_bucket line n buckets)) h in
    let (e1, e2) =
      fill_buckets-sums lines (total +ᵈ n) net (add_to_bucket line n buckets) filled k in
    let value = read_value line.line_net_amount n read in
    let s = sum_dec (map net_of lines) in
    let b = sum_dec (map base_of buckets) in
    (
      e1 ∙ (+ᵈ_assoc total n s ∙ ap (λ v. total +ᵈ (v +ᵈ s)) (sym value)),
      e2
          ∙ (ap (λ x. x +ᵈ s) (sum_bases-add line n buckets ∙ +ᵈ_comm n b)
              ∙ (+ᵈ_assoc b n s ∙ ap (λ v. b +ᵈ (v +ᵈ s)) (sym value))),
    )

abbrev taxable : VatLine → Decimal
taxable v = value_of v.taxable_amount

abbrev vat_value : VatLine → Decimal
vat_value v = value_of v.vat_amount

-- what a chain that adds a VAT line has added it to
added_step :
    (v : VatLine) (r : Result (Decimal × List VatLine)) (p : Decimal × List VatLine)
    → add_vat_line v r ≡ ok p
    → (vs : List VatLine) × (r ≡ ok (p.0, vs)) × (p.1 ≡ v ∷ vs)
added_step v (ok (t, vs)) p h =
    let e = ok-injective h in
    (
      vs,
      ap (λ (q : Decimal × List VatLine). ok (q.0, vs)) e,
      ap (λ (q : Decimal × List VatLine). q.1) (sym e),
    )
added_step v (err e) p h = absurd (cc h)

-- The second loop: one VAT line for each bucket, with its base.
vat_lines-sums :
    (buckets : List Bucket) (total vat : Decimal) (vs : List VatLine)
    → vat_lines_of buckets total ≡ ok (vat, vs)
    → (sum_dec (map taxable vs) ≡ sum_dec (map base_of buckets))
      × (vat ≡ total +ᵈ sum_dec (map vat_value vs))
      × All HasOwnVat vs
unfolding vat_lines_of sum_dec base_of
vat_lines-sums [] total vat vs h =
    subst
      (λ (p : Decimal × List VatLine).
        (sum_dec (map taxable p.1) ≡ zero_dec)
        × (p.0 ≡ total +ᵈ sum_dec (map vat_value p.1))
        × All HasOwnVat p.1)
      (ok-injective h) (refl, sym (+ᵈ-zero total), tt)
vat_lines-sums (b ∷ buckets) total vat vs h =
    let (rate, read, k) =
      result_step (read_amount (some b.rate) zero_dec)
        (λ r.
          add_vat_line (vat_line_of b (vat_of b.base r))
            (vat_lines_of buckets (total +ᵈ vat_of b.base r)))
        h in
    let v = vat_line_of b (vat_of b.base rate) in
    let (rest, k', here) =
      added_step v (vat_lines_of buckets (total +ᵈ vat_of b.base rate)) (vat, vs) k in
    let (e1, e2, e3) = vat_lines-sums buckets (total +ᵈ vat_of b.base rate) vat rest k' in
    let own : HasOwnVat v = (
      vat_of b.base rate,
      refl,
      subst (λ r. IsVat b.base r (vat_of b.base rate)) (sym (read_value (some b.rate) rate read))
          (vat_of-IsVat b.base rate),
    ) in
    subst
      (λ us.
        (sum_dec (map taxable us) ≡ b.base +ᵈ sum_dec (map base_of buckets))
        × (vat ≡ total +ᵈ sum_dec (map vat_value us))
        × All HasOwnVat us)
      (sym here)
      (
        ap (λ x. b.base +ᵈ x) e1,
        e2 ∙ +ᵈ_assoc total (vat_of b.base rate) (sum_dec (map vat_value rest)),
        (own, e3),
      )

-- Where a snapshot has neither totals nor VAT lines and the computation succeeds, the two that are
-- computed agree: the net total is the sum of the lines' net amounts and of the VAT lines' bases,
-- the VAT is the sum of that of the VAT lines, each of which has base times rate per cent, rounded
-- half up to the cent, and the gross total, which is due, is their sum.
pub computed_totals-Balanced :
    (en en' : Snapshot)
    → en.totals ≡ none
    → en.vat_lines ≡ none
    → enrich_totals en ≡ ok en'
    → (t : Totals) × (vs : List VatLine) × (en'.totals ≡ some t)
      × (en'.vat_lines ≡ some vs)
      × Balanced (or_else en.invoice_lines []) t vs
unfolding enrich_totals compute_totals sum_dec
computed_totals-Balanced en en' no_t no_v h =
    let lines = or_else en.invoice_lines [] in
    let k : compute_totals en ≡ ok en' = ground (arith, no_t, h) in
    let (filled, e1, k1) = result_step (fill_buckets lines zero_dec []) (λ f. with_vat en f) k in
    let (vat, e2, k2) =
      result_step (vat_lines_of filled.1 zero_dec) (λ v. ok (with_totals en filled.0 v.0 v.1)) k1 in
    let same : with_totals en filled.0 vat.0 vat.1 ≡ en' = ok-injective k2 in
    let (s1, s2) = fill_buckets-sums lines zero_dec filled.0 [] filled.1 e1 in
    let (v1, v2, v3) = vat_lines-sums filled.1 zero_dec vat.0 vat.1 e2 in
    (
      computed_totals filled.0 vat.0,
      vat.1,
      ap (λ (x : Snapshot). x.totals) (sym same) ∙ ground (arith, no_t),
      ap (λ (x : Snapshot). x.vat_lines) (sym same) ∙ ground (arith, no_v),
      record {
        net = filled.0;
        vat = vat.0;
        net_is_sum = s1 ∙ zero-+ᵈ (sum_dec (map net_of lines));
        bases = v1 ∙ (s2 ∙ sym s1);
        vats = sym (v2 ∙ zero-+ᵈ (sum_dec (map vat_value vat.1)));
        each = v3;
        total_net = refl;
        total_vat = refl;
        total_gross = refl;
        due = refl;
      },
    )
