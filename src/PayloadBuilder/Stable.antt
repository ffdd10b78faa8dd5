-- ===== src/PayloadBuilder/Stable.antt =====
-- The enrichment of a line fills what is missing and overwrites nothing.
use factpulse_billing_app_pu.Base.{
  ℕ, ◌+◌, ◌≡◌, inl, inr, refl, sym, ap, subst, ◌∙◌, true, ◌&&◌, Option, none, some, arith,
  if◌then◌else◌, Option-cases, is_some, or_else,
}
use factpulse_billing_app_pu.Base.Text.{Text, codes}
use factpulse_billing_app_pu.Base.Decimal.{is_pos_dec}
use factpulse_billing_app_pu.Model.{Amount, dec, Line, ok, err, ok-injective, result_step}
use factpulse_billing_app_pu.PayloadBuilder.Lines.{
  read_amount, first_of, default_to, enrich_keys, enrich_category, net_amount, enrich_net_amount,
  enrich_line, whole, with_category,
}

-- a value that is there stays
abbrev pub Keeps : {A : Type 0} → Option A → Option A → Type 0
Keeps {A} old new = (a : A) → old ≡ some a → new ≡ some a

pub record Enriched (line line' : Line) : Type 0 where
  pub number : Keeps line.line_number line'.line_number
  pub unit : Keeps line.unit line'.unit
  pub price : Keeps line.unit_net_price line'.unit_net_price
  pub rate : Keeps line.manual_vat_rate line'.manual_vat_rate
  pub category : Keeps line.vat_category line'.vat_category
  pub net : Keeps line.line_net_amount line'.line_net_amount
  pub complete :
      (is_some line'.line_number
        && is_some line'.unit
        && is_some line'.manual_vat_rate
        && is_some line'.vat_category
        && is_some line'.line_net_amount)
      ≡ true
  pub again : (j : ℕ) → enrich_line j line' ≡ ok line'

Keeps-default : {A : Type 0} (o : Option A) (d : A) → Keeps o (default_to o d)
Keeps-default o d a e = ground (arith, e)

Keeps-first : {A : Type 0} (o p : Option A) → Keeps o (first_of o p)
Keeps-first o p a e = ground (arith, e)

default_twice :
    {A : Type 0} (o : Option A) (d e : A) → default_to (default_to o d) e ≡ default_to o d
default_twice (some a) d e = refl
default_twice none d e = refl

first_twice : {A : Type 0} (o p : Option A) → first_of (first_of o p) p ≡ first_of o p
first_twice (some a) p = refl
first_twice none (some a) = refl
first_twice none none = refl

is_some-default : {A : Type 0} (o : Option A) (d : A) → is_some (default_to o d) ≡ true
is_some-default (some a) d = refl
is_some-default none d = refl

none-some : {A : Type 0} {a : A} → none ≡ some a → ⊥
none-some h = cc h

category_step :
    (l m : Line)
    → enrich_category l ≡ ok m
    → (c : Text) × (m ≡ record l { vat_category = some c }) × Keeps l.vat_category (some c)
unfolding enrich_category
category_step l m h = elim (Option-cases l.vat_category) [
  | inr (c, e) ↦ (
    c,
    sym (ok-injective (ground (arith, e, h))) ∙ ap (λ v. record l { vat_category = v }) e,
    λ a e'. sym e ∙ e',
  )
  | inl e ↦
      let k : (elim (read_amount l.manual_vat_rate (whole 20)) [
        | ok rate ↦ ok (with_category l rate)
        | err x ↦ err x
      ])
          ≡ ok m =
        ground (arith, e, h) in
      let (rate, read, same) =
        result_step (read_amount l.manual_vat_rate (whole 20)) (λ r. ok (with_category l r)) k in
      (
        if is_pos_dec rate then codes "S" else codes "E",
        sym (ok-injective same),
        λ a e'. absurd (none-some (sym e ∙ e')),
      )
]

net_step :
    (l m : Line)
    → enrich_net_amount l ≡ ok m
    → (a : Amount) × (m ≡ record l { line_net_amount = some a }) × Keeps l.line_net_amount (some a)
unfolding enrich_net_amount
net_step l m h = elim (Option-cases l.line_net_amount) [
  | inr (c, e) ↦ (
    c,
    sym (ok-injective (ground (arith, e, h))) ∙ ap (λ v. record l { line_net_amount = v }) e,
    λ a e'. sym e ∙ e',
  )
  | inl e ↦
      let k : (elim (net_amount l) [
        | ok n ↦ ok (record l { line_net_amount = some (dec n) })
        | err x ↦ err x
      ])
          ≡ ok m =
        ground (arith, e, h) in
      let (n, read, same) =
        result_step (net_amount l) (λ n. ok (record l { line_net_amount = some (dec n) })) k in
      (dec n, sym (ok-injective same), λ a e'. absurd (none-some (sym e ∙ e')))
]

-- an enriched line, with the category and the amount that it has
abbrev filled : ℕ → Line → Text → Amount → Line
filled i line c a = record (enrich_keys i line) { vat_category = some c; line_net_amount = some a }

filled_again :
    (i j : ℕ) (line : Line) (c : Text) (a : Amount)
    → enrich_line j (filled i line c a) ≡ ok (filled i line c a)
unfolding enrich_line enrich_keys enrich_category enrich_net_amount
filled_again i j line c a = cc (
  default_twice line.line_number (i + 1) (j + 1),
  default_twice line.unit (codes "PIECE") (codes "PIECE"),
  first_twice line.unit_net_price line.unit_price,
  default_twice line.manual_vat_rate (or_else line.vat_rate (dec (whole 20)))
      (or_else line.vat_rate (dec (whole 20))),
)

filled-Enriched :
    (i : ℕ) (line : Line) (c : Text) (a : Amount)
    → Keeps line.vat_category (some c)
    → Keeps line.line_net_amount (some a)
    → Enriched line (filled i line c a)
unfolding enrich_keys
filled-Enriched i line c a kc ka = record {
  number = Keeps-default line.line_number (i + 1);
  unit = Keeps-default line.unit (codes "PIECE");
  price = Keeps-first line.unit_net_price line.unit_price;
  rate = Keeps-default line.manual_vat_rate (or_else line.vat_rate (dec (whole 20)));
  category = kc;
  net = ka;
  complete = ground (
    arith,
    is_some-default line.line_number (i + 1),
    is_some-default line.unit (codes "PIECE"),
    is_some-default line.manual_vat_rate (or_else line.vat_rate (dec (whole 20))),
  );
  again = λ j. filled_again i j line c a;
}

-- Where a line is enriched, every value that it has of its own stays, it has a number, a unit, a
-- rate, a category and a net amount afterwards, and a second enrichment, at whatever place, changes
-- nothing.
pub enrich_line-Enriched :
    (i : ℕ) (line line' : Line) → enrich_line i line ≡ ok line' → Enriched line line'
unfolding enrich_line
enrich_line-Enriched i line line' h =
    let (m, e1, k) = result_step (enrich_category (enrich_keys i line)) enrich_net_amount h in
    let (c, same, kc) = category_step (enrich_keys i line) m e1 in
    let (a, same', ka) = net_step m line' k in
    let whole_line : line' ≡ filled i line c a =
      same' ∙ ap (λ (l : Line). record l { line_net_amount = some a }) same in
    let kept : Keeps line.line_net_amount (some a) =
      unfold enrich_keys in λ b e. ka b (ap (λ (l : Line). l.line_net_amount) same ∙ e) in
    let kept_category : Keeps line.vat_category (some c) = unfold enrich_keys in kc in
    subst (Enriched line) (sym whole_line) (filled-Enriched i line c a kept_category kept)
