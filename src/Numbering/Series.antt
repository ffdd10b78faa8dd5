-- ===== src/Numbering/Series.antt =====
-- A series of assignments against its abstract specification: a function that counts, for each
-- sequence and prefix, how many numbers were given.
use mathlib.Core.Path.{ap₂}
use factpulse_billing_app_pu.Base.{
  ℕ, ◌+◌, ◌≡◌, refl, ap, ◌∙◌, ◌&&◌, List, [], ◌∷◌, map, ◌==◌, if◌then◌else◌, or_else,
}
use factpulse_billing_app_pu.Base.Text.{Text, ◌=ᵗ◌}
use factpulse_billing_app_pu.Base.Date.{Date}
use factpulse_billing_app_pu.Model.{Invoice, World, ok, NumberingSequence}
use factpulse_billing_app_pu.Numbering.{last_number, number_text, assign_number, assigned}
use factpulse_billing_app_pu.Numbering.Gapless.{
  assign_number_lem, sequence_for, prefix_of, sequence_for-assign, today-assign,
}

-- the abstract state
abbrev pub Counts : Type 0
Counts = ℕ → Text → ℕ

abbrev pub count_up : ℕ → Text → Counts → Counts
count_up sequence prefix counts s p =
    if (sequence == s) && (prefix =ᵗ p) then counts s p + 1 else counts s p

-- what an invoice asks for
pub record Request : Type 0 where
  pub sequence : ℕ
  pub prefix : Text
  pub padding : ℕ

-- the abstract series
unfoldable pub series_numbers : List Request → Counts → List Text
series_numbers [] counts = []
series_numbers (r ∷ rest) counts =
    number_text r.prefix r.padding (counts r.sequence r.prefix + 1)
    ∷ series_numbers rest (count_up r.sequence r.prefix counts)

abbrev pub counts_of : World → Counts
counts_of w s p = last_number s p w.counters

module _ (render : Text → Date → Text) where
  abbrev pub request_of : World → Invoice → Request
  request_of w a = record {
    sequence = (sequence_for render a w).supplier;
    prefix = prefix_of render a w;
    padding = (sequence_for render a w).padding;
  }

  -- An assignment leaves what another invoice asks for.
  request_of-assign :
      (a b : Invoice) (w : World) → request_of (assign_number render a w).1 b ≡ request_of w b
  request_of-assign a b w =
      ap
        (λ (q : NumberingSequence). record {
          sequence = q.supplier;
          prefix =
              render q.prefix_template (or_else b.issue_date (assign_number render a w).1.today);
          padding = q.padding;
        })
        (sequence_for-assign render b.supplier a w)
      ∙ ap (λ (d : Date). request_from d) (today-assign render a w)
    where
      request_from : Date → Request
      request_from d = record {
        sequence = (sequence_for render b w).supplier;
        prefix = render (sequence_for render b w).prefix_template (or_else b.issue_date d);
        padding = (sequence_for render b w).padding;
      }

  requests-assign :
      (a : Invoice) (w : World) (rest : List Invoice)
      → map (request_of (assign_number render a w).1) rest ≡ map (request_of w) rest
  requests-assign a w [] = refl
  requests-assign a w (b ∷ rest) =
      ap₂ (λ x y. x ∷ y) (request_of-assign a b w) (requests-assign a w rest)

  counts_of-assign :
      (a : Invoice) (w : World)
      → counts_of (assign_number render a w).1
        ≡ count_up (sequence_for render a w).supplier (prefix_of render a w) (counts_of w)
  counts_of-assign a w i s p = (assign_number_lem render a w).1 s p i

  -- A series of assignments gives the numbers of its abstract specification, a function that counts
  -- for each sequence and prefix how many numbers were given: the next number of each pair, in the
  -- order of the invoices, whatever pairs stand in between.
  pub assigned-series_numbers :
      (series : List Invoice) (w : World)
      → assigned render series w ≡ map ok (series_numbers (map (request_of w) series) (counts_of w))
  unfolding assigned series_numbers
  assigned-series_numbers [] w = refl
  assigned-series_numbers (a ∷ rest) w =
      ap₂ (λ x y. x ∷ y) (assign_number_lem render a w).0
        (assigned-series_numbers rest (assign_number render a w).1
          ∙ ap₂ (λ r c. map ok (series_numbers r c)) (requests-assign a w rest)
              (counts_of-assign a w))
