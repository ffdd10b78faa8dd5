-- ===== src/Numbering.antt =====
-- apps/billing/services/numbering_service.py: numbers from a sequence of a supplier.
pub mod Gapless
pub mod Series
mod Tests
use factpulse_billing_app_pu.Base.{
  ℕ, ◌+◌, ◌&&◌, none, some, List, [], ◌∷◌, ◌++◌, ◌==◌, if◌then◌else◌, or_else,
}
use factpulse_billing_app_pu.Base.Text.{Text, codes, str_nat, zfill, ◌=ᵗ◌}
use factpulse_billing_app_pu.Base.Date.{Date}
use factpulse_billing_app_pu.Model.{
  Invoice, NumberingSequence, NumberingCounter, World, Action, Result, ok, find, put,
}

abbrev pub sequence_key : NumberingSequence → ℕ
sequence_key s = s.supplier

-- the field defaults of `NumberingSequence`
abbrev pub default_sequence : ℕ → NumberingSequence
default_sequence supplier = record {
  supplier = supplier;
  prefix_template = codes "FACT-{{ issue_date|date:'Y' }}-";
  padding = 3;
}

-- the row of (sequence, prefix) after `last_number += 1`, at 0 before it exists
unfoldable pub last_number : ℕ → Text → List NumberingCounter → ℕ
unfolding ◌=ᵗ◌
last_number sequence prefix [] = 0
last_number sequence prefix (c ∷ rows) =
    if (c.sequence == sequence) && (c.resolved_prefix =ᵗ prefix)
    then c.last_number
    else last_number sequence prefix rows

unfoldable pub increment : ℕ → Text → List NumberingCounter → List NumberingCounter
unfolding ◌=ᵗ◌
increment sequence prefix [] =
    record { sequence = sequence; resolved_prefix = prefix; last_number = 1 } ∷ []
increment sequence prefix (c ∷ rows) =
    if (c.sequence == sequence) && (c.resolved_prefix =ᵗ prefix)
    then record c { last_number = c.last_number + 1 } ∷ rows
    else c ∷ increment sequence prefix rows

-- `objects.get(supplier=...)`, or else the row that is created with the defaults
unfoldable pub sequence_row : ℕ → List NumberingSequence → NumberingSequence
unfolding find
sequence_row supplier rows = elim (find sequence_key supplier rows) [
  | some s ↦ s
  | none ↦ default_sequence supplier
]

-- the rows after that
unfoldable pub with_sequence : ℕ → List NumberingSequence → List NumberingSequence
unfolding find put
with_sequence supplier rows = elim (find sequence_key supplier rows) [
  | some s ↦ rows
  | none ↦ put sequence_key (default_sequence supplier) rows
]

-- `f"{resolved_prefix}{str(counter.last_number).zfill(sequence.padding)}"`
unfoldable pub number_text : Text → ℕ → ℕ → Text
number_text prefix padding n = prefix ++ zfill (str_nat n) padding

-- The template engine is not part of the program: `render` is what it makes of a template and a date.
module _ (render : Text → Date → Text) where
  unfoldable pub assign_number : Invoice → Action Text
  unfolding last_number increment number_text sequence_row with_sequence
  assign_number invoice w =
      let sequence = sequence_row invoice.supplier w.sequences in
      let issue_date = or_else invoice.issue_date w.today in
      let prefix = render sequence.prefix_template issue_date in
      let counters = increment sequence.supplier prefix w.counters in
      let n = last_number sequence.supplier prefix counters in
      (
        ok (number_text prefix sequence.padding n),
        record w { sequences = with_sequence invoice.supplier w.sequences; counters = counters },
      )

  -- the numbers that a series of invoices takes, and the state behind them
  unfoldable pub assign_all : List Invoice → World → World
  unfolding assign_number
  assign_all [] w = w
  assign_all (invoice ∷ rest) w = assign_all rest (assign_number invoice w).1

  -- the numbers themselves
  unfoldable pub assigned : List Invoice → World → List (Result Text)
  unfolding assign_number
  assigned [] w = []
  assigned (invoice ∷ rest) w =
      (assign_number invoice w).0 ∷ assigned rest (assign_number invoice w).1
