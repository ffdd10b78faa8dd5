-- ===== src/Numbering/Gapless.antt =====
-- The numbers of one prefix are the counter's values, one after the other, and never repeat.
use factpulse_billing_app_pu.Base.{
  ℕ, ◌+◌, ◌≤◌, ◌≡◌, ◌≢◌, refl, sym, ap, ◌∙◌, true, ◌&&◌, List, [], ◌∷◌, ◌++◌, arith, ◌==◌,
  if◌then◌else◌, or_else,
}
use factpulse_billing_app_pu.Base.Text.{truthy-zfill, Text, ◌=ᵗ◌, =ᵗ_iff, truthy, scan, scan-zfill}
use factpulse_billing_app_pu.Base.Date.{Date}
use factpulse_billing_app_pu.Model.{
  NumberingCounter, NumberingSequence, Invoice, World, Result, ok, find-put,
}
use factpulse_billing_app_pu.Numbering.{
  last_number, increment, number_text, assign_number, assign_all, sequence_row, with_sequence,
  default_sequence, sequence_key,
}

module _ (sequence : ℕ) (prefix : Text) where
  -- One more number is taken from the counter of the sequence and prefix, and no other changes.
  last_number-increment :
      (rows : List NumberingCounter) (s : ℕ) (p : Text)
      → last_number s p (increment sequence prefix rows) ≡ (
          if (sequence == s) && (prefix =ᵗ p)
          then last_number s p rows + 1
          else last_number s p rows)
  unfolding last_number increment
  last_number-increment [] s p = ground arith
  last_number-increment (c ∷ rows) s p = ground (
    arith,
    last_number-increment rows s p,
    =ᵗ_iff c.resolved_prefix prefix,
    =ᵗ_iff c.resolved_prefix p,
    =ᵗ_iff prefix p,
  )

append_cancel : (p : Text) {s t : Text} → p ++ s ≡ p ++ t → s ≡ t
append_cancel [] e = e
append_cancel (c ∷ p) e = append_cancel p (cc e)

-- Two numbers with one prefix and padding are equal only if their counters are.
pub number_text-injective :
    (prefix : Text) (padding m n : ℕ)
    → number_text prefix padding m ≡ number_text prefix padding n
    → m ≡ n
unfolding number_text
number_text-injective prefix padding m n e =
    sym (scan-zfill m padding)
    ∙ (ap (λ s. scan s 0) (append_cancel prefix e) ∙ scan-zfill n padding)

pub truthy-number_text :
    (prefix : Text) (padding n : ℕ) → truthy (number_text prefix padding n) ≡ true
unfolding number_text
truthy-number_text prefix padding n = truthy-zfill prefix n padding

-- Taking a number leaves every supplier with the sequence that it had, or would have been given.
sequence_kept :
    (k s : ℕ) (rows : List NumberingSequence)
    → sequence_row k (with_sequence s rows) ≡ sequence_row k rows
unfolding sequence_row with_sequence
sequence_kept k s rows = grind (arith, find-put sequence_key k (default_sequence s) rows)

module _ (render : Text → Date → Text) where
  abbrev pub sequence_for : Invoice → World → NumberingSequence
  sequence_for a w = sequence_row a.supplier w.sequences

  -- the prefix of the next number of an invoice
  abbrev pub prefix_of : Invoice → World → Text
  prefix_of a w = render (sequence_for a w).prefix_template (or_else a.issue_date w.today)

  -- the last number of the counter that the invoice counts in
  abbrev pub taken : Invoice → World → ℕ
  taken a w = last_number (sequence_for a w).supplier (prefix_of a w) w.counters

  -- A call takes the next value of its counter and writes it behind the prefix with the padding of
  -- the sequence; of all counters only that one changes, by one.
  pub assign_number_lem :
      (a : Invoice) (w : World)
      → let w' = (assign_number render a w).1 in
        let q = sequence_for a w in
        ((assign_number render a w).0 ≡ ok (number_text (prefix_of a w) q.padding (taken a w + 1)))
        × ((s : ℕ) (p : Text)
            → last_number s p w'.counters ≡ (
                if (q.supplier == s) && (prefix_of a w =ᵗ p)
                then last_number s p w.counters + 1
                else last_number s p w.counters))
  unfolding assign_number
  assign_number_lem a w =
      let q = sequence_for a w in
      let p = prefix_of a w in
      (
        ap (λ n. ok (number_text p q.padding n))
            (last_number-increment q.supplier p w.counters q.supplier p
              ∙ ground (arith, =ᵗ_iff p p)),
        λ s p'. last_number-increment q.supplier p w.counters s p',
      )

  pub sequence_for-assign :
      (k : ℕ) (a : Invoice) (w : World)
      → sequence_row k (assign_number render a w).1.sequences ≡ sequence_row k w.sequences
  unfolding assign_number
  sequence_for-assign k a w = sequence_kept k a.supplier w.sequences

  pub today-assign : (a : Invoice) (w : World) → (assign_number render a w).1.today ≡ w.today
  unfolding assign_number
  today-assign a w = refl

  -- No later call lowers a counter.
  counter_grows :
      (a : Invoice) (w : World) (s : ℕ) (p : Text)
      → last_number s p w.counters ≤ last_number s p (assign_number render a w).1.counters
  counter_grows a w s p = ground (arith, (assign_number_lem a w).1 s p)

  record Later (w w' : World) : Type 0 where
    pub sequences : (k : ℕ) → sequence_row k w'.sequences ≡ sequence_row k w.sequences
    pub day : w'.today ≡ w.today
    pub counters : (s : ℕ) (p : Text) → last_number s p w.counters ≤ last_number s p w'.counters

  assign_all-Later : (rest : List Invoice) (w : World) → Later w (assign_all render rest w)
  unfolding assign_all
  assign_all-Later [] w = record {
    sequences = λ k. refl;
    day = refl;
    counters = λ s p. omega arith;
  }
  assign_all-Later (a ∷ rest) w =
      let w' = (assign_number render a w).1 in
      let ih = assign_all-Later rest w' in
      record {
        sequences = λ k. ih.sequences k ∙ sequence_for-assign k a w;
        day = ih.day ∙ today-assign a w;
        counters = λ s p. omega (arith, ih.counters s p, counter_grows a w s p);
      }

  -- the counter stands at the number that was taken
  taken_after :
      (a : Invoice) (w : World)
      → last_number
          (sequence_for a w).supplier
          (prefix_of a w)
          (assign_number render a w).1.counters
        ≡ taken a w + 1
  taken_after a w =
      (assign_number_lem a w).1 (sequence_for a w).supplier (prefix_of a w)
      ∙ ground (arith, =ᵗ_iff (prefix_of a w) (prefix_of a w))

  number_of : {r : Result Text} {t u : Text} → r ≡ ok t → r ≡ ok u → t ≡ u
  number_of p q = cc

  -- A number that an invoice was given is never given again to an invoice of the same supplier
  -- whose prefix is the same, whatever numbers are taken in between.
  pub numbers_never_repeat :
      (a b : Invoice) (between : List Invoice) (w : World) {t u : Text}
      → a.supplier ≡ b.supplier
      → prefix_of a w ≡ prefix_of b w
      → (assign_number render a w).0 ≡ ok t
      → (assign_number render b (assign_all render between (assign_number render a w).1)).0 ≡ ok u
      → t ≢ u
  numbers_never_repeat a b between w same_supplier same_prefix et eu e =
      let w1 = (assign_number render a w).1 in
      let w2 = assign_all render between w1 in
      let later : Later w1 w2 = assign_all-Later between w1 in
      let q = sequence_for a w in
      let row_b : sequence_for b w2 ≡ sequence_row b.supplier w.sequences =
        later.sequences b.supplier ∙ sequence_for-assign b.supplier a w in
      let q_b : sequence_for b w2 ≡ q =
        row_b ∙ ap (λ k. sequence_row k w.sequences) (sym same_supplier) in
      let p_b : prefix_of b w2 ≡ prefix_of a w =
        ap (λ (r : NumberingSequence). render r.prefix_template (or_else b.issue_date w2.today))
          row_b
        ∙ (ap
              (λ d.
                render (sequence_row b.supplier w.sequences).prefix_template
                  (or_else b.issue_date d))
              (later.day ∙ today-assign a w)
            ∙ sym same_prefix) in
      let n = last_number q.supplier (prefix_of a w) w2.counters in
      let et' = number_of et (assign_number_lem a w).0 in
      let eu' = number_of eu (assign_number_lem b w2).0 in
      let same_text : number_text (prefix_of a w) q.padding (taken a w + 1)
          ≡ number_text (prefix_of a w) q.padding (n + 1) =
        cc (et', eu', e, q_b, p_b) in
      let same_number =
        number_text-injective (prefix_of a w) q.padding (taken a w + 1) (n + 1) same_text in
      absurd
        (omega (arith, same_number, taken_after a w, later.counters q.supplier (prefix_of a w)))
