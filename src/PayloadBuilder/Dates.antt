-- ===== src/PayloadBuilder/Dates.antt =====
-- The dates, the references and the notes that are missing, and the whole enrichment.
pub mod Complete
use factpulse_billing_app_pu.Base.{
  ℕ, ◌+◌, Bool, false, Option, none, some, List, [], ◌∷◌, ◌==◌, if◌then◌else◌, or_else,
}
use factpulse_billing_app_pu.Base.Text.{strip, Text, codes, truthy}
use factpulse_billing_app_pu.Base.Date.{Date, previous_day, add_days}
use factpulse_billing_app_pu.Model.{Supplier, Snapshot, Note, references_of, Result, ok, err}
use factpulse_billing_app_pu.PayloadBuilder.Lines.{enrich_lines, apply_default_vat_exemption}
use factpulse_billing_app_pu.PayloadBuilder.Totals.{enrich_totals}

-- `supplier.payment_terms_days` where it is not 0, else 30
abbrev pub terms_of : Option ℕ → ℕ
terms_of none = 30
terms_of (some days) = if days == 0 then 30 else days

abbrev pub days_of : Option Supplier → ℕ
days_of none = 30
days_of (some s) = terms_of s.payment_terms_days

abbrev pub ends_month : Option Supplier → Bool
ends_month none = false
ends_month (some s) = s.payment_terms_end_of_month

-- the last day of the month: the day before the first of the next
unfoldable pub month_end : Date → Date
unfolding previous_day
month_end due =
    if due.month == 12
    then previous_day (record { year = due.year + 1; month = 1; day = 1 })
    else previous_day (record { year = due.year; month = due.month + 1; day = 1 })

-- `_compute_due_date`
unfoldable pub compute_due_date : Date → Option Supplier → Date
unfolding month_end add_days
compute_due_date issue_date supplier =
    let due = add_days (days_of supplier) issue_date in
    if ends_month supplier then month_end due else due

-- `_enrich_dates`
unfoldable pub enrich_dates : Date → Option Supplier → Snapshot → Snapshot
unfolding compute_due_date
enrich_dates today supplier en =
    let issue = or_else en.invoice_date today in
    record en {
      invoice_date = some issue;
      payment_due_date = some (or_else en.payment_due_date (compute_due_date issue supplier));
    }

-- `refs.setdefault(key, value)`
abbrev pub set_default : {A : Type 0} → A → Option A → Option A
set_default value none = some value
set_default value (some old) = some old

abbrev pub copied : {A : Type 0} → Option A → Option A → Option A
copied none source = source
copied (some old) source = some old

-- `_enrich_references`
unfoldable pub enrich_references : Snapshot → Snapshot
enrich_references en =
    let refs = references_of en.references in
    record en {
      references = some (record refs {
        invoice_type = set_default (codes "380") refs.invoice_type;
        vat_accounting_code = set_default (codes "TVA_SUR_DEBIT") refs.vat_accounting_code;
        invoice_currency = set_default (codes "EUR") refs.invoice_currency;
        payment_means = set_default (codes "VIREMENT") refs.payment_means;
        issue_date = copied refs.issue_date en.invoice_date;
        due_date = copied refs.due_date en.payment_due_date;
      });
    }

-- one mandatory note, where its text is not blank
unfoldable pub add_note : Text → Text → List Note → List Note
unfolding strip
add_note subject_code content rest =
    if truthy (strip content)
    then record { subject_code = subject_code; content = strip content } ∷ rest
    else rest

unfoldable pub notes_from : Supplier → List Note
unfolding add_note
notes_from s =
    add_note (codes "PMT") s.note_pmt
      (add_note (codes "PMD") s.note_pmd (add_note (codes "AAB") s.note_aab []))

abbrev pub some_notes : List Note → Option (List Note)
some_notes [] = none
some_notes (n ∷ ns) = some (n ∷ ns)

abbrev pub supplier_notes : Option Supplier → Option (List Note)
supplier_notes none = none
supplier_notes (some s) = some_notes (notes_from s)

-- `_enrich_notes`
unfoldable pub enrich_notes : Option Supplier → Snapshot → Snapshot
unfolding notes_from
enrich_notes supplier en = record en { notes = copied en.notes (supplier_notes supplier) }

-- `_enrich_lines` of a snapshot; one without lines stays as it is
unfoldable pub enrich_invoice_lines : Option Supplier → Snapshot → Result Snapshot
unfolding enrich_lines apply_default_vat_exemption
enrich_invoice_lines supplier en = elim en.invoice_lines [
  | none ↦ ok en
  | some lines ↦ elim (enrich_lines 0 lines) [
    | err e ↦ err e
    | ok enriched ↦ elim (apply_default_vat_exemption supplier enriched) [
      | err e ↦ err e
      | ok exempted ↦ ok (record en { invoice_lines = some exempted })
    ]
  ]
]

-- the last three steps
unfoldable pub fill_missing : Date → Option Supplier → Snapshot → Snapshot
unfolding enrich_dates enrich_references enrich_notes
fill_missing today supplier en =
    enrich_notes supplier (enrich_references (enrich_dates today supplier en))

-- `enrich_en16931_data`
unfoldable pub enrich_en16931_data : Date → Option Supplier → Snapshot → Result Snapshot
unfolding enrich_invoice_lines enrich_totals fill_missing
enrich_en16931_data today supplier en = elim (enrich_invoice_lines supplier en) [
  | err e ↦ err e
  | ok lined ↦ elim (enrich_totals lined) [
    | err e ↦ err e
    | ok totalled ↦ ok (fill_missing today supplier totalled)
  ]
]
