-- ===== src/InvoiceService/Cancellation.antt =====
-- What `cancel_invoice` does.
use factpulse_billing_app_pu.Base.{
  ℕ, ◌+◌, ◌≡◌, refl, true, false, none, some, List, [], ◌∷◌, arith, ◌==◌, if◌then◌else◌, any,
}
use factpulse_billing_app_pu.Model.{
  Status, AuditAction, plain, Invoice, World, ok, err, cannot_cancel, find_invoice, put, find-put,
  invoice_key, collides, sync_denormalized_fields, save_free,
}
use factpulse_billing_app_pu.InvoiceService.Lifecycle.{log_entry}
use factpulse_billing_app_pu.InvoiceService.CreditNote.{
  cancel_invoice, is_cancellable, credit_note_of, credit_references, credit_note_type_code,
}

-- an invoice without number and external identifier breaks no constraint
unnumbered_IsFree :
    (a : Invoice) (rows : List Invoice)
    → a.number ≡ []
    → a.external_id ≡ none
    → any (collides a) rows ≡ false
unfolding collides
unnumbered_IsFree a [] h e = refl
unnumbered_IsFree a (b ∷ rows) h e = ground (arith, h, e, unnumbered_IsFree a rows h e)

-- what a cancellation made of an invoice: `note` is the credit note that it returned
pub record Cancelled (invoice note : Invoice) (w w' : World) : Type 0 where
  pub status : note.status ≡ Status.draft
  pub number : note.number ≡ []
  pub preceding : note.preceding_invoice ≡ some invoice.pk
  pub type_code : note.invoice_type_code ≡ credit_note_type_code
  pub total : note.total_incl_tax ≡ (sync_denormalized_fields invoice).total_incl_tax
  pub rows : (k : ℕ) → find_invoice k w' ≡ (if w.next_pk == k then some note else find_invoice k w)
  pub counters : w'.counters ≡ w.counters

-- An invoice that is validated, transmitted, accepted or paid is cancelled by a new draft, a credit
-- note without a number that refers to it and has its total; no row under another key changes, and
-- no number is taken. Any other invoice is refused, and nothing changes.
pub cancel_invoice_lem :
    (invoice : Invoice) (w : World)
    → (is_cancellable invoice.status ≡ false → cancel_invoice invoice w ≡ (err cannot_cancel, w))
      × (is_cancellable invoice.status ≡ true
          → (note : Invoice) × (w' : World) × (cancel_invoice invoice w ≡ (ok note, w'))
            × Cancelled invoice note w w')
unfolding cancel_invoice credit_note_of credit_references sync_denormalized_fields
cancel_invoice_lem invoice w = (
  λ no. ground (arith, no),
  λ yes.
      let note = credit_note_of invoice w.next_pk in
      let row = sync_denormalized_fields note in
      let v = record w { next_pk = w.next_pk + 1 } in
      let saved = save_free note v (unnumbered_IsFree note w.invoices refl refl) in
      let w' = record v {
        invoices = put invoice_key row w.invoices;
        audit_logs = log_entry w.next_pk AuditAction.created plain ∷ w.audit_logs;
      } in
      (
        row,
        w',
        ground (arith, yes, saved),
        record {
          status = refl;
          number = refl;
          preceding = refl;
          type_code = refl;
          total = refl;
          rows = λ k. find-put invoice_key k row w.invoices;
          counters = refl;
        },
      ),
)
