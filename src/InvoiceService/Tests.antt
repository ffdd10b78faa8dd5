-- ===== src/InvoiceService/Tests.antt =====
-- Tests of the invoice service, on the sample database.
use factpulse_billing_app_pu.Base.{
  false, ℕ, ◌≡◌, refl, true, ◌&&◌, ◌==◌, if◌then◌else◌, some, [], ◌∷◌,
}
use factpulse_billing_app_pu.Base.Text.{codes}
use factpulse_billing_app_pu.Model.{
  cannot_cancel, Error, external, other_exception, Status, Invoice, World, Result, ok, err,
  missing_iban, find_invoice, find, put, save,
}
use factpulse_billing_app_pu.StateMachine.{can_transition, validate_transition}
use factpulse_billing_app_pu.InvoiceService.Lifecycle.{
  validate_invoice, validation_guard, lacks_iban, lacks_tax_identifier, prepare, number_draft,
  reflect_and_save, reflect_payment, save_processing, start_processing, announce_processing,
}
use factpulse_billing_app_pu.Numbering.{
  assign_number, increment, last_number, sequence_row, with_sequence,
}
use factpulse_billing_app_pu.InvoiceService.Validation.{validate_invoice_success, Validated}
use factpulse_billing_app_pu.InvoiceService.Payment.{
  mark_paid, no_payment_data, given_amount, record_payment, announce_paid,
}
use factpulse_billing_app_pu.InvoiceService.CreditNote.{
  cancel_invoice, is_cancellable, check_auto_cancel, is_auto_cancellable,
}
use factpulse_billing_app_pu.InvoiceService.Cancellation.{cancel_invoice_lem, Cancelled}
use factpulse_billing_app_pu.InvoiceService.Outcomes.{
  mark_paid_success, check_auto_cancel_lem, Paid,
}
use factpulse_billing_app_pu.Samples.{
  sample_draft, sample_validated, sample_credit_note, sample_render, sample_world, world_of,
  sample_supplier,
}

-- the sample supplier without its IBAN
abbrev poor_world : World
poor_world = record sample_world { suppliers = record sample_supplier { iban = [] } ∷ [] }

abbrev down : Error
down = external (other_exception (codes "redis"))

-- the broker is down, so that the invoice stays in processing
abbrev stranded_run : Result Invoice × World
stranded_run = validate_invoice sample_render (err down) sample_draft sample_world

-- A supplier without an IBAN: nothing happens.
poor_run :
    validate_invoice sample_render (ok tt) sample_draft poor_world ≡ (err missing_iban, poor_world)
unfolding validate_invoice validation_guard validate_transition can_transition lacks_iban find
poor_run = refl

abbrev saved_by : Result Invoice × World → Invoice
saved_by (ok i, _) = i
saved_by (err _, _) = sample_draft

abbrev validated_run : Result Invoice × World
validated_run = validate_invoice sample_render (ok tt) sample_draft sample_world

validate_invoice_success_example :
    Validated sample_draft (saved_by validated_run) sample_world validated_run.1
unfolding validate_invoice validation_guard validate_transition can_transition lacks_iban
    lacks_tax_identifier prepare number_draft assign_number increment last_number sequence_row
    with_sequence find put reflect_and_save reflect_payment save_processing save start_processing
    announce_processing
validate_invoice_success_example =
    validate_invoice_success (ok tt) sample_render sample_draft sample_world
      (saved_by validated_run) validated_run.1 refl

abbrev paid_run : Result Invoice × World
paid_run = mark_paid sample_validated no_payment_data [] sample_world

mark_paid_success_example :
    Paid sample_validated (saved_by paid_run) no_payment_data sample_world paid_run.1
unfolding mark_paid validate_transition can_transition given_amount record_payment announce_paid
    save
mark_paid_success_example =
    mark_paid_success sample_validated no_payment_data [] sample_world (saved_by paid_run)
      paid_run.1 refl

check_auto_cancel_lem_example :
    (is_auto_cancellable sample_credit_note sample_validated ≡ true
      → can_transition Status.validated Status.cancelled ≡ true)
    × ((k : ℕ)
        → find_invoice k (check_auto_cancel sample_credit_note (world_of (sample_validated ∷ []))).1
          ≡ (if is_auto_cancellable sample_credit_note sample_validated && (1 == k)
              then some (record sample_validated { status = Status.cancelled })
              else find_invoice k (world_of (sample_validated ∷ []))))
unfolding find
check_auto_cancel_lem_example =
    check_auto_cancel_lem sample_credit_note sample_validated (world_of (sample_validated ∷ []))
      refl

cancel_invoice_lem_example :
    (is_cancellable Status.validated ≡ false
      → cancel_invoice sample_validated sample_world ≡ (err cannot_cancel, sample_world))
    × (is_cancellable Status.validated ≡ true
        → (note : Invoice) × (w' : World) × (cancel_invoice sample_validated sample_world
            ≡ (ok note, w'))
          × Cancelled sample_validated note sample_world w')
cancel_invoice_lem_example = cancel_invoice_lem sample_validated sample_world
