-- ===== src/InvoiceService/Lifecycle.antt =====
-- `soft_delete`, `validate_invoice` and `transmit_invoice` of invoice_service.py.
use factpulse_billing_app_pu.Base.{
  ℕ, Bool, true, false, not, ◌&&◌, ◌||◌, Option, none, some, if◌then◌else◌, or_else,
}
use factpulse_billing_app_pu.Base.Text.{Text, codes, ◌=ᵗ◌, truthy}
use factpulse_billing_app_pu.Base.Date.{Date}
use factpulse_billing_app_pu.Base.Decimal.{Decimal, zero_dec, ◌-ᵈ◌, quantize_half_even, is_zero_dec}
use factpulse_billing_app_pu.Model.{
  Status, ◌=ˢ◌, EreportingStatus, VatRegime, AuditAction, AuditLog, Details, plain, Supplier,
  Invoice, World, Snapshot, Amount, dec, generate_and_validate, transmit, Result, ok, err, Action,
  ◌>>=◌, ◌>>◌, pure, raise, lift, atomic, audit, send_task, save, save_fields, find, totals_of,
  references_of, number_assigned, only_drafts_deleted, being_processed, missing_iban,
  missing_tax_identifier, invalid_amount,
}
use factpulse_billing_app_pu.StateMachine.{validate_transition, is_deletable}
use factpulse_billing_app_pu.Numbering.{assign_number}
use factpulse_billing_app_pu.FlowDetector.{
  detect_flow, inject_bar_note, inject_framework, enrich_recipient_country, is_ereporting_flow,
  customer_of,
}

-- `_audit_log` of a change of status
abbrev pub status_change : ℕ → Status → Status → Details → AuditLog
status_change invoice old_status new_status details = record {
  invoice = invoice;
  action = AuditAction.status_change;
  old_status = some old_status;
  new_status = some new_status;
  details = details;
}

-- `_audit_log` of another action
abbrev pub log_entry : ℕ → AuditAction → Details → AuditLog
log_entry invoice action details = record {
  invoice = invoice;
  action = action;
  old_status = none;
  new_status = none;
  details = details;
}

unfoldable pub soft_delete : Invoice → Action Invoice
soft_delete invoice =
    if not (is_deletable invoice)
    then raise (if truthy invoice.number then number_assigned else only_drafts_deleted)
    else if invoice.status =ˢ Status.processing
    then raise being_processed
    else do
      deleted ←
          save_fields (λ object row. record row { deleted = object.deleted })
            (record invoice { deleted = true })
      audit (log_entry deleted.pk AuditAction.delete plain)
      pure deleted

abbrev pub supplier_key : Supplier → ℕ
supplier_key s = s.pk

abbrev pub supplier_of : Invoice → World → Option Supplier
supplier_of invoice w = find supplier_key invoice.supplier w.suppliers

abbrev payment_means : Snapshot → Text
payment_means en = or_else (references_of en.references).payment_means (codes "VIREMENT")

-- the payment is a transfer, and the supplier has no IBAN
unfoldable pub lacks_iban : Invoice → Option Supplier → Bool
unfolding ◌=ᵗ◌
lacks_iban invoice none = false
lacks_iban invoice (some s) =
    (payment_means invoice.en16931_data =ᵗ codes "VIREMENT") && not (truthy s.iban)

-- `_uses_tax_registration_id` of resolution_service.py
unfoldable pub uses_tax_registration_id : Supplier → Bool
uses_tax_registration_id s = elim s.vat_regime [
  | VatRegime.franchise ↦ not (truthy s.vat_number) && truthy s.siren
  | _ ↦ false
]

-- a default exemption without a seller tax identifier (BR-E-02)
unfoldable pub lacks_tax_identifier : Option Supplier → Bool
unfolding uses_tax_registration_id
lacks_tax_identifier none = false
lacks_tax_identifier (some s) =
    (truthy s.default_vat_exemption_reason || truthy s.default_vat_exemption_code)
    && not (truthy s.vat_number)
    && not (uses_tax_registration_id s)

-- `if not invoice.issue_date:` on the object and its snapshot
abbrev with_issue_date : Date → Invoice → Invoice
with_issue_date today invoice = elim invoice.issue_date [
  | some _ ↦ invoice
  | none ↦ record invoice {
    issue_date = some today;
    en16931_data = record (invoice.en16931_data) {
      references =
          some (record (references_of invoice.en16931_data.references) { issue_date = some today });
    };
  }
]

-- `Decimal(str(totals.get("totalGrossAmount", "0")))`
abbrev gross_of : Option Amount → Result Decimal
gross_of none = ok zero_dec
gross_of (some (dec d)) = ok d
gross_of (some _) = err invalid_amount

-- BR-CO-16: amountDue = totalGrossAmount - prepayment
abbrev pub amount_due_after : Decimal → Decimal → Decimal
amount_due_after gross payment = quantize_half_even (gross -ᵈ payment)

abbrev with_prepayment : Decimal → Invoice → Decimal → Invoice
with_prepayment payment invoice gross =
    let en = invoice.en16931_data in
    record invoice {
      en16931_data = record en {
        totals = some (record (totals_of en.totals) {
          prepayment = some (dec payment);
          amount_due = some (dec (amount_due_after gross payment));
        });
      };
    }

-- a payment that was recorded before the validation shows in the totals
unfoldable pub reflect_payment : Invoice → Result Invoice
reflect_payment invoice = elim invoice.payment_amount [
  | none ↦ ok invoice
  | some payment ↦
      if is_zero_dec payment
      then ok invoice
      else elim (gross_of (totals_of invoice.en16931_data.totals).total_gross_amount) [
        | ok gross ↦ ok (with_prepayment payment invoice gross)
        | err e ↦ err e
      ]
]

-- the flow, the notes and references that depend on it, and the new status
unfoldable pub start_processing : Invoice → World → Invoice
start_processing invoice w =
    let flow = or_else invoice.detected_flow (detect_flow invoice w) in
    let en =
      enrich_recipient_country
        (inject_framework (inject_bar_note invoice.en16931_data (some flow))
          invoice.operation_category)
        (customer_of invoice w) in
    record invoice {
      detected_flow = some flow;
      en16931_data = en;
      ereporting_status =
          (if is_ereporting_flow (some flow)
            then EreportingStatus.pending
            else invoice.ereporting_status);
      status = Status.processing;
      factpulse_error = none;
    }

unfoldable pub save_processing : Invoice → Action Invoice
save_processing invoice w = save (start_processing invoice w) w

unfoldable pub reflect_and_save : Invoice → Action Invoice
reflect_and_save numbered = do
  reflected ← lift (reflect_payment numbered)
  save_processing reflected

-- the checks that stand before the first write
unfoldable pub validation_guard : Invoice → Option Supplier → Result (Unit {0})
validation_guard invoice supplier = elim (validate_transition invoice Status.processing) [
  | err e ↦ err e
  | ok _ ↦
      if lacks_iban invoice supplier
      then err missing_iban
      else if lacks_tax_identifier supplier
      then err missing_tax_identifier
      else ok tt
]

-- the audit entry and the Celery task, after the transaction; `broker` answers `.delay`
unfoldable pub announce_processing : Result (Unit {0}) → Status → Invoice → Action Invoice
announce_processing broker old_status saved = do
  audit (status_change saved.pk old_status Status.processing plain)
  lift broker
  send_task (generate_and_validate saved.pk)
  pure saved

module _ (render : Text → Date → Text) where
  -- `if not invoice.number:`, and the number in the snapshot
  unfoldable pub number_draft : Invoice → Action Invoice
  number_draft invoice w =
      if truthy invoice.number
      then (
        ok (record invoice {
          en16931_data = record (invoice.en16931_data) { invoice_number = some invoice.number };
        }),
        w,
      )
      else (do
        n ← assign_number render invoice
        let dated = with_issue_date w.today (record invoice { number = n })
        pure (record dated {
          en16931_data = record (dated.en16931_data) { invoice_number = some n };
        }))
          w

  -- the block in `transaction.atomic()`
  unfoldable pub prepare : Invoice → Action Invoice
  prepare invoice = atomic (do numbered ← number_draft invoice; reflect_and_save numbered)

  unfoldable pub validate_invoice : Result (Unit {0}) → Invoice → Action Invoice
  validate_invoice broker invoice w =
      (do
        lift (validation_guard invoice (supplier_of invoice w))
        saved ← prepare invoice
        announce_processing broker invoice.status saved)
        w

unfoldable pub transmit_invoice : Invoice → Action Invoice
transmit_invoice invoice = do
  lift (validate_transition invoice Status.transmitting)
  sent ←
      save_fields (λ object row. record row { status = object.status })
        (record invoice { status = Status.transmitting })
  audit (status_change sent.pk invoice.status Status.transmitting plain)
  send_task (transmit sent.pk)
  pure sent
