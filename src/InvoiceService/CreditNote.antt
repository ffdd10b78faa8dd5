-- ===== src/InvoiceService/CreditNote.antt =====
-- `cancel_invoice` and `check_auto_cancel` of invoice_service.py.
use factpulse_billing_app_pu.Base.{
  ℕ, ◌+◌, Bool, false, not, ◌&&◌, Option, none, some, [], ◌∷◌, if◌then◌else◌, any,
}
use factpulse_billing_app_pu.Base.Text.{Text, codes, truthy}
use factpulse_billing_app_pu.Base.Decimal.{Decimal, eq_dec}
use factpulse_billing_app_pu.Model.{
  Status, ◌=ˢ◌, OperationCategory, EreportingStatus, AuditAction, plain, credit_note_validated,
  Invoice, World, Snapshot, References, ok, err, Action, ◌>>=◌, ◌>>◌, pure, audit, save,
  save_fields, references_of, cannot_cancel, find_invoice,
}
use factpulse_billing_app_pu.InvoiceService.Lifecycle.{status_change, log_entry}

-- `CREDIT_NOTE_TYPE_CODE` and `INVOICE_TYPE_CODE` of apps/billing/constants.py
abbrev pub credit_note_type_code : Text
credit_note_type_code = codes "381"

unfoldable pub is_cancellable : Status → Bool
is_cancellable s =
    any (λ t. t =ˢ s) (Status.validated ∷ Status.transmitted ∷ Status.accepted ∷ Status.paid ∷ [])

-- `Invoice(...)` of the model with its field defaults
abbrev pub new_invoice : ℕ → ℕ → ℕ → Option ℕ → Snapshot → Invoice
new_invoice pk organization supplier customer en = record {
  pk = pk;
  organization = organization;
  supplier = supplier;
  customer = customer;
  number = [];
  invoice_type_code = codes "380";
  currency_code = codes "EUR";
  issue_date = none;
  due_date = none;
  status = Status.draft;
  total_excl_tax = none;
  total_tax = none;
  total_incl_tax = none;
  en16931_data = en;
  detected_flow = none;
  operation_category = OperationCategory.tps1;
  ereporting_status = EreportingStatus.nothing;
  ereporting_error = none;
  facturx_status = [];
  pdp_transmission_id = [];
  pdp_status = [];
  factpulse_error = none;
  external_id = none;
  pdf_file = none;
  preceding_invoice = none;
  is_internal = false;
  payment_date = none;
  payment_reference = [];
  payment_amount = none;
  deleted = false;
  version = 1;
}

-- the references of the credit note: BT-3, BT-25 and BT-26
unfoldable pub credit_references : Invoice → References
credit_references invoice =
    let refs = references_of invoice.en16931_data.references in
    record refs {
      invoice_type = some credit_note_type_code;
      preceding_invoice_reference =
          (if truthy invoice.number then some invoice.number else refs.preceding_invoice_reference);
      preceding_invoice_date = elim invoice.issue_date [
        | some d ↦ some d
        | none ↦ refs.preceding_invoice_date
      ];
    }

unfoldable pub credit_note_of : Invoice → ℕ → Invoice
unfolding credit_references
credit_note_of invoice pk =
    record (new_invoice pk invoice.organization invoice.supplier invoice.customer
      (record (invoice.en16931_data) { references = some (credit_references invoice) })) {
        preceding_invoice = some invoice.pk;
        invoice_type_code = credit_note_type_code;
      }

-- the primary key is the next one of the table
unfoldable pub cancel_invoice : Invoice → Action Invoice
cancel_invoice invoice w =
    if not (is_cancellable invoice.status)
    then (err cannot_cancel, w)
    else (do
      credit_note ← save (credit_note_of invoice w.next_pk)
      audit (log_entry credit_note.pk AuditAction.created plain)
      pure credit_note)
        (record w { next_pk = w.next_pk + 1 })

-- both totals are there and equal
abbrev pub same_total : Option Decimal → Option Decimal → Bool
same_total (some a) (some b) = eq_dec a b
same_total _ _ = false

unfoldable pub is_auto_cancellable : Invoice → Invoice → Bool
is_auto_cancellable credit_note original =
    any (λ t. t =ˢ original.status) (Status.validated ∷ Status.paid ∷ [])
    && same_total credit_note.total_incl_tax original.total_incl_tax

abbrev pub write_status : Invoice → Invoice → Invoice
write_status object row = record row { status = object.status }

-- `credit_note.preceding_invoice`, the row behind the foreign key
abbrev pub preceding_of : Invoice → World → Option Invoice
preceding_of credit_note w = elim credit_note.preceding_invoice [
  | none ↦ none
  | some k ↦ find_invoice k w
]

unfoldable pub check_auto_cancel : Invoice → Action (Unit {0})
check_auto_cancel credit_note w = elim (preceding_of credit_note w) [
  | none ↦ (ok tt, w)
  | some original ↦
      if not (is_auto_cancellable credit_note original)
      then (ok tt, w)
      else (do
        cancelled ← save_fields write_status (record original { status = Status.cancelled })
        audit (
            status_change cancelled.pk original.status Status.cancelled
              (credit_note_validated credit_note.pk)))
          w
]
