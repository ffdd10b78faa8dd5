-- ===== src/FactpulseTasks/Fallback/Answers.antt =====
-- What each answer of the platform does, described by the row and the audit log.

use factpulse_billing_app_pu.Base.{◌≡◌, ◌⊎◌, some, List, ◌∷◌}
use factpulse_billing_app_pu.Base.Text.{Text, codes}
use factpulse_billing_app_pu.Model.{
  Status, AuditLog, source, Invoice, World, Result, ok, err, find_invoice,
}
use factpulse_billing_app_pu.InvoiceService.Lifecycle.{status_change}
use factpulse_billing_app_pu.FactpulseTasks.Fallback.{
  Acknowledgement, pending, accepted, refused, submission_error,
}

-- the entry of a change of status by the fallback
abbrev pub fallback_entry : Invoice → Status → AuditLog
fallback_entry invoice status =
    status_change invoice.pk Status.transmitting status (source (codes "afnor_flow_fallback"))

-- The row and the audit log after an acceptance: transmitted, and paid at once where a payment was
-- recorded before and could be written.
pub record Accepted (invoice : Invoice) (w w' : World) : Type 0 where
  pub row : Invoice
  pub stored : find_invoice invoice.pk w' ≡ some row
  pub logged :
      ((row.status ≡ Status.transmitted)
        × (w'.audit_logs ≡ fallback_entry invoice Status.transmitted ∷ w.audit_logs))
      ⊎ ((row.status ≡ Status.paid)
          × (w'.audit_logs
              ≡ status_change invoice.pk Status.transmitted Status.paid
                  (source (codes "prepaid_auto"))
                ∷ fallback_entry invoice Status.transmitted
                ∷ w.audit_logs))

-- the row and the audit log after a refusal: validated again, with the reasons
pub record Refused (invoice : Invoice) (reasons : List Text) (w w' : World) : Type 0 where
  pub row : Invoice
  pub stored : find_invoice invoice.pk w' ≡ some row
  pub status : row.status ≡ Status.validated
  pub reported : row.factpulse_error ≡ some (submission_error reasons)
  pub logged : w'.audit_logs ≡ fallback_entry invoice Status.validated ∷ w.audit_logs

-- what each answer of the platform does
abbrev pub IsAnswered : Result Acknowledgement → Invoice → World → World → Type 0
IsAnswered (err e) invoice w w' = w' ≡ w
IsAnswered (ok pending) invoice w w' = w' ≡ w
IsAnswered (ok accepted) invoice w w' = Accepted invoice w w'
IsAnswered (ok (refused reasons)) invoice w w' = Refused invoice reasons w w'
