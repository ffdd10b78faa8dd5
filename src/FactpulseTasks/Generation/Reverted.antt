-- ===== src/FactpulseTasks/Generation/Reverted.antt =====
-- What the error handler and the first save of the generation leave.
use factpulse_billing_app_pu.Base.{ℕ, ◌≡◌, ◌≢◌, refl, some, ◌∷◌, arith}
use factpulse_billing_app_pu.Base.Text.{codes}
use factpulse_billing_app_pu.Model.{
  Status, ErrorType, FactpulseError, failure, source, Invoice, World, Error, ok, save_free,
  find_invoice, find-put, invoice_key, put, sync_denormalized_fields, IsFree, IsFree-same, SameKeys,
}
use factpulse_billing_app_pu.InvoiceService.Lifecycle.{status_change}
use factpulse_billing_app_pu.FactpulseTasks.Generation.{
  build_error_dict, handle_factpulse_error, with_facturx,
}

-- What the error handler leaves of an invoice.
pub record Reverted (invoice : Invoice) (error_type : ErrorType) (w w' : World) : Type 0 where
  pub row : Invoice
  pub stored : find_invoice invoice.pk w' ≡ some row
  pub status : row.status ≡ Status.draft
  pub number : row.number ≡ invoice.number
  pub error : FactpulseError
  pub error_stored : row.factpulse_error ≡ some error
  pub error_kind : error.error_type ≡ error_type
  pub others : (k : ℕ) → k ≢ invoice.pk → find_invoice k w' ≡ find_invoice k w
  pub logged :
      w'.audit_logs
      ≡ status_change invoice.pk invoice.status Status.draft (failure error_type) ∷ w.audit_logs
  pub tasks : w'.tasks ≡ w.tasks

abbrev pub reverted_object : Invoice → Error → ErrorType → Invoice
reverted_object invoice e t = record invoice {
  status = Status.draft;
  factpulse_error = some (build_error_dict e t);
}

reverted_keys :
    (invoice : Invoice) (e : Error) (t : ErrorType) → SameKeys (reverted_object invoice e t) invoice
reverted_keys invoice e t = record {
  pk = refl;
  supplier = refl;
  organization = refl;
  number = refl;
  external_id = refl;
}

pub handle_lem :
    (invoice : Invoice) (e : Error) (t : ErrorType) (w : World)
    → IsFree invoice w
    → ((handle_factpulse_error invoice e t w).0 ≡ ok tt)
      × Reverted invoice t w (handle_factpulse_error invoice e t w).1
unfolding handle_factpulse_error sync_denormalized_fields
handle_lem invoice e t w free =
    let object = reverted_object invoice e t in
    let saved =
      save_free object w (IsFree-same object invoice w (reverted_keys invoice e t) free) in
    let rows = λ (k : ℕ). find-put invoice_key k (sync_denormalized_fields object) w.invoices in
    (
      ground (arith, saved),
      record {
        row = sync_denormalized_fields object;
        stored = ground (arith, saved, rows invoice.pk);
        status = refl;
        number = refl;
        error = build_error_dict e t;
        error_stored = refl;
        error_kind = refl;
        others = λ k h. ground (arith, saved, rows k);
        logged = ground (arith, saved);
        tasks = ground (arith, saved);
      },
    )

-- the row that the task saves first
abbrev pub validated_row : Invoice → Invoice
validated_row invoice = sync_denormalized_fields (with_facturx invoice)

abbrev pub validated_world : Invoice → World → World
validated_world invoice w = record w {
  invoices = put invoice_key (validated_row invoice) w.invoices;
}

-- the database after the first save and its audit entry
abbrev pub logged_world : Invoice → World → World
logged_world invoice w = record (validated_world invoice w) {
  audit_logs =
      status_change invoice.pk invoice.status Status.validated (source (codes "celery_task"))
      ∷ w.audit_logs;
}
