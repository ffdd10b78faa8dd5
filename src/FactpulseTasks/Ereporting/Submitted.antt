-- ===== src/FactpulseTasks/Ereporting/Submitted.antt =====
-- How the e-reporting of an invoice ends, and that it is submitted once.
use factpulse_billing_app_pu.Base.{ℕ, ◌≡◌, refl, ◌∙◌, true, some, arith, ◌==◌, if◌then◌else◌}
use factpulse_billing_app_pu.Model.{
  EreportingStatus, Invoice, World, Error, is_api_error, is_unavailable, ok, err, save_fields_lem,
  sync_denormalized_fields, find_invoice, find-own, find-put, key-find, invoice_key,
}
use factpulse_billing_app_pu.FactpulseTasks.Ereporting.{
  Reportable, ereporting_preconditions, build_ereporting_payload, EreportingApi, report,
  submit_ereporting_for_invoice, ereporting_success, ereporting_failure, write_ereporting,
  submitted_object, failed_object,
}

-- what passed the preconditions
precondition_row :
    (k : ℕ) (w : World) (r : Reportable)
    → ereporting_preconditions k w ≡ some r
    → find_invoice k w ≡ some r.invoice
unfolding ereporting_preconditions
precondition_row k w r h = ground arith

submitted_blocks :
    (again : EreportingApi) (k : ℕ) (v : World) (row : Invoice)
    → find_invoice k v ≡ some row
    → row.ereporting_status ≡ EreportingStatus.submitted
    → submit_ereporting_for_invoice again k v ≡ (ok tt, v)
unfolding submit_ereporting_for_invoice ereporting_preconditions
submitted_blocks again k v row found done = ground (arith, found, done)

module _ (api : EreportingApi) (k : ℕ) (w : World) (r : Reportable)
    (passed : ereporting_preconditions k w ≡ some r) where
  row_found : find_invoice (r.invoice).pk w ≡ some r.invoice
  row_found = find-own k w (precondition_row k w r passed)

  -- Where the API takes the report, the invoice counts as submitted, nothing else of it changes and
  -- no other row; when the task runs again, for whatever answer, it changes nothing.
  pub ereporting_submitted_once :
      api.submit_ereporting (build_ereporting_payload r) r.client_uid ≡ ok tt
      → let w' = (submit_ereporting_for_invoice api k w).1 in
        ((submit_ereporting_for_invoice api k w).0 ≡ ok tt)
        × ((j : ℕ)
            → find_invoice j w' ≡ (
                if (r.invoice).pk == j
                then some (submitted_object r.invoice)
                else find_invoice j w))
        × ((again : EreportingApi) → submit_ereporting_for_invoice again k w' ≡ (ok tt, w'))
  unfolding submit_ereporting_for_invoice report ereporting_success sync_denormalized_fields
  ereporting_submitted_once taken =
      let object = submitted_object r.invoice in
      let saved = save_fields_lem write_ereporting object w row_found in
      let at : (j : ℕ)
          → find_invoice j (submit_ereporting_for_invoice api k w).1
            ≡ (if (r.invoice).pk == j then some object else find_invoice j w) =
        λ j. ground (arith, passed, taken, saved, find-put invoice_key j object w.invoices) in
      let pk = key-find invoice_key k w.invoices r.invoice (precondition_row k w r passed) in
      (
        ground (arith, passed, taken, saved),
        at,
        λ again.
            submitted_blocks again k (submit_ereporting_for_invoice api k w).1 object
              (at k ∙ ground (arith, pk)) refl,
      )

  -- Where the API refuses or cannot be reached, the invoice keeps its status and only its
  -- e-reporting is in error; the task is retried exactly if the API could not be reached.
  pub ereporting_refused :
      (e : Error)
      → api.submit_ereporting (build_ereporting_payload r) r.client_uid ≡ err e
      → is_api_error e ≡ true
      → let w' = (submit_ereporting_for_invoice api k w).1 in
        ((submit_ereporting_for_invoice api k w).0 ≡ (if is_unavailable e then err e else ok tt))
        × ((j : ℕ)
            → find_invoice j w' ≡ (
                if (r.invoice).pk == j then some (failed_object r.invoice e) else find_invoice j w))
  unfolding submit_ereporting_for_invoice report ereporting_failure sync_denormalized_fields
  ereporting_refused e refused caught =
      let object = failed_object r.invoice e in
      let saved = save_fields_lem write_ereporting object w row_found in
      (
        ground (arith, passed, refused, caught, saved),
        λ j.
            ground
              (arith, passed, refused, caught, saved, find-put invoice_key j object w.invoices),
      )
