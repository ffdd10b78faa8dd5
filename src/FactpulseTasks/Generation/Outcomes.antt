-- ===== src/FactpulseTasks/Generation/Outcomes.antt =====
-- How the generation of an invoice ends.
use factpulse_billing_app_pu.Base.{
  ℕ, ◌≡◌, ◌≢◌, refl, sym, ap, subst, ◌∙◌, true, false, none, some, ◌∷◌, arith, ◌==◌, if◌then◌else◌,
}
use factpulse_billing_app_pu.Base.Text.{Text}
use factpulse_billing_app_pu.Model.{
  Status, ErrorType, invoice_status, invoice_validated, Invoice, World, submit_ereporting, Error,
  external, api_error, api_unavailable, is_unavailable, Result, ok, err, save_free, find_invoice,
  find-put, invoice_key, sync_denormalized_fields, IsFree, IsFree-same, IsFree-put, SameKeys,
}
use factpulse_billing_app_pu.StateMachine.{can_transition}
use factpulse_billing_app_pu.FlowDetector.{is_ereporting_flow}
use factpulse_billing_app_pu.InvoiceService.CreditNote.{check_auto_cancel}
use factpulse_billing_app_pu.FactpulseTasks.Generation.{
  handle_factpulse_error, except_type, GenerationApi, with_facturx, after_validation, guarded,
  produce, generate, generate_and_validate_invoice, get_client_uid,
}
use factpulse_billing_app_pu.FactpulseTasks.Generation.Reverted.{
  Reverted, handle_lem, validated_row, validated_world, logged_world,
}

-- The clause for an unreachable API is never taken: no exception is reported as unavailable, and an
-- unreachable API is reported as a rejected invoice.
pub except_type_order :
    (e : Error)
    → (except_type e ≢ ErrorType.unavailable)
      × (is_unavailable e ≡ true → except_type e ≡ ErrorType.validation_rejected)
unfolding except_type
except_type_order e = (ground arith, ground arith)

-- the type of the error that each kind of exception is reported as
abbrev pub reported_type : Error → ErrorType
reported_type (external (api_error _)) = ErrorType.validation_rejected
reported_type (external (api_unavailable _)) = ErrorType.validation_rejected
reported_type _ = ErrorType.timeout

except_type-reported : (e : Error) → except_type e ≡ reported_type e
unfolding except_type
except_type-reported e = ground arith

module _ (api : GenerationApi) (invoice : Invoice) (uid : Text) (w : World)
    (found : find_invoice invoice.pk w ≡ some invoice)
    (processing : invoice.status ≡ Status.processing)
    (provisioned : get_client_uid invoice w ≡ some uid) (free : IsFree invoice w) where
  -- the task reaches its `try` block
  task_generates : generate_and_validate_invoice api invoice.pk w ≡ generate api invoice uid w
  unfolding generate_and_validate_invoice
  task_generates = ground arith

  -- Where the PDF engine or the API raises, the task ends, and the invoice that was being processed
  -- is a draft again with its number and with an error, whose type is that of a rejection for every
  -- FactPulseError, also for an unreachable API, and that of a timeout for any other exception; no
  -- other row changes and no task is queued.
  pub generation_fails :
      (e : Error)
      → produce api invoice uid ≡ err e
      → ((generate_and_validate_invoice api invoice.pk w).0 ≡ ok tt)
        × Reverted invoice (reported_type e) w (generate_and_validate_invoice api invoice.pk w).1
  generation_fails e h =
      let step : generate api invoice uid w ≡ handle_factpulse_error invoice e (except_type e) w =
        unfold generate in ground (arith, h) in
      subst
        (λ (r : Result (Unit {0}) × World).
          (r.0 ≡ ok tt) × Reverted invoice (reported_type e) w r.1)
        (sym (
          task_generates
          ∙ step
          ∙ ap (λ t. handle_factpulse_error invoice e t w) (except_type-reported e)))
        (handle_lem invoice e (reported_type e) w free)

  module _ (facturx : Text) (produced : produce api invoice uid ≡ ok facturx)
      (plain_invoice : invoice.preceding_invoice ≡ none) where
    facturx_keys : SameKeys (with_facturx invoice) invoice
    unfolding with_facturx
    facturx_keys = record {
      pk = refl;
      supplier = refl;
      organization = refl;
      number = refl;
      external_id = refl;
    }

    row_keys : SameKeys (validated_row invoice) invoice
    unfolding with_facturx sync_denormalized_fields
    row_keys = record {
      pk = refl;
      supplier = refl;
      organization = refl;
      number = refl;
      external_id = refl;
    }

    generate_saves :
        generate api invoice uid w
        ≡ guarded api
            (after_validation api invoice.status (validated_row invoice))
            (validated_row invoice)
            (validated_world invoice w)
    unfolding generate
    generate_saves = ground (
      arith,
      produced,
      save_free (with_facturx invoice) w
          (IsFree-same (with_facturx invoice) invoice w facturx_keys free),
    )

    no_preceding : (v : World) → check_auto_cancel (validated_row invoice) v ≡ (ok tt, v)
    unfolding check_auto_cancel with_facturx sync_denormalized_fields
    no_preceding v = ground (arith, plain_invoice)

    abbrev finished_world : World
    finished_world = record (logged_world invoice w) {
      webhooks = invoice_status invoice.organization invoice.pk Status.validated ∷ w.webhooks;
      tasks =
          (if is_ereporting_flow invoice.detected_flow
            then submit_ereporting invoice.pk ∷ w.tasks
            else w.tasks);
      signals = invoice_validated invoice.pk ∷ w.signals;
    }

    finished :
        api.broker ≡ ok tt
        → guarded api
            (after_validation api invoice.status (validated_row invoice))
            (validated_row invoice)
            (validated_world invoice w)
          ≡ (ok tt, finished_world)
    unfolding guarded after_validation sync_denormalized_fields with_facturx
    finished up = ground (arith, no_preceding (logged_world invoice w), up)

    -- Where the PDF engine, the API and the broker answer, the generation of a free invoice that is
    -- processed and corrects none ends with the invoice validated in its row, with its number and
    -- no error, no other row is changed, and the e-reporting is queued exactly for the flows that
    -- need it.
    pub generation_succeeds :
        api.broker ≡ ok tt
        → let w' = (generate_and_validate_invoice api invoice.pk w).1 in
          ((generate_and_validate_invoice api invoice.pk w).0 ≡ ok tt)
          × ((k : ℕ)
              → find_invoice k w'
                ≡ (if invoice.pk == k then some (validated_row invoice) else find_invoice k w))
          × ((validated_row invoice).status ≡ Status.validated)
          × ((validated_row invoice).number ≡ invoice.number)
          × ((validated_row invoice).factpulse_error ≡ none)
          × (w'.tasks ≡ (
              if is_ereporting_flow invoice.detected_flow
              then submit_ereporting invoice.pk ∷ w.tasks
              else w.tasks))
    unfolding sync_denormalized_fields with_facturx
    generation_succeeds up = (
      ground (arith, task_generates, generate_saves, finished up),
      λ k. ground (
        arith,
        task_generates,
        generate_saves,
        finished up,
        find-put invoice_key k (validated_row invoice) w.invoices,
      ),
      refl,
      refl,
      refl,
      ground (arith, task_generates, generate_saves, finished up),
    )

    broker_down :
        (e : Error)
        → api.broker ≡ err e
        → guarded api
            (after_validation api invoice.status (validated_row invoice))
            (validated_row invoice)
            (validated_world invoice w)
          ≡ handle_factpulse_error
              (validated_row invoice)
              e
              (except_type e)
              (logged_world invoice w)
    unfolding guarded after_validation sync_denormalized_fields with_facturx
    broker_down e down = ground (arith, no_preceding (logged_world invoice w), down)

    -- If the message broker fails after the save, the invoice that had just been validated is
    -- turned back into a draft, with its number: a transition that the matrix does not have.
    pub broker_failure_reverts_validated :
        (e : Error)
        → api.broker ≡ err e
        → Reverted
            (validated_row invoice)
            (except_type e)
            (logged_world invoice w)
            (generate_and_validate_invoice api invoice.pk w).1
          × ((validated_row invoice).status ≡ Status.validated)
          × (can_transition Status.validated Status.draft ≡ false)
    unfolding sync_denormalized_fields with_facturx can_transition
    broker_failure_reverts_validated e down = (
      subst
          (λ (r : Result (Unit {0}) × World).
            Reverted (validated_row invoice) (except_type e) (logged_world invoice w) r.1)
          (sym (task_generates ∙ generate_saves ∙ broker_down e down))
          ((handle_lem (validated_row invoice) e (except_type e) (logged_world invoice w) (
            IsFree-put (validated_row invoice) (validated_row invoice) w (logged_world invoice w)
              refl refl (IsFree-same (validated_row invoice) invoice w row_keys free))).1),
      refl,
      refl,
    )
