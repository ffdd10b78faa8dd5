-- ===== src/StripeImport/Events.antt =====
-- The handlers of the events of Stripe's documents, of apps/payments/services.py.
use factpulse_billing_app_pu.Base.{
  Bool, not, ◌&&◌, Option, none, some, List, [], ◌∷◌, ◌++◌, if◌then◌else◌, is_some, any,
}
use factpulse_billing_app_pu.Base.Text.{Text, codes, ◌=ᵗ◌, truthy}
use factpulse_billing_app_pu.Base.Date.{Date}
use factpulse_billing_app_pu.Base.Decimal.{Decimal}
use factpulse_billing_app_pu.Model.{
  Status, ◌=ˢ◌, World, is_conflict, Result, ok, err, Action, ◌>>=◌, ◌>>◌, pure, Invoice,
  save_fields,
}
use factpulse_billing_app_pu.StripeMapper.{cents_to_decimal, or_zero, CreditNote}
use factpulse_billing_app_pu.InvoiceService.Payment.{PaymentData, as_number, mark_paid}
use factpulse_billing_app_pu.InvoiceService.Payloads.{Parties}
use factpulse_billing_app_pu.PaymentEvents.{ProviderEvent, Handler}
use factpulse_billing_app_pu.StripeImport.Customers.{
  StripeDocument, ProviderConfig, CatalogProduct, newest, is_external,
}
use factpulse_billing_app_pu.StripeImport.Documents.{
  import_stripe_invoice, import_stripe_credit_note,
}

-- `except ConflictError`
abbrev conflict_ignored : Result Invoice × World → Result (Unit {0}) × World
conflict_ignored (ok _, w) = (ok tt, w)
conflict_ignored (err e, w) = (if is_conflict e then ok tt else err e, w)

abbrev pub write_payment : Invoice → Invoice → Invoice
write_payment object row = record row {
  payment_date = object.payment_date;
  payment_reference = object.payment_reference;
  payment_amount = object.payment_amount;
}

-- a payment of a draft is recorded, and its status stays
unfoldable pub note_payment : Text → Decimal → Invoice → Action (Unit {0})
note_payment reference amount invoice w =
    (save_fields write_payment (record invoice {
      payment_date = some w.today;
      payment_reference = reference;
      payment_amount = some amount;
    })
        >> pure tt)
      w

abbrev pub stripe_payment : Text → Decimal → Date → PaymentData
stripe_payment reference amount today = record {
  payment_date = some today;
  payment_reference = some reference;
  amount = some (as_number amount);
}

abbrev pub is_unissued : Status → Bool
is_unissued status = any (λ t. t =ˢ status) (Status.draft ∷ Status.processing ∷ [])

-- an invoice of any organization that is not deleted and has the external identifier
unfoldable pub is_live : Text → Invoice → Bool
unfolding ◌=ᵗ◌
is_live id i = is_external id i.external_id && not i.deleted

-- `_handle_invoice_paid`, on every organization's invoices
unfoldable pub handle_invoice_paid : Text → StripeDocument → Action (Unit {0})
unfolding newest is_live note_payment mark_paid cents_to_decimal
handle_invoice_paid provider d w =
    let reference = provider ++ codes ":" ++ d.invoice.id in
    let amount = cents_to_decimal (or_zero d.amount_paid) in
    if not (truthy d.invoice.id)
    then (ok tt, w)
    else elim (newest (is_live d.invoice.id) w.invoices) [
      | none ↦ (ok tt, w)
      | some invoice ↦
          if invoice.status =ˢ Status.paid
          then (ok tt, w)
          else if is_unissued invoice.status
          then note_payment reference amount invoice w
          else conflict_ignored (
              mark_paid invoice (stripe_payment reference amount w.today) (codes "online_payment")
                w)
    ]

-- the events of Stripe's documents
pub data DocumentEvent : Type 0 where
  invoice_finalized invoice_paid : StripeDocument → DocumentEvent
  credit_note_created : Text → CreditNote → DocumentEvent

abbrev drop_result : {A : Type 0} → Action A → Action (Unit {0})
drop_result m = m >>= λ _. pure tt

module _ (parties : Parties) (divide : Decimal → Decimal → Decimal)
    (products : List CatalogProduct) where
  -- `_handle_invoice_finalized`, `_handle_invoice_paid` and `_handle_credit_note_created`
  unfoldable pub handle_document_event :
      Text → Option ProviderConfig → DocumentEvent → Action (Unit {0})
  unfolding import_stripe_invoice import_stripe_credit_note handle_invoice_paid
  handle_document_event provider config (invoice_paid d) = handle_invoice_paid provider d
  handle_document_event provider none (invoice_finalized d) = pure tt
  handle_document_event provider none (credit_note_created credited note) = pure tt
  handle_document_event provider (some config) (invoice_finalized d) =
      if is_some config.default_supplier
      then drop_result (import_stripe_invoice parties divide products config d)
      else pure tt
  handle_document_event provider (some config) (credit_note_created credited note) =
      drop_result
        (import_stripe_credit_note parties divide products config.organization credited note)

  -- the handler that `handle_webhook` takes; `read` reads the object in the raw data of an event
  unfoldable pub handle_document :
      Text → Option ProviderConfig → (ProviderEvent → DocumentEvent) → ProviderEvent → Handler
  unfolding handle_document_event
  handle_document provider config read e p =
      let (r, w) = handle_document_event provider config (read e) p.billing in
      (r, record p { billing = w })
