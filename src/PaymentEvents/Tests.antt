-- ===== src/PaymentEvents/Tests.antt =====
-- Tests of the events, of one confirmed payment of a validated invoice, and of its checkout.
use factpulse_billing_app_pu.Base.{◌≡◌, ◌≢◌, refl, true, false, none, some, [], ◌∷◌}
use factpulse_billing_app_pu.Base.Text.{codes}
use factpulse_billing_app_pu.Model.{Status, Invoice, Result, ok, err, find}
use factpulse_billing_app_pu.Core.Rows.{filter}
use factpulse_billing_app_pu.PaymentEvents.Checkout.{Adapter, create_checkout, checkout_once}
use factpulse_billing_app_pu.StateMachine.{can_transition}
use factpulse_billing_app_pu.InvoiceService.Outcomes.{Paid}
use factpulse_billing_app_pu.PaymentEvents.{
  pending, PaymentTransaction, Payments, payment_confirmed, document, ProviderEvent, Handler,
  online_payment, pay_invoice,
}
use factpulse_billing_app_pu.PaymentEvents.Once.{PaidBy, confirmed_payment}
use factpulse_billing_app_pu.Samples.{sample_validated, sample_date, amount_100, world_of}

abbrev transaction : PaymentTransaction
transaction = record {
  pk = 9;
  invoice = 1;
  provider = codes "stripe";
  provider_payment_id = codes "pi";
  amount = amount_100;
  payment_method = [];
  status = pending;
  checkout_url = [];
}

abbrev start : Payments
start = record {
  transactions = transaction ∷ [];
  event_logs = [];
  billing = world_of (sample_validated ∷ []);
}

abbrev confirmation : ProviderEvent
confirmation = record {
  provider_event_id = codes "evt";
  event_type = payment_confirmed;
  provider_payment_id = codes "pi";
  payment_method = none;
}

abbrev no_documents : ProviderEvent → Handler
no_documents e p = (ok tt, p)

confirmation-not_document : confirmation.event_type ≢ document
confirmation-not_document h = cc h

confirmed_payment_example :
    (can_transition Status.validated Status.paid ≡ false
      → pay_invoice (codes "stripe") transaction start ≡ (ok tt, start))
    × (can_transition Status.validated Status.paid ≡ true
        → (pay_invoice (codes "stripe") transaction start).0 ≡ ok tt
        → (saved : Invoice) × PaidBy (codes "stripe") transaction saved sample_date
          × Paid sample_validated saved
              (online_payment (codes "stripe") transaction sample_date)
              (world_of (sample_validated ∷ []))
              (pay_invoice (codes "stripe") transaction start).1.billing)
unfolding find
confirmed_payment_example =
    confirmed_payment (codes "stripe") transaction start sample_validated refl

abbrev linking : Adapter
linking amount number email = ok (record {
  provider_payment_id = codes "cs";
  status = pending;
  checkout_url = codes "https://pay";
  payment_method = [];
})

abbrev unlinked : Payments
unlinked = record start { transactions = [] }

abbrev checkout : Result PaymentTransaction × Payments
checkout = create_checkout (some linking) (codes "stripe") sample_validated unlinked

abbrev transaction_of : Result PaymentTransaction → PaymentTransaction
transaction_of (ok t) = t
transaction_of (err e) = transaction

checkout_succeeds : checkout ≡ (ok (transaction_of checkout.0), checkout.1)
unfolding create_checkout
checkout_succeeds = refl

checkout_once_example :
    create_checkout (some linking) (codes "stripe") sample_validated checkout.1
    ≡ (ok (transaction_of checkout.0), checkout.1)
unfolding filter create_checkout
checkout_once_example =
    checkout_once (some linking) (codes "stripe") sample_validated unlinked refl checkout_succeeds
      refl refl
