-- ===== src/PaymentEvents.antt =====
-- The events of the payment providers: `handle_webhook`, `_handle_payment_confirmed`,
-- `_handle_payment_failed` and `create_checkout` of apps/payments/services.py.
pub mod Once
pub mod Checkout
mod Tests
use factpulse_billing_app_pu.Base.{
  ℕ, Bool, true, false, ◌&&◌, Option, none, some, List, [], ◌∷◌, ◌++◌, ◌==◌, if◌then◌else◌, or_else,
  any,
}
use factpulse_billing_app_pu.Base.Text.{Text, codes, ◌=ᵗ◌}
use factpulse_billing_app_pu.Base.Decimal.{Decimal}
use factpulse_billing_app_pu.Base.Date.{Date}
use factpulse_billing_app_pu.Model.{
  Status, ◌=ˢ◌, Invoice, World, is_conflict, message_of, no_row, Result, ok, err, find_invoice,
}
use factpulse_billing_app_pu.InvoiceService.Payment.{PaymentData, as_number, mark_paid}

-- `PaymentTransaction.Status`
pub data TransactionStatus : Type 0 where
  created pending confirmed failed refunded : TransactionStatus

pub record PaymentTransaction : Type 0 where
  pub pk : ℕ
  pub invoice : ℕ
  pub provider : Text
  pub provider_payment_id : Text
  pub amount : Decimal
  pub payment_method : Text
  pub status : TransactionStatus
  pub checkout_url : Text

pub record PaymentEventLog : Type 0 where
  pub provider : Text
  pub provider_event_id : Text
  pub processed : Bool
  pub error : Option Text

-- the database of the payments beside that of the invoices
pub record Payments : Type 0 where
  pub transactions : List PaymentTransaction
  pub event_logs : List PaymentEventLog
  pub billing : World

-- the event types that concern a payment; those of Stripe's documents are `document`
pub data EventType : Type 0 where
  payment_confirmed payment_failed document unhandled : EventType

pub record ProviderEvent : Type 0 where
  pub provider_event_id : Text
  pub event_type : EventType
  pub provider_payment_id : Text
  pub payment_method : Option Text

abbrev pub Handler : Type 0
Handler = Payments → Result (Unit {0}) × Payments

abbrev is_of : Text → Text → PaymentTransaction → Bool
is_of provider payment_id t = (t.provider =ᵗ provider) && (t.provider_payment_id =ᵗ payment_id)

-- `filter(provider=..., provider_payment_id=...).first()`
unfoldable pub find_transaction : Text → Text → List PaymentTransaction → Option PaymentTransaction
unfolding ◌=ᵗ◌
find_transaction provider payment_id [] = none
find_transaction provider payment_id (t ∷ rows) =
    if is_of provider payment_id t then some t else find_transaction provider payment_id rows

unfoldable pub put_transaction :
    PaymentTransaction → List PaymentTransaction → List PaymentTransaction
put_transaction t [] = []
put_transaction t (u ∷ rows) = if u.pk == t.pk then t ∷ rows else u ∷ put_transaction t rows

abbrev confirm : Option Text → PaymentTransaction → PaymentTransaction
confirm method t = record t { status = confirmed; payment_method = or_else method t.payment_method }

-- the data of `mark_paid`; the amount goes through a float, which prints it unchanged to the cent
abbrev pub online_payment : Text → PaymentTransaction → Date → PaymentData
online_payment provider t today = record {
  payment_date = some today;
  payment_reference = some (provider ++ codes ":" ++ t.provider_payment_id);
  amount = some (as_number t.amount);
}

-- `except ConflictError`
abbrev unless_conflict : Payments → Result Invoice × World → Result (Unit {0}) × Payments
unless_conflict p (ok _, w) = (ok tt, record p { billing = w })
unless_conflict p (err e, w) = (if is_conflict e then ok tt else err e, record p { billing = w })

unfoldable pub pay_invoice : Text → PaymentTransaction → Handler
pay_invoice provider t p = elim (find_invoice t.invoice p.billing) [
  | none ↦ (err no_row, p)
  | some invoice ↦
      if invoice.status =ˢ Status.paid
      then (ok tt, p)
      else unless_conflict p (
          mark_paid invoice (online_payment provider t p.billing.today) (codes "online_payment")
            p.billing)
]

unfoldable pub handle_payment_confirmed : Text → ProviderEvent → Handler
unfolding find_transaction put_transaction pay_invoice
handle_payment_confirmed provider e p =
    elim (find_transaction provider e.provider_payment_id p.transactions) [
      | none ↦ (ok tt, p)
      | some t ↦
          let t' = confirm e.payment_method t in
          pay_invoice provider t' (record p { transactions = put_transaction t' p.transactions })
    ]

unfoldable pub handle_payment_failed : Text → ProviderEvent → Handler
unfolding find_transaction put_transaction
handle_payment_failed provider e p =
    elim (find_transaction provider e.provider_payment_id p.transactions) [
      | none ↦ (ok tt, p)
      | some t ↦ (
        ok tt,
        record p { transactions = put_transaction (record t { status = failed }) p.transactions },
      )
    ]

-- `provider_event_id` is unique
unfoldable pub is_logged : Text → List PaymentEventLog → Bool
unfolding ◌=ᵗ◌
is_logged event_id logs = any (λ (l : PaymentEventLog). l.provider_event_id =ᵗ event_id) logs

abbrev new_log : Text → ProviderEvent → PaymentEventLog
new_log provider e = record {
  provider = provider;
  provider_event_id = e.provider_event_id;
  processed = false;
  error = none;
}

abbrev is_log : Text → PaymentEventLog → Bool
is_log event_id l = l.provider_event_id =ᵗ event_id

-- `event_log.save(update_fields=...)`
unfoldable pub close_log : Text → Bool → Option Text → List PaymentEventLog → List PaymentEventLog
unfolding ◌=ᵗ◌
close_log event_id processed error [] = []
close_log event_id processed error (l ∷ logs) =
    if is_log event_id l
    then record l { processed = processed; error = error } ∷ logs
    else l ∷ close_log event_id processed error logs

-- the entry says how the processing ended; an exception leaves the method
unfoldable pub close_event : ProviderEvent → Result (Unit {0}) × Payments → Result Bool × Payments
unfolding close_log
close_event e (ok _, p) =
    (ok true, record p { event_logs = close_log e.provider_event_id true none p.event_logs })
close_event e (err x, p) = (
  err x,
  record p { event_logs = close_log e.provider_event_id false (some (message_of x)) p.event_logs },
)

-- The handlers of Stripe's invoices and credit notes are a parameter.
module _ (handle_document : ProviderEvent → Handler) where
  unfoldable pub process_event : Text → ProviderEvent → Handler
  unfolding handle_payment_confirmed handle_payment_failed
  process_event provider e = elim e.event_type [
    | payment_confirmed ↦ handle_payment_confirmed provider e
    | payment_failed ↦ handle_payment_failed provider e
    | document ↦ handle_document e
    | unhandled ↦ λ p. (ok tt, p)
  ]

  -- what follows the log entry
  unfoldable pub process_logged : Text → ProviderEvent → Payments → Result Bool × Payments
  unfolding close_event
  process_logged provider e p = close_event e (process_event provider e p)

  -- after the signature was verified; the Boolean says whether the event was processed
  unfoldable pub handle_webhook : Text → ProviderEvent → Payments → Result Bool × Payments
  unfolding is_logged
  handle_webhook provider e p =
      if is_logged e.provider_event_id p.event_logs
      then (ok false, p)
      else process_logged provider e (record p { event_logs = new_log provider e ∷ p.event_logs })
