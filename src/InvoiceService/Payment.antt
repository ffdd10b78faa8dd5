-- ===== src/InvoiceService/Payment.antt =====
-- `mark_paid` of invoice_service.py.
use factpulse_billing_app_pu.Base.{
  Bool, false, not, Option, none, some, [], ◌∷◌, if◌then◌else◌, or_else,
}
use factpulse_billing_app_pu.Base.Text.{Text}
use factpulse_billing_app_pu.Base.Date.{Date}
use factpulse_billing_app_pu.Base.Decimal.{Decimal, is_zero_dec}
use factpulse_billing_app_pu.Model.{
  Status, Invoice, submit_cdar_paid, Result, ok, err, Action, ◌>>=◌, ◌>>◌, pure, lift, audit,
  send_task, save, invalid_amount, source,
}
use factpulse_billing_app_pu.StateMachine.{validate_transition}
use factpulse_billing_app_pu.InvoiceService.Lifecycle.{status_change}

-- a value of `payment_data["amount"]`: a number, a text that reads as a number, or another text
pub data GivenAmount : Type 0 where
  as_number : Decimal → GivenAmount
  as_numeral : Decimal → GivenAmount
  as_text : Text → GivenAmount

-- the dict `payment_data`: `none` where it lacks the key
pub record PaymentData : Type 0 where
  pub payment_date : Option Date
  pub payment_reference : Option Text
  pub amount : Option GivenAmount

abbrev pub no_payment_data : PaymentData
no_payment_data = record { payment_date = none; payment_reference = none; amount = none }

-- `if payment_data.get("amount"):` and `Decimal(str(...))`; `none` where the test fails
unfoldable pub given_amount : Option GivenAmount → Result (Option Decimal)
given_amount none = ok none
given_amount (some (as_number d)) = if is_zero_dec d then ok none else ok (some d)
given_amount (some (as_numeral d)) = ok (some d)
given_amount (some (as_text [])) = ok none
given_amount (some (as_text (_ ∷ _))) = err invalid_amount

abbrev is_nonzero : Option Decimal → Bool
is_nonzero none = false
is_nonzero (some d) = not (is_zero_dec d)

-- a value that was given, else the one that is there, else the default
abbrev pub paid_on : Option Date → Option Date → Date → Option Date
paid_on (some d) _ _ = some d
paid_on none (some d) _ = some d
paid_on none none today = some today

abbrev pub amount_paid : Option Decimal → Option Decimal → Option Decimal → Option Decimal
amount_paid (some d) _ _ = some d
amount_paid none old total = if is_nonzero old then old else total

-- the payment fields of the paid invoice
unfoldable pub record_payment : PaymentData → Option Decimal → Date → Invoice → Invoice
record_payment data' amount today invoice = record invoice {
  status = Status.paid;
  payment_date = paid_on data'.payment_date invoice.payment_date today;
  payment_reference = or_else data'.payment_reference invoice.payment_reference;
  payment_amount = amount_paid amount invoice.payment_amount invoice.total_incl_tax;
}

-- the audit entry and the task that reports the payment (CDAR 212)
unfoldable pub announce_paid : Status → Text → Invoice → Action Invoice
announce_paid old_status origin saved = do
  audit (status_change saved.pk old_status Status.paid (source origin))
  send_task (submit_cdar_paid saved.pk)
  pure saved

-- an empty `origin` stands for `source=None`
unfoldable pub mark_paid : Invoice → PaymentData → Text → Action Invoice
mark_paid invoice data' origin w =
    (do
      lift (validate_transition invoice Status.paid)
      amount ← lift (given_amount data'.amount)
      saved ← save (record_payment data' amount w.today invoice)
      announce_paid invoice.status origin saved)
      w
