-- ===== src/StripeImport/Paid.antt =====
-- What the payment of a Stripe invoice does to its draft.
use factpulse_billing_app_pu.Base.{◌≡◌, true, some, ◌++◌, arith}
use factpulse_billing_app_pu.Base.Text.{Text, codes, truthy}
use factpulse_billing_app_pu.Base.Decimal.{Decimal}
use factpulse_billing_app_pu.Model.{
  World, ok, pure, >>=-ok, Invoice, put, invoice_key, find_invoice, sync_denormalized_fields,
  save_fields, save_fields_lem,
}
use factpulse_billing_app_pu.StripeMapper.{cents_to_decimal, or_zero}
use factpulse_billing_app_pu.StripeImport.Customers.{StripeDocument, newest}
use factpulse_billing_app_pu.StripeImport.Events.{
  write_payment, note_payment, is_unissued, is_live, handle_invoice_paid,
}

-- the row of a draft with the payment that Stripe reported
abbrev pub noted : Text → StripeDocument → World → Invoice → Invoice
noted provider d w invoice = record invoice {
  payment_date = some w.today;
  payment_reference = provider ++ codes ":" ++ d.invoice.id;
  payment_amount = some (cents_to_decimal (or_zero d.amount_paid));
}

note_payment_lem :
    (reference : Text) (amount : Decimal) (invoice : Invoice) (w : World)
    → find_invoice invoice.pk w ≡ some invoice
    → note_payment reference amount invoice w ≡ (
      ok tt,
      record w {
        invoices =
            put invoice_key
              (record invoice {
                payment_date = some w.today;
                payment_reference = reference;
                payment_amount = some amount;
              })
              w.invoices;
      },
    )
unfolding note_payment sync_denormalized_fields
note_payment_lem reference amount invoice w own =
    let object = record invoice {
      payment_date = some w.today;
      payment_reference = reference;
      payment_amount = some amount;
    } in
    >>=-ok (save_fields write_payment object) (λ _. pure tt) w
      (save_fields_lem write_payment object w own)

-- Where Stripe reports the payment of an invoice that is still a draft or being processed, its
-- date, reference and amount are recorded in its row, its status stays, and nothing else changes.
pub early_payment_noted :
    (provider : Text) (d : StripeDocument) (w : World) {invoice : Invoice}
    → truthy d.invoice.id ≡ true
    → newest (is_live d.invoice.id) w.invoices ≡ some invoice
    → find_invoice invoice.pk w ≡ some invoice
    → is_unissued invoice.status ≡ true
    → handle_invoice_paid provider d w
      ≡ (ok tt, record w { invoices = put invoice_key (noted provider d w invoice) w.invoices })
unfolding handle_invoice_paid
early_payment_noted provider d w {invoice} id there own unissued = ground (
  arith,
  id,
  there,
  unissued,
  note_payment_lem (provider ++ codes ":" ++ d.invoice.id)
      (cents_to_decimal (or_zero d.amount_paid)) invoice w own,
)
