-- ===== src/PaymentEvents/Checkout.antt =====
-- `create_checkout` of apps/payments/services.py; the provider's software is a parameter.
use factpulse_billing_app_pu.Base.{
  ℕ, ◌+◌, ◌≡◌, inl, inr, ap, ◌∙◌, Bool, true, false, not, ◌&&◌, Option, none, some, List, [], ◌∷◌,
  ◌++◌, arith, ◌==◌, if◌then◌else◌, ==_iff, Bool-cases, any,
}
use factpulse_billing_app_pu.Base.Text.{text_or_empty, take, Text, ◌=ᵗ◌, =ᵗ_iff, truthy, str_nat}
use factpulse_billing_app_pu.Base.Decimal.{Decimal}
use factpulse_billing_app_pu.Model.{
  Status, ◌=ˢ◌, pending, created, Snapshot, integrity, unprocessable, no_payment_link, Result, ok,
  err, Invoice,
}
use factpulse_billing_app_pu.Core.Rows.{filter, first}
use factpulse_billing_app_pu.PaymentEvents.{
  TransactionStatus, created, pending, PaymentTransaction, Payments,
}

-- `PaymentResult`
pub record PaymentResult : Type 0 where
  pub provider_payment_id : Text
  pub status : TransactionStatus
  pub checkout_url : Text
  pub payment_method : Text

-- the active configuration of the provider with its adapter: what is asked is the amount, the
-- number and the address
abbrev pub Adapter : Type 0
Adapter = Option Decimal → Text → Text → Result PaymentResult

abbrev is_open : TransactionStatus → Bool
is_open created = true
is_open pending = true
is_open _ = false

-- the transactions that a link may be taken from
unfoldable pub is_pending : Text → ℕ → PaymentTransaction → Bool
unfolding ◌=ᵗ◌
is_pending provider invoice t = t.invoice == invoice && (t.provider =ᵗ provider) && is_open t.status

abbrev is_payable : Status → Bool
is_payable status =
    any (λ t. t =ˢ status) (Status.validated ∷ Status.transmitted ∷ Status.accepted ∷ [])

abbrev customer_email : Snapshot → Text
customer_email en = elim en.recipient [ none ↦ [] | some p ↦ text_or_empty p.email ]

abbrev shown_number : Invoice → Text
shown_number invoice = if truthy invoice.number then invoice.number else take 8 (str_nat invoice.pk)

-- `PaymentTransaction.objects.create`: the amount may not be missing
unfoldable pub record_transaction :
    Text → Invoice → PaymentResult → Payments → Result PaymentTransaction × Payments
record_transaction provider invoice r p = elim invoice.total_incl_tax [
  | none ↦ (err integrity, p)
  | some amount ↦
      let t : PaymentTransaction = record {
        pk = p.billing.next_pk;
        invoice = invoice.pk;
        provider = provider;
        provider_payment_id = r.provider_payment_id;
        amount = amount;
        payment_method = r.payment_method;
        status = r.status;
        checkout_url = r.checkout_url;
      } in
      (
        ok t,
        record p {
          transactions = p.transactions ++ t ∷ [];
          billing = record (p.billing) { next_pk = p.billing.next_pk + 1 };
        },
      )
]

module _ (adapter : Option Adapter) (provider : Text) where
  -- the session that the provider opens
  unfoldable pub open_session : Invoice → Payments → Result PaymentTransaction × Payments
  unfolding record_transaction str_nat take
  open_session invoice p = elim adapter [
    | none ↦ (err unprocessable, p)
    | some ask ↦
        elim (ask invoice.total_incl_tax (shown_number invoice)
          (customer_email invoice.en16931_data)) [
            | err e ↦ (err e, p)
            | ok r ↦ record_transaction provider invoice r p
          ]
  ]

  unfoldable pub create_checkout : Invoice → Payments → Result PaymentTransaction × Payments
  unfolding open_session is_pending filter
  create_checkout invoice p =
      if not (is_payable invoice.status)
      then (err no_payment_link, p)
      else elim (first (is_pending provider invoice.pk) p.transactions) [
        | none ↦ open_session invoice p
        | some existing ↦
            if truthy existing.checkout_url then (ok existing, p) else open_session invoice p
      ]

  -- what a session leaves
  open_session_lem :
      (invoice : Invoice) (p : Payments) {t : PaymentTransaction} {p' : Payments}
      → open_session invoice p ≡ (ok t, p')
      → (p'.transactions ≡ p.transactions ++ t ∷ [])
        × (t.invoice ≡ invoice.pk)
        × (t.provider ≡ provider)
  unfolding open_session record_transaction
  open_session_lem invoice p h = ground (arith, h)

  pending-found :
      (invoice : Invoice) (rows : List PaymentTransaction) (t : PaymentTransaction)
      → first (is_pending provider invoice.pk) rows ≡ none
      → is_pending provider invoice.pk t ≡ true
      → first (is_pending provider invoice.pk) (rows ++ t ∷ []) ≡ some t
  unfolding filter
  pending-found invoice [] t h p = ground (arith, p)
  pending-found invoice (u ∷ rows) t h p = ground (arith, h, p, pending-found invoice rows t)

  pending_of :
      (invoice : Invoice) (t : PaymentTransaction)
      → t.invoice ≡ invoice.pk
      → t.provider ≡ provider
      → is_open t.status ≡ true
      → is_pending provider invoice.pk t ≡ true
  unfolding is_pending
  pending_of invoice t i q o =
      ground (arith, (==_iff t.invoice invoice.pk).1 i, (=ᵗ_iff t.provider provider).1 q, o)

  -- Where an invoice has no open transaction and a checkout opens one with a link, a second
  -- checkout returns that transaction and opens none.
  pub checkout_once :
      (invoice : Invoice) (p : Payments) {t : PaymentTransaction} {p' : Payments}
      → first (is_pending provider invoice.pk) p.transactions ≡ none
      → create_checkout invoice p ≡ (ok t, p')
      → is_open t.status ≡ true
      → truthy t.checkout_url ≡ true
      → create_checkout invoice p' ≡ (ok t, p')
  unfolding create_checkout
  checkout_once invoice p {t} {p'} none_before h open_status url =
      elim (Bool-cases (is_payable invoice.status)) [
        | inl payable ↦
            let opened : open_session invoice p ≡ (ok t, p') =
              ground (arith, payable, none_before, h) in
            let (rows, invoice_of, provider_of) = open_session_lem invoice p opened in
            let found : first (is_pending provider invoice.pk) p'.transactions ≡ some t =
              ap (first (is_pending provider invoice.pk)) rows
              ∙ pending-found invoice p.transactions t none_before
                  (pending_of invoice t invoice_of provider_of open_status) in
            ground (arith, payable, found, url)
        | inr unpayable ↦ absurd (ground (arith, unpayable, h))
      ]
