-- ===== src/Model/Store.antt =====
-- The database as the billing code sees it: rows by their keys, and the writes of the code.
use factpulse_billing_app_pu.Base.{
  ℕ, ◌≡◌, refl, ap, ◌∙◌, Bool, false, not, ◌&&◌, ◌||◌, Option, none, some, List, [], ◌∷◌, arith,
  ◌==◌, if◌then◌else◌, any,
}
use factpulse_billing_app_pu.Base.Text.{Text, truthy, ◌=ᵗ◌}
use factpulse_billing_app_pu.Base.Decimal.{Decimal}
use factpulse_billing_app_pu.Model.Data.{
  Amount, dec, text, Totals, References, no_totals, no_references,
}
use factpulse_billing_app_pu.Model.Rows.{Invoice, AuditLog}
use factpulse_billing_app_pu.Model.Effects.{
  Task, Webhook, Signal, World, integrity, no_row, ok, err, Action, modify,
}

-- rows by their key
module _ {A : Type 0} (key : A → ℕ) where
  unfoldable pub find : ℕ → List A → Option A
  find k [] = none
  find k (a ∷ rows) = if key a == k then some a else find k rows

  unfoldable pub put : A → List A → List A
  put a [] = a ∷ []
  put a (b ∷ rows) = if key b == key a then a ∷ rows else b ∷ put a rows

  pub find-put :
      (k : ℕ) (a : A) (rows : List A)
      → find k (put a rows) ≡ (if key a == k then some a else find k rows)
  unfolding find put
  find-put k a [] = refl
  find-put k a (b ∷ rows) = ground (arith, find-put k a rows)

  pub key-find : (k : ℕ) (rows : List A) (a : A) → find k rows ≡ some a → key a ≡ k
  unfolding find
  key-find k [] a h = cc
  key-find k (b ∷ rows) a h = ground (arith, key-find k rows a)

abbrev pub invoice_key : Invoice → ℕ
invoice_key inv = inv.pk

abbrev pub find_invoice : ℕ → World → Option Invoice
find_invoice k w = find invoice_key k w.invoices

-- `Invoice._to_decimal`
abbrev pub to_decimal : Option Amount → Option Decimal
to_decimal none = none
to_decimal (some (dec d)) = some d
to_decimal (some (text _)) = none

abbrev keep : {A : Type 0} → Option A → A → A
keep none old = old
keep (some a) _ = a

abbrev keep_some : {A : Type 0} → Option A → Option A → Option A
keep_some none old = old
keep_some (some a) _ = some a

-- a text that is absent or empty leaves the field alone
abbrev keep_text : Option Text → Text → Text
keep_text none old = old
keep_text (some t) old = if truthy t then t else old

abbrev pub totals_of : Option Totals → Totals
totals_of none = no_totals
totals_of (some t) = t

abbrev pub references_of : Option References → References
references_of none = no_references
references_of (some r) = r

-- `Invoice._sync_denormalized_fields`
unfoldable pub sync_denormalized_fields : Invoice → Invoice
sync_denormalized_fields inv =
    let totals = totals_of inv.en16931_data.totals in
    let refs = references_of inv.en16931_data.references in
    record inv {
      total_excl_tax = to_decimal totals.total_net_amount;
      total_tax = to_decimal totals.vat_amount;
      total_incl_tax = to_decimal totals.total_gross_amount;
      issue_date = keep_some refs.issue_date inv.issue_date;
      due_date = keep_some refs.due_date inv.due_date;
      currency_code = keep_text refs.invoice_currency inv.currency_code;
      invoice_type_code = keep_text refs.invoice_type inv.invoice_type_code;
    }

abbrev same_external_id : Option Text → Option Text → Bool
same_external_id (some a) (some b) = a =ᵗ b
same_external_id _ _ = false

-- `unique_invoice_number_per_supplier` and `unique_invoice_external_id_per_org`
unfoldable pub collides : Invoice → Invoice → Bool
unfolding ◌=ᵗ◌
collides a b =
    not (a.pk == b.pk)
    && ((a.supplier == b.supplier && truthy a.number && (a.number =ᵗ b.number))
        || (a.organization == b.organization && same_external_id a.external_id b.external_id))

-- `Invoice.save()`; the database refuses a row that breaks a constraint
unfoldable pub save : Invoice → Action Invoice
save inv w =
    let row = sync_denormalized_fields inv in
    if any (collides row) w.invoices
    then (err integrity, w)
    else (ok row, record w { invoices = put invoice_key row w.invoices })

-- `invoice.save(update_fields=...)`: `write object row` is the row with those fields written
unfoldable pub save_fields : (Invoice → Invoice → Invoice) → Invoice → Action Invoice
save_fields write inv w =
    let object = sync_denormalized_fields inv in
    elim (find_invoice inv.pk w) [
      | none ↦ (err no_row, w)
      | some row ↦
          (ok object, record w { invoices = put invoice_key (write object row) w.invoices })
    ]

-- `InvoiceAuditLog.objects.create`
abbrev pub audit : AuditLog → Action (Unit {0})
audit entry = modify (λ w. record w { audit_logs = entry ∷ w.audit_logs })

abbrev pub send_task : Task → Action (Unit {0})
send_task t = modify (λ w. record w { tasks = t ∷ w.tasks })

abbrev pub emit_webhook : Webhook → Action (Unit {0})
emit_webhook h = modify (λ w. record w { webhooks = h ∷ w.webhooks })

abbrev pub send_signal : Signal → Action (Unit {0})
send_signal s = modify (λ w. record w { signals = s ∷ w.signals })

-- A saved object stands in its row, and no other row changes.
pub save_lem :
    (inv : Invoice) (w : World) {row : Invoice}
    → (save inv w).0 ≡ ok row
    → (row ≡ sync_denormalized_fields inv)
      × ((k : ℕ)
          → find_invoice k (save inv w).1 ≡ (if row.pk == k then some row else find_invoice k w))
unfolding save
save_lem inv w {row} h = (
  ground arith,
  λ k. ground (arith, find-put invoice_key k (sync_denormalized_fields inv) w.invoices),
)

-- A found row stands under its own key.
pub find-own :
    (k : ℕ) (w : World) {row : Invoice}
    → find_invoice k w ≡ some row
    → find_invoice row.pk w ≡ some row
find-own k w {row} h = ap (λ j. find_invoice j w) (key-find invoice_key k w.invoices row h) ∙ h

-- Where the object has a row, `save(update_fields=...)` writes it, and nothing else.
pub save_fields_lem :
    (write : Invoice → Invoice → Invoice) (inv : Invoice) (w : World) {row : Invoice}
    → find_invoice inv.pk w ≡ some row
    → save_fields write inv w ≡ (
      ok (sync_denormalized_fields inv),
      record w { invoices = put invoice_key (write (sync_denormalized_fields inv) row) w.invoices },
    )
unfolding save_fields
save_fields_lem write inv w h = ground arith

pub save-tasks : (inv : Invoice) (w : World) → (save inv w).1.tasks ≡ w.tasks
unfolding save
save-tasks inv w = ground arith
