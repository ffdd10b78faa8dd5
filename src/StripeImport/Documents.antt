-- ===== src/StripeImport/Documents.antt =====
-- The imports of invoices and credit notes, of apps/payments/services.py.
use factpulse_billing_app_pu.Base.{
  ℕ, Bool, true, false, not, ◌&&◌, Option, none, some, List, [], ◌==◌, if◌then◌else◌, is_some,
  or_else, any,
}
use factpulse_billing_app_pu.Base.Text.{
  text_or_empty, starts_with, Text, codes, ◌=ᵗ◌, truthy, str_nat,
}
use factpulse_billing_app_pu.Base.Date.{Date}
use factpulse_billing_app_pu.Base.Decimal.{Decimal}
use factpulse_billing_app_pu.Model.{
  no_snapshot, value_error, Result, ok, Action, ◌>>=◌, ◌>>◌, pure, lift, raise_if, Invoice,
  references_of, save_fields,
}
use factpulse_billing_app_pu.StripeMapper.{Original, CreditNote, stripe_credit_note_to_payload}
use factpulse_billing_app_pu.StripeMapper
use factpulse_billing_app_pu.StripeMapper.Invoices.{
  InvoiceItem, MappedProduct, stripe_invoice_to_payload,
}
use factpulse_billing_app_pu.InvoiceService.Payloads.{Payload, Parties, no_party_payload}
use factpulse_billing_app_pu.InvoiceService.Drafts.{create_invoice, replace_draft_data}
use factpulse_billing_app_pu.StripeImport.Customers.{
  StripeDocument, ProviderConfig, CatalogProduct, newest, is_external, is_import_of, link_customer,
}

-- `_build_stripe_product_map`
unfoldable pub build_stripe_product_map :
    List CatalogProduct → ℕ → List InvoiceItem → Text → Option MappedProduct
unfolding ◌=ᵗ◌ newest
build_stripe_product_map products organization items id =
    if truthy id && any (λ (i : InvoiceItem). i.product_id =ᵗ id) items
    then elim (newest
        (λ (p : CatalogProduct).
          p.organization == organization && is_external id p.external_id && not p.archived)
        products) [ none ↦ none | some p ↦ some p.mapped ]
    else none

-- the payload of `create_invoice`; a linked customer stands for the recipient
unfoldable pub draft_payload : StripeMapper.Payload → Payload
draft_payload p = record {
  supplier = some (record no_party_payload { identifier = text_or_empty p.supplier_id });
  customer = elim p.customer_id [
    | none ↦ none
    | some c ↦ some (record no_party_payload { identifier = c })
  ];
  names_customer_id = is_some p.customer_id;
  en16931_data = some (record no_snapshot {
    references = some p.references;
    recipient = p.recipient;
    invoice_lines = some p.invoice_lines;
    totals = some p.totals;
  });
  external_id = some (some p.external_id);
  is_internal = some p.is_internal;
  number = p.number;
  version = none;
}

abbrev with_customer : Option ℕ → StripeMapper.Payload → StripeMapper.Payload
with_customer none p = p
with_customer (some pk) p = record p { recipient = none; customer_id = some (str_nat pk) }

abbrev uuid_of : Option ℕ → Option Text
uuid_of none = none
uuid_of (some pk) = some (str_nat pk)

-- what the mapper of credit notes reads of the credited invoice
unfoldable pub original_of : Invoice → Original
unfolding str_nat
original_of i = record {
  number = i.number;
  issue_date = i.issue_date;
  payment_means = (references_of i.en16931_data.references).payment_means;
  lines = or_else i.en16931_data.invoice_lines [];
  supplier = some (str_nat i.supplier);
  customer = uuid_of i.customer;
  recipient = i.en16931_data.recipient;
}

module _ (divide : Decimal → Decimal → Decimal) (products : List CatalogProduct) where
  -- the payload, once the customer is known
  unfoldable pub payload_of : ProviderConfig → StripeDocument → Date → Option ℕ → Payload
  unfolding build_stripe_product_map draft_payload stripe_invoice_to_payload str_nat
  payload_of config d today customer = draft_payload (
      with_customer customer (
        stripe_invoice_to_payload divide
          (build_stripe_product_map products config.organization d.invoice.items)
          (uuid_of config.default_supplier) today d.invoice))

  -- `_build_stripe_invoice_payload`
  unfoldable pub build_stripe_invoice_payload : ProviderConfig → StripeDocument → Action Payload
  unfolding link_customer payload_of
  build_stripe_invoice_payload config d = do
    customer ← link_customer config.organization d
    λ w. (ok (payload_of config d w.today customer), w)

module _ (parties : Parties) (divide : Decimal → Decimal → Decimal)
    (products : List CatalogProduct) where
  -- a new draft
  unfoldable pub import_new : ProviderConfig → StripeDocument → Action (Invoice × Bool)
  unfolding build_stripe_invoice_payload
  import_new config d = do
    payload ← build_stripe_invoice_payload divide products config d
    r ← create_invoice parties config.organization payload
    pure (r.0, true)

  -- `import_stripe_invoice`; the Boolean says whether the draft is new
  unfoldable pub import_stripe_invoice : ProviderConfig → StripeDocument → Action (Invoice × Bool)
  unfolding newest is_import_of import_new
  import_stripe_invoice config d w =
      elim (newest (is_import_of config.organization d.invoice.id) w.invoices) [
        | some existing ↦ (ok (existing, false), w)
        | none ↦ import_new config d w
      ]

  -- `resync_stripe_invoice`; `retrieve` reads the invoice through the API
  unfoldable pub resync_stripe_invoice :
      ProviderConfig → (Text → Result StripeDocument) → Invoice → Action Invoice
  unfolding build_stripe_invoice_payload replace_draft_data starts_with
  resync_stripe_invoice config retrieve invoice = do
    let id = text_or_empty invoice.external_id
    raise_if (not (starts_with (codes "in_") id)) value_error
    d ← lift (retrieve id)
    payload ←
        build_stripe_invoice_payload divide products
          (record config { organization = invoice.organization }) d
    r ← replace_draft_data parties invoice payload
    pure r.0

  abbrev write_preceding : Invoice → Invoice → Invoice
  write_preceding object row = record row { preceding_invoice = object.preceding_invoice }

  -- the draft of a credit note of an invoice that is there
  unfoldable pub create_credit_note : ℕ → CreditNote → Invoice → Action (Option Invoice × Bool)
  unfolding draft_payload original_of stripe_credit_note_to_payload
  create_credit_note organization note original w =
      (do
        r ← create_invoice parties organization (
            draft_payload
              (stripe_credit_note_to_payload divide w.today note (original_of original)))
        saved ← save_fields write_preceding (record (r.0) { preceding_invoice = some original.pk })
        pure (some saved, true))
        w

  -- `import_stripe_credit_note`; `credited` is the identifier of the credited invoice
  unfoldable pub import_stripe_credit_note : ℕ → Text → CreditNote → Action (Option Invoice × Bool)
  unfolding newest is_import_of create_credit_note
  import_stripe_credit_note organization credited note w =
      elim (newest (is_import_of organization note.id) w.invoices) [
        | some existing ↦ (ok (some existing, false), w)
        | none ↦ elim (newest (is_import_of organization credited) w.invoices) [
          | none ↦ (ok (none, false), w)
          | some original ↦
              if truthy credited
              then create_credit_note organization note original w
              else (ok (none, false), w)
        ]
      ]
