-- ===== src/InvoiceService/Drafts.antt =====
-- The creation and the update of drafts from a payload, of
-- apps/billing/services/invoice_service.py: `create_invoice`, `replace_draft_data` and
-- `update_invoice`. The resolution of the parties and products is used through an interface.
pub mod Frames
pub mod Written
pub mod Updates
pub mod Refusals
pub mod Rows
pub mod Resolved
mod Tests
use factpulse_billing_app_pu.Base.{
  ℕ, Bool, not, ◌&&◌, none, some, List, [], ◌++◌, if◌then◌else◌, or_else,
}
use factpulse_billing_app_pu.Base.Text.{truthy}
use factpulse_billing_app_pu.Model.{
  AuditAction, data_update, Snapshot, no_snapshot, only_drafts_edited, Result, ok, err, Action,
  ◌>>=◌, ◌>>◌, pure, lift, raise_if, Invoice,
}
use factpulse_billing_app_pu.Resolution.Entities.{Warning}
use factpulse_billing_app_pu.Resolution.Parties.{PartyPayload, is_filled}
use factpulse_billing_app_pu.StateMachine.{is_editable}
use factpulse_billing_app_pu.InvoiceService.Payloads.{
  Payload, no_party_payload, NamedSupplier, NamedCustomer, Parties, Built, with_supplier,
  with_recipient, with_data, save_and_log, insert_draft, edited, validate_editable, kept_references,
  overlay, without_totals, update_scalar_fields, enrich_for, rebuilt,
}

module _ (parties : Parties) where
  unfoldable pub resolve_lines_of : ℕ → Snapshot → Result Snapshot
  resolve_lines_of organization en = elim en.invoice_lines [
    | none ↦ ok en
    | some lines ↦ elim (parties.resolve_product_lines organization lines) [
      | err e ↦ err e
      | ok resolved ↦ ok (record en { invoice_lines = some resolved })
    ]
  ]

  -- the data of a payload, from the two parties
  unfoldable pub assemble : ℕ → Payload → NamedSupplier → NamedCustomer → Action Built
  unfolding resolve_lines_of enrich_for
  assemble organization payload s c = do
    let given = or_else payload.en16931_data no_snapshot
    en ← lift (resolve_lines_of organization (with_recipient c.party (with_supplier s.party given)))
    enriched ← enrich_for s.key en
    pure (record {
      supplier = s.key;
      customer = c.key;
      en16931_data = enriched;
      warnings = s.warnings ++ c.warnings;
    })

  -- `_build_invoice_data`
  unfoldable pub build_invoice_data : ℕ → Payload → Action Built
  unfolding assemble
  build_invoice_data organization payload = do
    s ← parties.resolve_supplier organization (or_else payload.supplier no_party_payload)
    c ← parties.resolve_customer organization (or_else payload.customer no_party_payload)
    assemble organization payload s c

  unfoldable pub create_invoice : ℕ → Payload → Action (Invoice × List Warning)
  unfolding insert_draft
  create_invoice organization payload = do
    built ← build_invoice_data organization payload
    insert_draft organization payload built

  unfoldable pub replace_draft_data : Invoice → Payload → Action (Invoice × List Warning)
  unfolding rebuilt is_editable save_and_log
  replace_draft_data invoice payload = do
    raise_if (not (is_editable invoice)) only_drafts_edited
    built ← build_invoice_data invoice.organization payload
    save_and_log AuditAction.data_update built.warnings (rebuilt invoice built)

  abbrev override_supplier : PartyPayload → Invoice → Invoice
  override_supplier p invoice =
      if truthy p.identifier && is_filled p.override
      then with_data
          (with_supplier (parties.deep_merge invoice.en16931_data.supplier p.override)
            invoice.en16931_data)
          invoice
      else invoice

  unfoldable pub set_supplier : PartyPayload → Invoice → NamedSupplier → Invoice
  set_supplier p invoice s = override_supplier p (record invoice {
    supplier = s.key;
    en16931_data = with_supplier s.party invoice.en16931_data;
  })

  -- `_update_supplier`
  unfoldable pub update_supplier : Invoice → Payload → Action (Invoice × List Warning)
  unfolding set_supplier
  update_supplier invoice payload = elim payload.supplier [
    | none ↦ pure (invoice, [])
    | some p ↦ do
      s ← parties.resolve_supplier invoice.organization p
      pure (set_supplier p invoice s, s.warnings)
  ]

  abbrev override_customer : Bool → PartyPayload → Invoice → Invoice
  override_customer names_id p invoice =
      if names_id && is_filled p.override
      then with_data
          (record (invoice.en16931_data) {
            recipient = some (parties.deep_merge invoice.en16931_data.recipient p.override);
          })
          invoice
      else invoice

  unfoldable pub set_customer : Bool → PartyPayload → Invoice → NamedCustomer → Invoice
  set_customer names_id p invoice c = override_customer names_id p (record invoice {
    customer = c.key;
    en16931_data = with_recipient c.party invoice.en16931_data;
  })

  -- `_update_customer`
  unfoldable pub update_customer : Invoice → Payload → Action (Invoice × List Warning)
  unfolding set_customer
  update_customer invoice payload = elim payload.customer [
    | none ↦ pure (invoice, [])
    | some p ↦ do
      c ← parties.resolve_customer invoice.organization p
      pure (set_customer payload.names_customer_id p invoice c, c.warnings)
  ]

  -- `_update_en16931_data`
  unfoldable pub update_en16931_data : Invoice → Payload → Result Invoice
  unfolding resolve_lines_of
  update_en16931_data invoice payload = elim payload.en16931_data [
    | none ↦ ok invoice
    | some new ↦
        let merged =
          overlay invoice.en16931_data
            (record new { references = kept_references invoice new.references }) in
        elim new.invoice_lines [
          | none ↦ ok (with_data merged invoice)
          | some _ ↦ elim (resolve_lines_of invoice.organization merged) [
            | err e ↦ err e
            | ok en ↦ ok (with_data en invoice)
          ]
        ]
  ]

  -- the enrichment after a change of the data
  unfoldable pub re_enrich : Invoice → Payload → Action Invoice
  unfolding enrich_for
  re_enrich invoice payload = elim payload.en16931_data [
    | none ↦ pure invoice
    | some new ↦ do
      enriched ← enrich_for invoice.supplier (without_totals new invoice.en16931_data)
      pure (with_data enriched invoice)
  ]

  -- the changes after those of the parties
  unfoldable pub update_rest : Payload → Invoice → Action Invoice
  unfolding update_en16931_data update_scalar_fields re_enrich
  update_rest payload invoice = do
    changed ← lift (update_en16931_data invoice payload)
    enriched ← re_enrich (update_scalar_fields changed payload) payload
    pure (edited enriched)

  -- the changes of the object, in their order
  unfoldable pub apply_update : Invoice → Payload → Action (Invoice × List Warning)
  unfolding update_supplier update_customer update_rest
  apply_update invoice payload = do
    s ← update_supplier invoice payload
    c ← update_customer s.0 payload
    changed ← update_rest payload c.0
    pure (changed, s.1 ++ c.1)

  unfoldable pub update_invoice : Invoice → Payload → Action (Invoice × List Warning)
  unfolding validate_editable save_and_log
  update_invoice invoice payload = do
    lift (validate_editable invoice payload)
    changed ← apply_update invoice payload
    save_and_log AuditAction.data_update changed.1 changed.0
