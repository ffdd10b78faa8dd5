-- ===== src/InvoiceService/Payloads.antt =====
-- The payload of a draft and the steps of its creation and update that call no resolution, of
-- apps/billing/services/invoice_service.py, with the interface of the resolution.
use factpulse_billing_app_pu.Base.{
  ℕ, ◌+◌, Bool, false, not, Option, none, some, List, [], ◌==◌, if◌then◌else◌, is_some, or_else,
}
use factpulse_billing_app_pu.Base.Text.{strip, Text, truthy}
use factpulse_billing_app_pu.Base.Json.{Fields, field_end}
use factpulse_billing_app_pu.Model.{
  AuditAction, Party, References, Line, Snapshot, only_drafts_edited, version_required,
  version_stale, Result, ok, err, Action, ◌>>=◌, ◌>>◌, pure, Invoice, plain, find, references_of,
  save, audit,
}
use factpulse_billing_app_pu.Resolution.Entities.{Warning}
use factpulse_billing_app_pu.Resolution.Parties.{PartyPayload}
use factpulse_billing_app_pu.StateMachine.{is_editable}
use factpulse_billing_app_pu.PayloadBuilder.Dates.{enrich_en16931_data, copied}
use factpulse_billing_app_pu.InvoiceService.Lifecycle.{log_entry, supplier_key}
use factpulse_billing_app_pu.InvoiceService.CreditNote.{new_invoice}

-- The payload of a request. `none` is a key that is absent, and a null party is one without data;
-- `names_customer_id` says whether "customer_id" is a key, also with null.
pub record Payload : Type 0 where
  pub supplier : Option PartyPayload
  pub customer : Option PartyPayload
  pub names_customer_id : Bool
  pub en16931_data : Option Snapshot
  pub external_id : Option (Option Text)
  pub is_internal : Option Bool
  pub number : Text
  pub version : Option ℕ

abbrev pub no_party_payload : PartyPayload
no_party_payload = record { identifier = []; inline_data = field_end; override = field_end }

-- what the two resolutions return: a row, its data and the warnings
pub record NamedSupplier : Type 0 where
  pub key : ℕ
  pub party : Party
  pub warnings : List Warning

pub record NamedCustomer : Type 0 where
  pub key : Option ℕ
  pub party : Option Party
  pub warnings : List Warning

-- The functions of resolution_service.py that the service calls, on the records of the snapshot.
pub record Parties : Type 0 where
  pub resolve_supplier : ℕ → PartyPayload → Action NamedSupplier
  pub resolve_customer : ℕ → PartyPayload → Action NamedCustomer
  pub resolve_product_lines : ℕ → List Line → Result (List Line)
  pub deep_merge : Option Party → Fields → Party

-- the result of `_build_invoice_data`
pub record Built : Type 0 where
  pub supplier : ℕ
  pub customer : Option ℕ
  pub en16931_data : Snapshot
  pub warnings : List Warning

abbrev pub with_supplier : Party → Snapshot → Snapshot
with_supplier party en = record en { supplier = some party }

-- an empty recipient leaves the key alone
abbrev pub with_recipient : Option Party → Snapshot → Snapshot
with_recipient party en = record en { recipient = copied party en.recipient }

abbrev pub with_data : Snapshot → Invoice → Invoice
with_data en invoice = record invoice { en16931_data = en }

-- the number of an external source, without the space around it
unfoldable pub with_number : Text → Invoice → Invoice
unfolding strip
with_number number invoice =
    if truthy (strip number)
    then record invoice {
      number = strip number;
      en16931_data = record (invoice.en16931_data) { invoice_number = some (strip number) };
    }
    else invoice

abbrev pub draft_of : ℕ → Payload → Built → ℕ → Invoice
draft_of organization payload built pk =
    record (new_invoice pk organization built.supplier built.customer built.en16931_data) {
      external_id = or_else payload.external_id none;
      is_internal = or_else payload.is_internal false;
    }

-- the last steps of the three functions
unfoldable pub save_and_log : AuditAction → List Warning → Invoice → Action (Invoice × List Warning)
save_and_log action warnings invoice = do
  saved ← save invoice
  audit (log_entry saved.pk action plain)
  pure (saved, warnings)

-- the insertion of a row under the next key of the table
unfoldable pub insert_draft : ℕ → Payload → Built → Action (Invoice × List Warning)
unfolding save_and_log with_number
insert_draft organization payload built w =
    save_and_log AuditAction.created built.warnings
      (with_number payload.number (draft_of organization payload built w.next_pk))
      (record w { next_pk = w.next_pk + 1 })

-- a draft keeps its number
abbrev pub keep_number : Text → Snapshot → Snapshot
keep_number number en = if truthy number then record en { invoice_number = some number } else en

-- what an edit does to a draft besides its data
abbrev pub edited : Invoice → Invoice
edited invoice = record invoice {
  version = invoice.version + 1;
  factpulse_error = none;
  pdf_file = none;
}

-- `_validate_editable`
unfoldable pub validate_editable : Invoice → Payload → Result (Unit {0})
unfolding is_editable
validate_editable invoice payload =
    if not (is_editable invoice) then err only_drafts_edited else elim payload.version [
      | none ↦ err version_required
      | some expected ↦ if expected == invoice.version then ok tt else err version_stale
    ]

-- BT-25 and BT-26 of a credit note stay when the references are replaced
abbrev pub with_preceding : Option References → References → References
with_preceding old new = record new {
  preceding_invoice_reference =
      copied new.preceding_invoice_reference (references_of old).preceding_invoice_reference;
  preceding_invoice_date =
      copied new.preceding_invoice_date (references_of old).preceding_invoice_date;
}

abbrev pub kept_references : Invoice → Option References → Option References
kept_references invoice none = none
kept_references invoice (some new) = some (
    if is_some invoice.preceding_invoice
    then with_preceding invoice.en16931_data.references new
    else new)

-- `for key, value in new_data.items(): en16931_data[key] = value`
abbrev pub overlay : Snapshot → Snapshot → Snapshot
overlay old new = record {
  invoice_number = copied new.invoice_number old.invoice_number;
  invoice_date = copied new.invoice_date old.invoice_date;
  payment_due_date = copied new.payment_due_date old.payment_due_date;
  supplier = copied new.supplier old.supplier;
  recipient = copied new.recipient old.recipient;
  references = copied new.references old.references;
  invoice_lines = copied new.invoice_lines old.invoice_lines;
  totals = copied new.totals old.totals;
  vat_lines = copied new.vat_lines old.vat_lines;
  notes = copied new.notes old.notes;
}

-- the computed fields go where the lines are replaced
abbrev pub without_totals : Snapshot → Snapshot → Snapshot
without_totals new en = elim new.invoice_lines [
  | none ↦ en
  | some _ ↦ record en { totals = none; vat_lines = none }
]

-- `_update_scalar_fields`
unfoldable pub update_scalar_fields : Invoice → Payload → Invoice
update_scalar_fields invoice payload = record invoice {
  external_id = or_else payload.external_id invoice.external_id;
  is_internal = or_else payload.is_internal invoice.is_internal;
}

-- `enrich_en16931_data(..., supplier=supplier)`
unfoldable pub enrich_for : ℕ → Snapshot → Action Snapshot
enrich_for supplier en w =
    (enrich_en16931_data w.today (find supplier_key supplier w.suppliers) en, w)

-- the draft with what was built again
unfoldable pub rebuilt : Invoice → Built → Invoice
rebuilt invoice built = edited (record invoice {
  supplier = built.supplier;
  customer = built.customer;
  en16931_data = keep_number invoice.number built.en16931_data;
})
