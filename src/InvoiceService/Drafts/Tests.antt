-- ===== src/InvoiceService/Drafts/Tests.antt =====
-- Runs of the creation and of updates of a draft.
use factpulse_billing_app_pu.Base.{◌≡◌, refl, true, false, none, some, List, [], ◌∷◌}
use factpulse_billing_app_pu.Base.Text.{codes}
use factpulse_billing_app_pu.Model.{
  World, version_stale, Result, ok, err, Invoice, find, sync_denormalized_fields, collides, save,
}
use factpulse_billing_app_pu.Resolution.Entities.{Warning, Reading}
use factpulse_billing_app_pu.InvoiceService.Payloads.{
  Payload, no_party_payload, Parties, save_and_log, validate_editable,
}
use factpulse_billing_app_pu.InvoiceService.Drafts.{
  build_invoice_data, create_invoice, replace_draft_data, update_supplier, update_customer,
  update_rest, apply_update, update_invoice,
}
use factpulse_billing_app_pu.InvoiceService.Drafts.Frames.{KeepsInvoices}
use factpulse_billing_app_pu.InvoiceService.Drafts.Updates.{
  Created, Updated, create_invoice_lem, update_invoice_lem,
}
use factpulse_billing_app_pu.InvoiceService.Drafts.Refusals.{
  Spares, refused_edits, stale_update_refused,
}
use factpulse_billing_app_pu.InvoiceService.Drafts.Resolved.{
  resolution_parties, resolution-KeepsInvoices, supplier_in, customer_in,
}
use factpulse_billing_app_pu.PayloadBuilder.Dates.{enrich_en16931_data}
use factpulse_billing_app_pu.PayloadBuilder.Totals.{fill_buckets, vat_lines_of}
use factpulse_billing_app_pu.Samples.{sample_draft, world_of}

abbrev reading : Reading
reading = record { parse_uuid = λ v. none; str = λ j. [] }

abbrev parties : Parties
parties = resolution_parties reading (λ organization lines. ok lines)

abbrev keeps : KeepsInvoices parties
keeps = resolution-KeepsInvoices reading (λ organization lines. ok lines)

-- a new invoice of the default supplier, with the number that Stripe gave it
abbrev imported : Payload
imported = record {
  supplier = some (record no_party_payload { identifier = codes "default" });
  customer = none;
  names_customer_id = false;
  en16931_data = none;
  external_id = some (some (codes "in_1"));
  is_internal = some true;
  number = codes " S-1 ";
  version = none;
}

-- an edit of the first version, which unlinks the customer
abbrev edit : Payload
edit = record imported {
  supplier = none;
  customer = some no_party_payload;
  names_customer_id = true;
  version = some 1;
}

abbrev start : World
start = world_of (sample_draft ∷ [])

abbrev invoice_of : Result (Invoice × List Warning) → Invoice × List Warning
invoice_of (ok r) = r
invoice_of (err e) = (sample_draft, [])

abbrev creation : Result (Invoice × List Warning) × World
creation = create_invoice parties 7 imported start

abbrev update : Result (Invoice × List Warning) × World
update = update_invoice parties sample_draft edit start

creation_succeeds : creation ≡ (ok (invoice_of creation.0), creation.1)
unfolding create_invoice build_invoice_data supplier_in customer_in enrich_en16931_data fill_buckets
    vat_lines_of save find collides sync_denormalized_fields
creation_succeeds = refl

update_succeeds : update ≡ (ok (invoice_of update.0), update.1)
unfolding update_invoice apply_update update_supplier update_customer update_rest supplier_in
    customer_in validate_editable enrich_en16931_data fill_buckets vat_lines_of save save_and_log
    find collides sync_denormalized_fields
update_succeeds = refl

create_invoice_lem_example : Created 7 imported (invoice_of creation.0).0 start creation.1
create_invoice_lem_example = create_invoice_lem parties keeps 7 imported start creation_succeeds

update_invoice_lem_example :
    (edit.version ≡ some sample_draft.version)
    × Updated sample_draft (invoice_of update.0).0 start update.1
update_invoice_lem_example =
    update_invoice_lem parties keeps sample_draft edit start update_succeeds

stale_update_refused_example :
    update_invoice parties (invoice_of update.0).0 edit update.1 ≡ (err version_stale, update.1)
stale_update_refused_example =
    stale_update_refused parties keeps sample_draft edit edit start update.1 update_succeeds refl

refused_edits_example :
    Spares start (create_invoice parties 7 edit start)
    × Spares start (replace_draft_data parties sample_draft edit start)
    × Spares start (update_invoice parties sample_draft edit start)
refused_edits_example = refused_edits parties keeps sample_draft edit start
