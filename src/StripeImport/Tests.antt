-- ===== src/StripeImport/Tests.antt =====
-- An invoice of Stripe that is imported, caught up and paid.
use factpulse_billing_app_pu.Base.{
  ℕ, ◌≡◌, ◌⊎◌, inl, inr, refl, arith, Bool, true, false, none, some, List, [], ◌∷◌,
}
use factpulse_billing_app_pu.Base.Int.{pos}
use factpulse_billing_app_pu.Base.Text.{codes, ◌=ᵗ◌}
use factpulse_billing_app_pu.Model.{World, Result, ok, err, Invoice, find, put, invoice_key, save}
use factpulse_billing_app_pu.Resolution.Entities.{Reading}
use factpulse_billing_app_pu.StripeMapper.Invoices.{StripeInvoice}
use factpulse_billing_app_pu.InvoiceService.Payloads.{Parties}
use factpulse_billing_app_pu.InvoiceService.Drafts.{create_invoice, build_invoice_data}
use factpulse_billing_app_pu.PayloadBuilder.Dates.{enrich_en16931_data}
use factpulse_billing_app_pu.PayloadBuilder.Totals.{fill_buckets, vat_lines_of}
use factpulse_billing_app_pu.InvoiceService.Drafts.Frames.{KeepsInvoices}
use factpulse_billing_app_pu.InvoiceService.Drafts.Resolved.{
  resolution_parties, resolution-KeepsInvoices, supplier_in, customer_in,
}
use factpulse_billing_app_pu.StripeImport.Customers.{
  customer_id, StripeDocument, ProviderConfig, newest, is_import_of,
}
use factpulse_billing_app_pu.StripeImport.Documents.{import_stripe_invoice}
use factpulse_billing_app_pu.StripeImport.Events.{is_live, handle_invoice_paid}
use factpulse_billing_app_pu.StripeImport.CatchUp.{Listed, import_invoices}
use factpulse_billing_app_pu.StripeImport.Once.{Imported, import_stripe_invoice_lem, imported_once}
use factpulse_billing_app_pu.StripeImport.Listing.{RowOf}
use factpulse_billing_app_pu.StripeImport.Complete.{import_one, catch_up_complete}
use factpulse_billing_app_pu.StripeImport.Paid.{noted, early_payment_noted}
use factpulse_billing_app_pu.Samples.{sample_draft, sample_world, world_of}

-- every text is a UUID here
abbrev reading : Reading
reading = record { parse_uuid = λ v. some v; str = λ j. [] }

abbrev parties : Parties
parties = resolution_parties reading (λ organization lines. ok lines)

abbrev keeps : KeepsInvoices parties
keeps = resolution-KeepsInvoices reading (λ organization lines. ok lines)

abbrev config : ProviderConfig
config = record { organization = 7; default_supplier = some 3 }

abbrev stripe_invoice : StripeInvoice
stripe_invoice = record {
  id = codes "in_1";
  number = codes "S-1";
  currency = codes "eur";
  total = pos 12000;
  subtotal = pos 10000;
  tax = some (pos 2000);
  finalized_at = none;
  effective_at = none;
  created = none;
  due_date = none;
  customer_name = codes "Kunde";
  customer_email = [];
  customer_address = none;
  customer_tax_ids = [];
  payment_method_types = [];
  collection_method = [];
  items = [];
}

abbrev document : StripeDocument
document = record {
  invoice = stripe_invoice;
  customer = customer_id (codes "cus_1");
  amount_paid = some (pos 12000);
}

abbrev importing : Result (Invoice × Bool) × World
importing = import_stripe_invoice parties (λ a b. a) [] config document sample_world

abbrev import_of : Result (Invoice × Bool) → Invoice × Bool
import_of (ok r) = r
import_of (err e) = (sample_draft, false)

import_succeeds : importing ≡ (ok (import_of importing.0), importing.1)
unfolding import_stripe_invoice create_invoice build_invoice_data supplier_in customer_in find
    enrich_en16931_data fill_buckets vat_lines_of save
import_succeeds = refl

import_stripe_invoice_lem_example :
    (((import_of importing.0).1 ≡ false)
      × (newest (is_import_of 7 (codes "in_1")) [] ≡ some (import_of importing.0).0)
      × (importing.1 ≡ sample_world))
    ⊎ (((import_of importing.0).1 ≡ true)
        × (newest (is_import_of 7 (codes "in_1")) [] ≡ none)
        × Imported 7 document (import_of importing.0).0 sample_world importing.1)
import_stripe_invoice_lem_example =
    import_stripe_invoice_lem parties keeps (λ a b. a) [] config document sample_world
      import_succeeds

imported_once_example :
    import_stripe_invoice parties (λ a b. a) [] config document importing.1
    ≡ (ok ((import_of importing.0).0, false), importing.1)
imported_once_example =
    imported_once parties keeps (λ a b. a) [] config document document sample_world importing.1
      import_succeeds refl refl

abbrev newest_paid : Listed StripeDocument
newest_paid = record { status = codes "paid"; created = 5; body = document }

abbrev listed : List (Listed StripeDocument)
listed = newest_paid ∷ []

abbrev caught_up : Result ℕ × World
caught_up =
    import_invoices (λ (d : StripeDocument). d.invoice.id)
      (import_one parties keeps (λ a b. a) [] config) 7 3 listed sample_world

catch_up_ends : caught_up ≡ (ok 1, caught_up.1)
unfolding import_invoices import_stripe_invoice create_invoice build_invoice_data supplier_in
    customer_in find enrich_en16931_data fill_buckets vat_lines_of save
catch_up_ends = refl

catch_up_complete_example : RowOf 7 (codes "in_1") caught_up.1.invoices
catch_up_complete_example =
    catch_up_complete parties keeps (λ a b. a) [] config 3 [] [] newest_paid sample_world tt tt
      (omega arith) (inr (inl refl)) catch_up_ends

abbrev unpaid : Invoice
unpaid = record sample_draft { external_id = some (codes "in_1") }

early_payment_noted_example :
    handle_invoice_paid (codes "stripe") document (world_of (unpaid ∷ [])) ≡ (
      ok tt,
      record (world_of (unpaid ∷ [])) {
        invoices =
            put invoice_key
              (noted (codes "stripe") document (world_of (unpaid ∷ [])) unpaid)
              (unpaid ∷ []);
      },
    )
unfolding newest is_live ◌=ᵗ◌ find
early_payment_noted_example =
    early_payment_noted (codes "stripe") document (world_of (unpaid ∷ [])) refl refl refl refl
