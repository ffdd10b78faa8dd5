-- ===== src/InvoiceService/Drafts/Resolved.antt =====
-- The interface of the drafts filled by the resolution of
-- apps/billing/services/resolution_service.py. That works on JSON values; the rows of the database
-- and the parties of a snapshot are written as JSON before it and read after it. The resolution of
-- the products of the lines stays an argument, since the products are no part of the database here.
use factpulse_billing_app_pu.Base.{
  ℕ, ◌+◌, Option, none, some, List, [], ◌∷◌, ◌++◌, map, arith, ◌==◌, if◌then◌else◌, is_some,
}
use factpulse_billing_app_pu.Base.Text.{codes, str_nat}
use factpulse_billing_app_pu.Base.Json.{Fields}
use factpulse_billing_app_pu.Model.{
  refused, Line, World, other_exception, Error, integrity, value_error, external, Result, ok, err,
  Action, Supplier, Customer, find,
}
use factpulse_billing_app_pu.Core.Rows.{filter}
use factpulse_billing_app_pu.Resolution.Merge.{deep_merge}
use factpulse_billing_app_pu.Resolution.Entities.{
  Entity, ResolutionError, several_rows, integrity_error, Resolved, resolved, refused, Warning,
  Reading,
}
use factpulse_billing_app_pu.Resolution.Parties.{PartyPayload, resolve_supplier, resolve_customer}
use factpulse_billing_app_pu.InvoiceService.Lifecycle.{supplier_key}
use factpulse_billing_app_pu.FlowDetector.{customer_key}
use factpulse_billing_app_pu.InvoiceService.Payloads.{NamedSupplier, NamedCustomer, Parties}
use factpulse_billing_app_pu.InvoiceService.Drafts.Frames.{Same, Same-refl, KeepsInvoices}
use factpulse_billing_app_pu.InvoiceService.Drafts.Rows.{
  read_party, party_fields, entity_of_supplier, entity_of_customer, supplier_row, customer_row,
}

-- `ValueError`, but for the exceptions of the database
abbrev raised_by : ResolutionError → Error
raised_by several_rows = external (other_exception (codes "MultipleObjectsReturned"))
raised_by integrity_error = integrity
raised_by _ = value_error

-- a row that was created goes into its table
unfoldable pub add_supplier : Entity → World → World
add_supplier e w =
    if is_some (find supplier_key e.pk w.suppliers)
    then w
    else record w { suppliers = w.suppliers ++ supplier_row e ∷ []; next_pk = w.next_pk + 1 }

unfoldable pub add_customer : Entity → World → World
add_customer e w =
    if is_some (find customer_key e.pk w.customers)
    then w
    else record w { customers = w.customers ++ customer_row e ∷ []; next_pk = w.next_pk + 1 }

unfoldable pub supplier_answer :
    World → Resolved (Entity × Fields × List Warning) → Result NamedSupplier × World
unfolding add_supplier read_party
supplier_answer w (refused e) = (err (raised_by e), w)
supplier_answer w (resolved (e, fields, ws)) =
    (ok (record { key = e.pk; party = read_party fields; warnings = ws }), add_supplier e w)

abbrev no_customer : NamedCustomer
no_customer = record { key = none; party = none; warnings = [] }

unfoldable pub customer_answer :
    World → Resolved (Entity × Fields × List Warning) → Result NamedCustomer × World
unfolding add_customer read_party
customer_answer w (refused e) = (err (raised_by e), w)
customer_answer w (resolved (e, fields, ws)) = (
  ok (record { key = some e.pk; party = some (read_party fields); warnings = ws }),
  add_customer e w,
)

unfoldable pub optional_answer :
    World
    → Option (Resolved (Entity × Fields × List Warning) × List Entity)
    → Result NamedCustomer × World
unfolding customer_answer
optional_answer w none = (ok no_customer, w)
optional_answer w (some answer) = customer_answer w answer.0

module _ (reading : Reading) (resolve_product_lines : ℕ → List Line → Result (List Line)) where
  unfoldable pub supplier_in : ℕ → PartyPayload → Action NamedSupplier
  unfolding supplier_answer resolve_supplier filter entity_of_supplier
  supplier_in organization p w =
      supplier_answer w
        (resolve_supplier reading organization w.next_pk (str_nat w.next_pk) p (
          map entity_of_supplier
            (filter (λ (s : Supplier). s.organization == organization) w.suppliers))).0

  unfoldable pub customer_in : ℕ → PartyPayload → Action NamedCustomer
  unfolding optional_answer resolve_customer filter entity_of_customer
  customer_in organization p w = optional_answer w (
      resolve_customer reading organization w.next_pk (str_nat w.next_pk) p (
        map entity_of_customer
          (filter (λ (c : Customer). c.organization == organization) w.customers)))

  -- the interface
  abbrev pub resolution_parties : Parties
  resolution_parties = record {
    resolve_supplier = supplier_in;
    resolve_customer = customer_in;
    resolve_product_lines = resolve_product_lines;
    deep_merge = λ old override. read_party (deep_merge (party_fields old) override);
  }

  supplier_answer-Same :
      (w : World) (r : Resolved (Entity × Fields × List Warning)) → Same w (supplier_answer w r).1
  unfolding supplier_answer add_supplier
  supplier_answer-Same w (refused e) = Same-refl w
  supplier_answer-Same w (resolved (e, fields, ws)) = ground arith

  customer_answer-Same :
      (w : World) (r : Resolved (Entity × Fields × List Warning)) → Same w (customer_answer w r).1
  unfolding customer_answer add_customer
  customer_answer-Same w (refused e) = Same-refl w
  customer_answer-Same w (resolved (e, fields, ws)) = ground arith

  optional_answer-Same :
      (w : World) (r : Option (Resolved (Entity × Fields × List Warning) × List Entity))
      → Same w (optional_answer w r).1
  unfolding optional_answer
  optional_answer-Same w none = Same-refl w
  optional_answer-Same w (some answer) = customer_answer-Same w answer.0

  supplier_in-Same :
      (organization : ℕ) (p : PartyPayload) (w : World) → Same w (supplier_in organization p w).1
  unfolding supplier_in
  supplier_in-Same organization p w =
      supplier_answer-Same w
        (resolve_supplier reading organization w.next_pk (str_nat w.next_pk) p (
          map entity_of_supplier
            (filter (λ (s : Supplier). s.organization == organization) w.suppliers))).0

  customer_in-Same :
      (organization : ℕ) (p : PartyPayload) (w : World) → Same w (customer_in organization p w).1
  unfolding customer_in
  customer_in-Same organization p w = optional_answer-Same w (
      resolve_customer reading organization w.next_pk (str_nat w.next_pk) p (
        map entity_of_customer
          (filter (λ (c : Customer). c.organization == organization) w.customers)))

  -- The resolution writes no invoice.
  pub resolution-KeepsInvoices : KeepsInvoices resolution_parties
  resolution-KeepsInvoices = record {
    of_supplier = λ organization p w. supplier_in-Same organization p w;
    of_customer = λ organization p w. customer_in-Same organization p w;
  }
