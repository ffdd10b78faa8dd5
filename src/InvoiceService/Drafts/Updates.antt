-- ===== src/InvoiceService/Drafts/Updates.antt =====
-- What `create_invoice`, `replace_draft_data` and `update_invoice` promise.
use factpulse_billing_app_pu.Base.{
  ◌≤◌, arith, ◌<◌, ℕ, ◌+◌, ◌≡◌, ◌⊎◌, inl, inr, refl, sym, ap, subst, ◌∙◌, Bool, true, false, not,
  none, some, List, [], ◌∷◌, ◌==◌, if◌then◌else◌, or_else,
}
use factpulse_billing_app_pu.Base.Text.{strip, Text, truthy}
use factpulse_billing_app_pu.Model.{
  Status, =ˢ_iff, AuditAction, World, Error, only_drafts_edited, Result, ok, ◌>>=◌, lift, raise_if,
  >>=-eq-ok, Invoice, plain, find, put, invoice_key, sync_denormalized_fields,
}
use factpulse_billing_app_pu.Resolution.Entities.{Warning}
use factpulse_billing_app_pu.StateMachine.{is_editable}
use factpulse_billing_app_pu.InvoiceService.Lifecycle.{log_entry}
use factpulse_billing_app_pu.InvoiceService.Payloads.{
  Payload, Parties, Built, with_number, draft_of, save_and_log, insert_draft, validate_editable,
  rebuilt,
}
use factpulse_billing_app_pu.InvoiceService.Drafts.{
  build_invoice_data, create_invoice, replace_draft_data, apply_update, update_invoice,
}
use factpulse_billing_app_pu.InvoiceService.Drafts.Frames.{
  Same, KeepsInvoices, Leaves-ok, EditDone, DoneBy, build-Leaves, apply_update-Leaves,
}
use factpulse_billing_app_pu.InvoiceService.Drafts.Written.{Wrote, save_and_log_ok}

-- A write after steps that left the invoices is a write in the first database.
Same-Wrote :
    {action : AuditAction} {row : Invoice} {w v w' : World}
    → Same w v
    → Wrote action row v w'
    → Wrote action row w w'
Same-Wrote {action} {row} {w} {v} {w'} s h = record {
  rows = λ k.
      h.rows k ∙ ap (λ rows. if row.pk == k then some row else find invoice_key k rows) s.invoices;
  table = h.table ∙ ap (put invoice_key row) s.invoices;
  keys = omega (arith, s.keys, h.keys);
  audit_logs = h.audit_logs ∙ ap (λ logs. log_entry row.pk action plain ∷ logs) s.audit_logs;
  tasks = h.tasks ∙ s.tasks;
  counters = h.counters ∙ s.counters;
}

-- a new draft of a payload, and what its creation wrote
pub record Created (organization : ℕ) (payload : Payload) (row : Invoice) (w w' : World)
    : Type 0 where
  pub status : row.status ≡ Status.draft
  pub version : row.version ≡ 1
  pub organization_of : row.organization ≡ organization
  pub number : row.number ≡ strip payload.number
  pub external_id : row.external_id ≡ or_else payload.external_id none
  pub deleted : row.deleted ≡ false
  pub key : w.next_pk ≤ row.pk
  pub next_key : row.pk < w'.next_pk
  pub wrote : Wrote AuditAction.created row w w'

-- an updated draft: the version is counted up, the number kept, an old error and PDF are gone
pub record Updated (invoice row : Invoice) (w w' : World) : Type 0 where
  pub was_draft : invoice.status ≡ Status.draft
  pub status : row.status ≡ Status.draft
  pub version : row.version ≡ invoice.version + 1
  pub pk : row.pk ≡ invoice.pk
  pub number : row.number ≡ invoice.number
  pub error : row.factpulse_error ≡ none
  pub pdf_file : row.pdf_file ≡ none
  pub wrote : Wrote AuditAction.data_update row w w'

abbrev text_cases : (t : Text) → (t ≡ []) ⊎ (truthy t ≡ true)
text_cases [] = inl refl
text_cases (c ∷ t) = inr refl

with_number-text :
    (number : Text) (invoice : Invoice)
    → invoice.number ≡ []
    → (with_number number invoice).number ≡ strip number
unfolding with_number
with_number-text number invoice h = elim (text_cases (strip number)) [
  | inl empty ↦ rw empty h
  | inr given ↦ ground (arith, given)
]

-- the fields of a new draft that its number leaves
record Drafted (d row : Invoice) : Type 0 where
  status : row.status ≡ d.status
  version : row.version ≡ d.version
  organization : row.organization ≡ d.organization
  external_id : row.external_id ≡ d.external_id
  pk : row.pk ≡ d.pk
  deleted : row.deleted ≡ d.deleted

with_number-Drafted :
    (number : Text) (d : Invoice) → Drafted d (sync_denormalized_fields (with_number number d))
unfolding with_number sync_denormalized_fields
with_number-Drafted number d = ground arith

sync-number : (d : Invoice) → (sync_denormalized_fields d).number ≡ d.number
unfolding sync_denormalized_fields
sync-number d = refl

pub next_key-Same : {w v : World} → Same w v → Same w (record v { next_pk = v.next_pk + 1 })
next_key-Same s = record {
  invoices = s.invoices;
  audit_logs = s.audit_logs;
  tasks = s.tasks;
  counters = s.counters;
  keys = omega (arith, s.keys);
}

insert_draft_lem :
    (organization : ℕ) (payload : Payload) (built : Built) (w v : World)
    {r : Invoice × List Warning} {w' : World}
    → Same w v
    → insert_draft organization payload built v ≡ (ok r, w')
    → Created organization payload r.0 w w'
unfolding insert_draft
insert_draft_lem organization payload built w v {r} {w'} same e =
    let d = draft_of organization payload built v.next_pk in
    let numbered = with_number payload.number d in
    let (eq, wrote) =
      save_and_log_ok AuditAction.created built.warnings numbered
        (record v { next_pk = v.next_pk + 1 }) e in
    let kept = with_number-Drafted payload.number d in
    let made : Created organization payload (sync_denormalized_fields numbered) w w' = record {
      status = kept.status;
      version = kept.version;
      organization_of = kept.organization;
      number = sync-number numbered ∙ with_number-text payload.number d refl;
      external_id = kept.external_id;
      deleted = kept.deleted;
      key = omega (arith, kept.pk, same.keys);
      next_key = omega (arith, kept.pk, wrote.keys);
      wrote = Same-Wrote (next_key-Same same) wrote;
    } in
    subst (λ (r : Invoice × List Warning). Created organization payload r.0 w w') (sym eq) made

edited_lem :
    (ws : List Warning) (invoice changed : Invoice) (w v : World) {r : Invoice × List Warning}
    {w' : World}
    → is_editable invoice ≡ true
    → Same w v
    → EditDone invoice changed
    → save_and_log AuditAction.data_update ws changed v ≡ (ok r, w')
    → Updated invoice r.0 w w'
unfolding is_editable sync_denormalized_fields
edited_lem ws invoice changed w v {r} {w'} editable same done e =
    let (eq, wrote) = save_and_log_ok AuditAction.data_update ws changed v e in
    let draft = (=ˢ_iff invoice.status Status.draft).0 editable in
    let made : Updated invoice (sync_denormalized_fields changed) w w' = record {
      was_draft = draft;
      status = done.edit.status ∙ draft;
      version = done.edit.version;
      pk = done.edit.pk;
      number = done.edit.number;
      error = done.error;
      pdf_file = done.pdf_file;
      wrote = Same-Wrote same wrote;
    } in
    subst (λ (r : Invoice × List Warning). Updated invoice r.0 w w') (sym eq) made

raise_if_ok :
    (c : Bool) (e : Error) (w : World) {u : Unit {0}} {v : World}
    → raise_if c e w ≡ (ok u, v)
    → (c ≡ false) × (v ≡ w)
raise_if_ok c e w h = ground (arith, h)

lift_ok :
    {A : Type 0} (r : Result A) (w : World) {a : A} {v : World}
    → lift r w ≡ (ok a, v)
    → (r ≡ ok a) × (v ≡ w)
lift_ok {A} r w h =
    (ap (λ (p : Result A × World). p.0) h, sym (ap (λ (p : Result A × World). p.1) h))

not-false : (b : Bool) → not b ≡ false → b ≡ true
not-false b h = ground (arith, h)

validate_editable_ok :
    (invoice : Invoice) (payload : Payload) {u : Unit {0}}
    → validate_editable invoice payload ≡ ok u
    → (is_editable invoice ≡ true) × (payload.version ≡ some invoice.version)
unfolding validate_editable
validate_editable_ok invoice payload h = ground (arith, h)

rebuilt_done : (invoice : Invoice) (built : Built) → EditDone invoice (rebuilt invoice built)
unfolding rebuilt
rebuilt_done invoice built = ground arith

module _ (parties : Parties) (keeps : KeepsInvoices parties) where
  -- An invoice that is created from a payload is a draft in its first version under a fresh key,
  -- with the number of the external source, stripped, or none, and with its external identifier; it
  -- is the one row that is written, the creation is logged, nothing is queued, and no number is
  -- taken from a series.
  pub create_invoice_lem :
      (organization : ℕ) (payload : Payload) (w : World) {r : Invoice × List Warning} {w' : World}
      → create_invoice parties organization payload w ≡ (ok r, w')
      → Created organization payload r.0 w w'
  unfolding create_invoice
  create_invoice_lem organization payload w h =
      let (built, v, e1, e2) =
        >>=-eq-ok (build_invoice_data parties organization payload)
          (insert_draft organization payload) w h in
      let (same, _) =
        Leaves-ok w (λ (b : Built). Unit {0}) _ (build-Leaves parties keeps organization payload w)
          e1 in
      insert_draft_lem organization payload built w v same e2

  pub replace_draft_data_lem :
      (invoice : Invoice) (payload : Payload) (w : World) {r : Invoice × List Warning} {w' : World}
      → replace_draft_data parties invoice payload w ≡ (ok r, w')
      → Updated invoice r.0 w w'
  unfolding replace_draft_data
  replace_draft_data_lem invoice payload w h =
      let build = build_invoice_data parties invoice.organization payload in
      let write =
        λ (b : Built). save_and_log AuditAction.data_update b.warnings (rebuilt invoice b) in
      let (_, v, e1, e2) =
        >>=-eq-ok (raise_if (not (is_editable invoice)) only_drafts_edited) (λ _. build >>= write) w
          h in
      let (editable, same_world) =
        raise_if_ok (not (is_editable invoice)) only_drafts_edited w e1 in
      let (built, v', e3, e4) = >>=-eq-ok build write v e2 in
      let (same, _) =
        Leaves-ok v (λ (b : Built). Unit {0}) _
          (build-Leaves parties keeps invoice.organization payload v) e3 in
      edited_lem built.warnings invoice (rebuilt invoice built) w v'
        (not-false (is_editable invoice) editable) (subst (λ v. Same v v') same_world same)
        (rebuilt_done invoice built) e4

  -- An update that succeeds was of a draft and named its version; the draft keeps its key and its
  -- number, its version goes up by one, an old error and PDF are gone, its row is the one that is
  -- written, the update is logged, and nothing is queued.
  pub update_invoice_lem :
      (invoice : Invoice) (payload : Payload) (w : World) {r : Invoice × List Warning} {w' : World}
      → update_invoice parties invoice payload w ≡ (ok r, w')
      → (payload.version ≡ some invoice.version) × Updated invoice r.0 w w'
  unfolding update_invoice
  update_invoice_lem invoice payload w h =
      let apply = apply_update parties invoice payload in
      let write = λ (c : Invoice × List Warning). save_and_log AuditAction.data_update c.1 c.0 in
      let (_, v, e1, e2) =
        >>=-eq-ok (lift (validate_editable invoice payload)) (λ _. apply >>= write) w h in
      let (valid, same_world) = lift_ok (validate_editable invoice payload) w e1 in
      let (editable, version) = validate_editable_ok invoice payload valid in
      let (changed, v', e3, e4) = >>=-eq-ok apply write v e2 in
      let (same, done) =
        Leaves-ok v (DoneBy invoice) _ (apply_update-Leaves parties keeps invoice payload v) e3 in
      (
        version,
        edited_lem changed.1 invoice changed.0 w v' editable
            (subst (λ v. Same v v') same_world same) done e4,
      )
