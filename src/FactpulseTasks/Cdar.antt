-- ===== src/FactpulseTasks/Cdar.antt =====
-- The lifecycle of a transmitted invoice, of apps/factpulse/tasks.py: `_process_cdar_lifecycle`,
-- `_process_single_cdar_event`, `_maybe_auto_mark_paid` and the fallback to the AFNOR flow.
pub mod Tracks
pub mod Moves
pub mod Replay
mod Tests
use factpulse_billing_app_pu.Base.{
  ℕ, Bool, true, false, not, ◌&&◌, ◌||◌, Option, none, some, List, [], ◌∷◌, ◌==◌, if◌then◌else◌,
  is_some, any,
}
use factpulse_billing_app_pu.Base.Text.{Text, codes, ◌=ᵗ◌, truthy}
use factpulse_billing_app_pu.Base.Date.{Date}
use factpulse_billing_app_pu.Model.{
  Status, AuditAction, AuditLog, Details, event, source, ErrorType, Invoice, World, invoice_status,
  invoice_failed, ok, err, Action, ◌>>=◌, ◌>>◌, pure, audit, emit_webhook, send_signal, save_fields,
  sync_denormalized_fields, find, put, invoice_key,
}
use factpulse_billing_app_pu.StateMachine.{can_transition}
use factpulse_billing_app_pu.InvoiceService.Lifecycle.{status_change, log_entry, supplier_of}
use factpulse_billing_app_pu.InvoiceService.Payment.{mark_paid, no_payment_data, record_payment}
use factpulse_billing_app_pu.InvoiceService.CreditNote.{write_status}

-- an event of `data["invoices"][i]["events"]`
pub record CdarEvent : Type 0 where
  pub status_code : Text
  pub at : Text

pub record CdarEntry : Type 0 where
  pub seller_id : Text
  pub invoice_id : Text
  pub events : List CdarEvent

-- `CDAR_STATUS_MAP`
unfoldable pub cdar_status_map : Text → Option Status
unfolding ◌=ᵗ◌
cdar_status_map code =
    if code =ᵗ codes "200"
    then some Status.transmitted
    else if code =ᵗ codes "201"
    then some Status.accepted
    else if code =ᵗ codes "210"
    then some Status.refused
    else if code =ᵗ codes "213"
    then some Status.rejected
    else none

-- `CDAR_FAILURE_TYPES`
unfoldable pub cdar_failure_type : Status → Option ErrorType
cdar_failure_type Status.refused = some ErrorType.refused_by_buyer
cdar_failure_type Status.rejected = some ErrorType.rejected_by_pa
cdar_failure_type _ = none

abbrev is_cdar_event : AuditAction → Bool
is_cdar_event AuditAction.cdar_event = true
is_cdar_event _ = false

-- `(details.get("status_code", ""), details.get("at", ""))`
abbrev key_of : Details → Text × Text
key_of (event code at) = (code, at)
key_of _ = ([], [])

abbrev has_key_of : ℕ → CdarEvent → AuditLog → Bool
has_key_of pk e log =
    (log.invoice == pk)
    && is_cdar_event log.action
    && ((key_of log.details).0 =ᵗ e.status_code)
    && ((key_of log.details).1 =ᵗ e.at)

-- `(status_code, at) in dedup_cache.get(invoice.pk, set())`, with the logs that the cache was made of
unfoldable pub is_known : ℕ → CdarEvent → List AuditLog → Bool
unfolding ◌=ᵗ◌
is_known pk e logs = any (has_key_of pk e) logs

abbrev pub event_log : ℕ → CdarEvent → AuditLog
event_log pk e = log_entry pk AuditAction.cdar_event (event e.status_code e.at)

abbrev pub has_payment : Invoice → Bool
has_payment invoice = is_some invoice.payment_date

-- what `mark_paid` leaves in the object, where the save raises
abbrev pub unsaved_payment : Invoice → Date → Invoice
unsaved_payment invoice today =
    sync_denormalized_fields (record_payment no_payment_data none today invoice)

-- the exceptions of `mark_paid` are logged only
unfoldable pub maybe_auto_mark_paid : Invoice → Action Invoice
maybe_auto_mark_paid invoice w =
    if not (has_payment invoice) || not (can_transition invoice.status Status.paid)
    then (ok invoice, w)
    else let (r, w') = mark_paid invoice no_payment_data (codes "prepaid_auto") w in
      elim r [ ok paid ↦ (ok paid, w') | err _ ↦ (ok (unsaved_payment invoice w.today), w') ]

abbrev announce_failure : Status → Invoice → Action (Unit {0})
announce_failure new_status invoice = elim (cdar_failure_type new_status) [
  | none ↦ pure tt
  | some t ↦ send_signal (invoice_failed invoice.pk t)
]

-- the body of `if new_status and can_transition(...)`
unfoldable pub apply_cdar : Invoice → Status → Action Invoice
unfolding cdar_failure_type
apply_cdar invoice new_status = do
  moved ← save_fields write_status (record invoice { status = new_status })
  audit (status_change moved.pk invoice.status new_status (source (codes "cdar_poll")))
  emit_webhook (invoice_status moved.organization moved.pk new_status)
  paid ← maybe_auto_mark_paid moved
  announce_failure new_status paid
  pure paid

-- the object is returned, since the code changes it
unfoldable pub process_single_cdar_event : List AuditLog → Invoice → CdarEvent → Action Invoice
process_single_cdar_event known invoice e w =
    if is_known invoice.pk e known
    then (ok invoice, w)
    else (do
      audit (event_log invoice.pk e)
      (elim (cdar_status_map e.status_code) [
        | none ↦ pure invoice
        | some new_status ↦
            if can_transition invoice.status new_status
            then apply_cdar invoice new_status
            else pure invoice
      ]))
        w

-- the events of one entry; `known` are the audit logs before the response is processed
unfoldable pub process_events : List AuditLog → Invoice → List CdarEvent → Action Invoice
process_events known invoice [] = pure invoice
process_events known invoice (e ∷ events) = do
  changed ← process_single_cdar_event known invoice e
  process_events known changed events

-- the keys of `local_invoices`, each with the key of its invoice
abbrev pub LocalKeys : Type 0
LocalKeys = List ((Text × Text) × ℕ)

unfoldable pub local_key : Text → Text → LocalKeys → Option ℕ
unfolding ◌=ᵗ◌
local_key seller number [] = none
local_key seller number (((s, n), pk) ∷ keys) =
    if (s =ᵗ seller) && (n =ᵗ number) then some pk else local_key seller number keys

abbrev siren_of : Invoice → World → Text
siren_of invoice w = elim (supplier_of invoice w) [ none ↦ [] | some s ↦ s.siren ]

-- the newest assignment stands first; `setdefault` adds a key only where there is none
abbrev add_local : World → Invoice → LocalKeys → LocalKeys
add_local w invoice keys =
    let assigned = ((siren_of invoice w, invoice.number), invoice.pk) ∷ keys in
    if is_some (local_key [] invoice.number assigned)
    then assigned
    else (([], invoice.number), invoice.pk) ∷ assigned

abbrev is_asked : ℕ → List Text → Invoice → Bool
is_asked org numbers invoice =
    (invoice.organization == org) && any (λ n. n =ᵗ invoice.number) numbers && not invoice.deleted

unfoldable pub local_invoices : ℕ → List Text → World → List Invoice → LocalKeys → LocalKeys
unfolding local_key
local_invoices org numbers w [] keys = keys
local_invoices org numbers w (invoice ∷ rows) keys =
    local_invoices org numbers w rows
      (if is_asked org numbers invoice then add_local w invoice keys else keys)

unfoldable pub api_invoice_numbers : List CdarEntry → List Text
api_invoice_numbers [] = []
api_invoice_numbers (x ∷ entries) =
    let rest = api_invoice_numbers entries in
    if truthy x.invoice_id then x.invoice_id ∷ rest else rest

-- `local_invoices.get((seller_id, invoice_id))`, else with an empty seller
unfoldable pub local_invoice : LocalKeys → CdarEntry → Option ℕ
local_invoice keys x = elim (local_key x.seller_id x.invoice_id keys) [
  | some pk ↦ some pk
  | none ↦ local_key [] x.invoice_id keys
]

-- The objects of the batch, by their key, are handed on from entry to entry.
unfoldable pub process_entry :
    List AuditLog → LocalKeys → CdarEntry → List Invoice → Action (List Invoice)
process_entry known keys x objects w = elim (local_invoice keys x) [
  | none ↦ (ok objects, w)
  | some pk ↦ elim (find invoice_key pk objects) [
    | none ↦ (ok objects, w)
    | some invoice ↦
        (do changed ← process_events known invoice x.events; pure (put invoice_key changed objects))
          w
  ]
]

unfoldable pub process_entries :
    List AuditLog → LocalKeys → List CdarEntry → List Invoice → Action (List Invoice)
process_entries known keys [] objects = pure objects
process_entries known keys (x ∷ entries) objects =
    if not (truthy x.invoice_id)
    then process_entries known keys entries objects
    else do changed ← process_entry known keys x objects; process_entries known keys entries changed

-- the numbers of the response are returned, as the set of invoices that got events
unfoldable pub process_cdar_lifecycle : ℕ → List CdarEntry → Action (List Text)
process_cdar_lifecycle org entries w =
    let numbers = api_invoice_numbers entries in
    (do
      process_entries w.audit_logs (local_invoices org numbers w w.invoices []) entries w.invoices
      pure numbers)
      w
