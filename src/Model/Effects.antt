-- ===== src/Model/Effects.antt =====
-- What the services send out and raise, and methods that may raise.
-- A method returns its result beside the state: what was written before a raise stays written,
-- unless the method stands in `transaction.atomic`.
use factpulse_billing_app_pu.Base.{
  ℕ, ◌≡◌, refl, ap, Bool, true, false, List, [], arith, if◌then◌else◌,
}
use factpulse_billing_app_pu.Base.Text.{Text}
use factpulse_billing_app_pu.Base.Date.{Date}
use factpulse_billing_app_pu.Model.Choices.{Status}
use factpulse_billing_app_pu.Model.Rows.{
  Organization, Supplier, Customer, Invoice, AuditLog, NumberingSequence, NumberingCounter,
  ErrorType,
}

-- `x.delay(...)`: a Celery task that is left for a worker
pub data Task : Type 0 where
  generate_and_validate transmit submit_cdar_paid submit_ereporting : ℕ → Task
  check_lifecycle : ℕ → ℕ → Task

-- `emit_webhook(organization, event, ...)`, before the choice of the endpoints
pub data Webhook : Type 0 where
  invoice_status : ℕ → ℕ → Status → Webhook
  invoice_error : ℕ → ℕ → ErrorType → Webhook

-- the signals of apps/billing/signals.py
pub data Signal : Type 0 where
  invoice_validated : ℕ → Signal
  invoice_failed : ℕ → ErrorType → Signal

-- The lists hold the newest entry first.
pub record World : Type 0 where
  pub organizations : List Organization
  pub suppliers : List Supplier
  pub customers : List Customer
  pub invoices : List Invoice
  pub sequences : List NumberingSequence
  pub counters : List NumberingCounter
  pub audit_logs : List AuditLog
  pub tasks : List Task
  pub webhooks : List Webhook
  pub signals : List Signal
  pub next_pk : ℕ
  pub today : Date

-- what code outside the services raises: `FactPulseError`, its subclass `FactPulseUnavailableError`
-- (apps/factpulse/client.py), and any other exception
pub data External : Type 0 where
  api_error : Text → External
  api_unavailable : Text → External
  other_exception : Text → External

-- what the services raise
pub data Error : Type 0 where
  transition_not_allowed : Status → Status → Error
  being_processed only_drafts_edited version_required version_stale : Error
  number_assigned only_drafts_deleted cannot_cancel : Error
  missing_iban missing_tax_identifier invalid_amount integrity no_row not_found : Error
  value_error unprocessable no_payment_link : Error
  external : External → Error

-- `except ConflictError`
abbrev pub is_conflict : Error → Bool
is_conflict (transition_not_allowed _ _) = true
is_conflict being_processed = true
is_conflict only_drafts_edited = true
is_conflict version_required = true
is_conflict version_stale = true
is_conflict number_assigned = true
is_conflict only_drafts_deleted = true
is_conflict cannot_cancel = true
is_conflict no_payment_link = true
is_conflict _ = false

pub data Result (A : Type 0) : Type 0 where
  ok : A → Result A
  err : Error → Result A

abbrev pub Action : Type 0 → Type 0
Action A = World → Result A × World

-- `except FactPulseError`, which also takes the subclass
abbrev pub is_api_error : Error → Bool
is_api_error (external (api_error _)) = true
is_api_error (external (api_unavailable _)) = true
is_api_error _ = false

-- `except FactPulseUnavailableError`
abbrev pub is_unavailable : Error → Bool
is_unavailable (external (api_unavailable _)) = true
is_unavailable _ = false

-- `str(error)`, where the code stores it; the texts of the services' own errors are left out
abbrev pub message_of : Error → Text
message_of (external (api_error m)) = m
message_of (external (api_unavailable m)) = m
message_of (external (other_exception m)) = m
message_of _ = []

infixl 5 ◌>>=◌ ◌>>◌
abbrev pub ◌>>=◌ : {A B : Type 0} → Action A → (A → Action B) → Action B
◌>>=◌ m f w = let (r, w') = m w in elim r [ ok a ↦ f a w' | err e ↦ (err e, w') ]

abbrev pub ◌>>◌ : {A B : Type 0} → Action A → Action B → Action B
m >> k = m >>= λ _. k

module _ {A : Type 0} where
  abbrev pub pure : A → Action A
  pure a w = (ok a, w)

  abbrev pub raise : Error → Action A
  raise e w = (err e, w)

  abbrev pub lift : Result A → Action A
  lift r w = (r, w)

  -- `with transaction.atomic():` a raise undoes what the block wrote
  abbrev pub atomic : Action A → Action A
  atomic m w = let (r, w') = m w in elim r [ ok a ↦ (ok a, w') | err e ↦ (err e, w) ]

abbrev pub raise_if : Bool → Error → Action (Unit {0})
raise_if c e w = (if c then err e else ok tt, w)

abbrev pub modify : (World → World) → Action (Unit {0})
modify f w = (ok tt, f w)

-- what a raise inside `transaction.atomic` leaves
pub atomic_failure :
    {A : Type 0} (m : Action A) (w : World) {e : Error}
    → (atomic m w).0 ≡ err e
    → (atomic m w).1 ≡ w
atomic_failure m w h = ground arith

-- Inversion of a successful chain.
module _ {A B : Type 0} where
  bind_of :
      (p : Result A × World) (f : A → Action B) {b : B} {w' : World}
      → (elim p.0 [ ok a ↦ f a p.1 | err e ↦ (err e, p.1) ]) ≡ (ok b, w')
      → (a : A) × (w1 : World) × (p ≡ (ok a, w1)) × (f a w1 ≡ (ok b, w'))
  bind_of (ok a, w1) f h = (a, w1, refl, h)
  bind_of (err e, w1) f h = cc (ap (λ (p : Result B × World). p.0) h)

  pub >>=-eq-ok :
      (m : Action A) (f : A → Action B) (w : World) {b : B} {w' : World}
      → (m >>= f) w ≡ (ok b, w')
      → (a : A) × (w1 : World) × (m w ≡ (ok a, w1)) × (f a w1 ≡ (ok b, w'))
  >>=-eq-ok m f w h = bind_of (m w) f h

-- A step that succeeds is followed by the rest of the chain.
pub >>=-ok :
    {A B : Type 0} (m : Action A) (f : A → Action B) (w : World) {a : A} {w' : World}
    → m w ≡ (ok a, w')
    → (m >>= f) w ≡ f a w'
>>=-ok {A} {B} m f w h =
    ap (λ (p : Result A × World). elim p.0 [ ok a ↦ f a p.1 | err e ↦ (err e, p.1) ]) h

module _ {A : Type 0} where
  atomic_of :
      (p : Result A × World) (w : World) {a : A} {w' : World}
      → ◌≡◌ {A = Result A × World} (elim p.0 [ ok a ↦ (ok a, p.1) | err e ↦ (err e, w) ]) (ok a, w')
      → p ≡ (ok a, w')
  atomic_of (ok a, w1) w h = h
  atomic_of (err e, w1) w h = cc (ap (λ (p : Result A × World). p.0) h)

  pub atomic-eq-ok :
      (m : Action A) (w : World) {a : A} {w' : World} → atomic m w ≡ (ok a, w') → m w ≡ (ok a, w')
  atomic-eq-ok m w h = atomic_of (m w) w h

pub ok-injective : {A : Type 0} {a b : A} → ok a ≡ ok b → a ≡ b
ok-injective h = cc

-- Inversion of a chain of results.
pub result_step :
    {A B : Type 0} (r : Result A) (f : A → Result B) {b : B}
    → ◌≡◌ {A = Result B} (elim r [ err e ↦ err e | ok n ↦ f n ]) (ok b)
    → (n : A) × (r ≡ ok n) × (f n ≡ ok b)
result_step (ok n) f h = (n, refl, h)
result_step (err e) f h = absurd (cc h)
