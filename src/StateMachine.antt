-- ===== src/StateMachine.antt =====
-- apps/billing/services/state_machine.py: the transition matrix and its guards.
pub mod Reach
pub mod Guards
mod Tests
use factpulse_billing_app_pu.Base.{Bool, not, ◌&&◌, List, [], ◌∷◌, if◌then◌else◌, any}
use factpulse_billing_app_pu.Base.Text.{truthy}
use factpulse_billing_app_pu.Model.{
  Status, ◌=ˢ◌, Invoice, Result, ok, err, transition_not_allowed, being_processed,
}

-- `TRANSITIONS`
unfoldable pub transitions : Status → List Status
transitions Status.draft = Status.processing ∷ []
transitions Status.processing = Status.validated ∷ Status.draft ∷ []
transitions Status.validated = Status.transmitting ∷ Status.paid ∷ Status.cancelled ∷ []
transitions Status.transmitting = Status.transmitted ∷ Status.rejected ∷ Status.validated ∷ []
transitions Status.transmitted =
    Status.accepted ∷ Status.rejected ∷ Status.refused ∷ Status.paid ∷ []
transitions Status.accepted = Status.refused ∷ Status.paid ∷ []
transitions Status.rejected = []
transitions Status.refused = []
transitions Status.paid = Status.cancelled ∷ []
transitions Status.cancelled = []

pub data Endpoint : Type 0 where
  validate transmit mark_paid : Endpoint

-- `ENDPOINT_TRANSITIONS`
abbrev pub endpoint_transitions : List (Status × Status × Endpoint)
endpoint_transitions =
    (Status.draft, Status.processing, validate)
    ∷ (Status.validated, Status.transmitting, transmit)
    ∷ (Status.validated, Status.paid, mark_paid)
    ∷ (Status.transmitted, Status.paid, mark_paid)
    ∷ (Status.accepted, Status.paid, mark_paid)
    ∷ []

-- `to_status in allowed`
unfoldable pub can_transition : Status → Status → Bool
unfolding transitions
can_transition from_status to_status = any (λ s. s =ˢ to_status) (transitions from_status)

unfoldable pub validate_transition : Invoice → Status → Result (Unit {0})
unfolding can_transition
validate_transition invoice to_status =
    if not (can_transition invoice.status to_status)
    then err (transition_not_allowed invoice.status to_status)
    else if (invoice.status =ˢ Status.processing)
        && not (any (λ s. s =ˢ to_status) (Status.validated ∷ Status.draft ∷ []))
    then err being_processed
    else ok tt

unfoldable pub is_editable : Invoice → Bool
is_editable invoice = invoice.status =ˢ Status.draft

unfoldable pub is_deletable : Invoice → Bool
is_deletable invoice = (invoice.status =ˢ Status.draft) && not (truthy invoice.number)
