-- ===== src/StateMachine/Guards.antt =====
-- What the guards of the state machine decide.
use factpulse_billing_app_pu.Base.{◌≡◌, ◌↔◌, true, [], arith}
use factpulse_billing_app_pu.Model.{Status, Invoice, ok, err, Error, transition_not_allowed}
use factpulse_billing_app_pu.StateMachine.{
  can_transition, validate_transition, is_editable, is_deletable,
}

-- The guard passes exactly on the transitions of the matrix: its second test, on an invoice that is
-- being processed, refuses nothing that the first lets through, and a refusal names the transition.
pub validate_transition_exact :
    (invoice : Invoice) (to_status : Status)
    → ((validate_transition invoice to_status ≡ ok tt)
        ↔ (can_transition invoice.status to_status ≡ true))
      × ((e : Error)
          → validate_transition invoice to_status ≡ err e
          → e ≡ transition_not_allowed invoice.status to_status)
unfolding validate_transition
validate_transition_exact invoice to_status = (ground arith, λ e. ground arith)

-- A deletable invoice is an editable one without a number.
pub is_deletable_iff :
    (invoice : Invoice)
    → (is_deletable invoice ≡ true) ↔ ((is_editable invoice ≡ true) × (invoice.number ≡ []))
unfolding is_deletable is_editable
is_deletable_iff invoice = ground arith
