-- ===== src/StateMachine/Tests.antt =====
-- Tests of the transition matrix, on single invoices.
use factpulse_billing_app_pu.Base.{◌≡◌, ◌↔◌, refl, true, []}
use factpulse_billing_app_pu.Model.{Status}
use factpulse_billing_app_pu.StateMachine.{can_transition, is_deletable, is_editable}
use factpulse_billing_app_pu.StateMachine.Guards.{is_deletable_iff}
use factpulse_billing_app_pu.StateMachine.Reach.{Reach, here, next, is_issued, issued_stays_issued}
use factpulse_billing_app_pu.Samples.{sample_draft}

is_deletable_iff_example :
    (is_deletable sample_draft ≡ true)
    ↔ ((is_editable sample_draft ≡ true) × (sample_draft.number ≡ []))
is_deletable_iff_example = is_deletable_iff sample_draft

paid_then_cancelled : Reach Status.validated Status.cancelled
unfolding can_transition
paid_then_cancelled = next {s = Status.paid} (next {s = Status.validated} here refl) refl

issued_stays_issued_example : is_issued Status.cancelled ≡ true
issued_stays_issued_example =
    issued_stays_issued {s = Status.validated} {t = Status.cancelled} refl paid_then_cancelled
