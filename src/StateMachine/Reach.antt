-- ===== src/StateMachine/Reach.antt =====
-- The statuses that a chain of allowed transitions can reach.
use factpulse_billing_app_pu.Base.{◌≡◌, ◌≢◌, ◌↔◌, refl, ◌∙◌, Bool, true, false, arith}
use factpulse_billing_app_pu.Model.{Status}
use factpulse_billing_app_pu.StateMachine.{can_transition}

-- a chain of allowed transitions
pub data Reach (start : Status) : Status → Type 0 where
  here : Reach start start
  next : {s t : Status} → Reach start s → can_transition s t ≡ true → Reach start t

pub Reach-trans : {s t u : Status} → Reach s t → Reach t u → Reach s u
Reach-trans p here = p
Reach-trans p (next {s = v} q e) = next {s = v} (Reach-trans p q) e

-- the invoice has left the drafts: it has been validated
abbrev pub is_issued : Status → Bool
is_issued Status.draft = false
is_issued Status.processing = false
is_issued _ = true

abbrev pub is_final : Status → Bool
is_final Status.rejected = true
is_final Status.refused = true
is_final Status.cancelled = true
is_final _ = false

step_issued : (s t : Status) → is_issued s ≡ true → can_transition s t ≡ true → is_issued t ≡ true
unfolding can_transition
step_issued s t h e = ground arith

-- Once an invoice is validated, no chain of allowed transitions takes it back to a draft or to
-- processing.
pub issued_stays_issued : {s t : Status} → is_issued s ≡ true → Reach s t → is_issued t ≡ true
issued_stays_issued h here = h
issued_stays_issued h (next {s = u} {t = t} r e) = step_issued u t (issued_stays_issued h r) e

step_final : (s t : Status) → is_final s ≡ true → can_transition s t ≡ true → t ≡ s
unfolding can_transition
step_final s t h e = ground arith

stays : {s t : Status} → is_final s ≡ true → Reach s t → t ≡ s
stays h here = refl
stays {s} h (next {s = u} {t = t} r e) =
    let at : u ≡ s = stays h r in step_final u t (cc (at, h)) e ∙ at

-- some transition out of a status that is not final
way_out : Status → Status
way_out Status.draft = Status.processing
way_out Status.processing = Status.draft
way_out Status.validated = Status.paid
way_out Status.transmitting = Status.validated
way_out Status.transmitted = Status.paid
way_out Status.accepted = Status.paid
way_out _ = Status.cancelled

leaves : (s : Status) → is_final s ≡ false → (can_transition s (way_out s) ≡ true) × (way_out s ≢ s)
unfolding can_transition way_out
leaves s h = (ground arith, ground arith)

final_of_stuck :
    (s : Status) (b : Bool)
    → is_final s ≡ b
    → ((t : Status) → Reach s t → t ≡ s)
    → is_final s ≡ true
final_of_stuck s true e h = e
final_of_stuck s false e h = absurd ((leaves s e).1 (h (way_out s) (next here (leaves s e).0)))

-- Rejected, refused and cancelled are exactly the statuses that no chain of transitions leaves.
pub is_final_iff_stuck : (s : Status) → (is_final s ≡ true) ↔ ((t : Status) → Reach s t → t ≡ s)
is_final_iff_stuck s = (λ h t r. stays h r, final_of_stuck s (is_final s) refl)

-- the stations of the way from a draft
at_processing : Reach Status.draft Status.processing
unfolding can_transition
at_processing = next {s = Status.draft} here refl

at_validated : Reach Status.draft Status.validated
unfolding can_transition
at_validated = next {s = Status.processing} at_processing refl

at_transmitting : Reach Status.draft Status.transmitting
unfolding can_transition
at_transmitting = next {s = Status.validated} at_validated refl

at_transmitted : Reach Status.draft Status.transmitted
unfolding can_transition
at_transmitted = next {s = Status.transmitting} at_transmitting refl

-- Every status can be reached by a new invoice.
pub draft_reaches : (t : Status) → Reach Status.draft t
unfolding can_transition
draft_reaches Status.draft = here
draft_reaches Status.processing = at_processing
draft_reaches Status.validated = at_validated
draft_reaches Status.transmitting = at_transmitting
draft_reaches Status.transmitted = at_transmitted
draft_reaches Status.accepted = next {s = Status.transmitted} at_transmitted refl
draft_reaches Status.rejected = next {s = Status.transmitted} at_transmitted refl
draft_reaches Status.refused = next {s = Status.transmitted} at_transmitted refl
draft_reaches Status.paid = next {s = Status.validated} at_validated refl
draft_reaches Status.cancelled = next {s = Status.validated} at_validated refl
