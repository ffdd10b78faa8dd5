-- ===== src/Webhooks/Attempts.antt =====
-- How often a webhook is tried, and when its endpoint is given up.
use factpulse_billing_app_pu.Base.{
  ℕ, ◌≡◌, inl, inr, false, Option, some, List, [], ◌∷◌, arith, if◌then◌else◌, Bool-cases,
}
use factpulse_billing_app_pu.Base.Text.{Text}
use factpulse_billing_app_pu.Model.{find, put}
use factpulse_billing_app_pu.Webhooks.{
  Endpoint, Job, Mailbox, endpoint_key, is_success, delivery_of, deliver_webhook, work,
}

abbrev pub job_of : Endpoint → Text → Job
job_of endpoint name = record { endpoint = endpoint.pk; event = name; attempt = 1; countdown = 0 }

-- the endpoint is disabled
abbrev pub given_up : Endpoint → Mailbox → List Endpoint
given_up endpoint m = put endpoint_key (record endpoint { is_active = false }) m.endpoints

-- Three turns of a worker end the delivery of an event to an existing endpoint, whatever the
-- endpoint answers: it is tried until the first success, three times at most, each attempt is
-- recorded, no job is left, and the endpoint is disabled exactly if all three attempts failed.
pub delivery_ends :
    (post : Endpoint → ℕ → Option ℕ) (endpoint : Endpoint) (name : Text) (m : Mailbox)
    → find endpoint_key endpoint.pk m.endpoints ≡ some endpoint
    → work post 3 (record m { jobs = job_of endpoint name ∷ [] }) ≡ (
        if is_success (post endpoint 1)
        then record m {
          deliveries = delivery_of endpoint 1 (post endpoint 1) ∷ m.deliveries;
          jobs = [];
        }
        else if is_success (post endpoint 2)
        then record m {
          deliveries =
              delivery_of endpoint 2 (post endpoint 2)
              ∷ delivery_of endpoint 1 (post endpoint 1)
              ∷ m.deliveries;
          jobs = [];
        }
        else record m {
          deliveries =
              delivery_of endpoint 3 (post endpoint 3)
              ∷ delivery_of endpoint 2 (post endpoint 2)
              ∷ delivery_of endpoint 1 (post endpoint 1)
              ∷ m.deliveries;
          jobs = [];
          endpoints = (if is_success (post endpoint 3) then m.endpoints else given_up endpoint m);
        })
unfolding work deliver_webhook
delivery_ends post endpoint name m found = elim (Bool-cases (is_success (post endpoint 1))) [
  | inl a ↦ ground (arith, found, a)
  | inr a ↦ elim (Bool-cases (is_success (post endpoint 2))) [
    | inl b ↦ ground (arith, found, a, b)
    | inr b ↦ elim (Bool-cases (is_success (post endpoint 3))) [
      | inl c ↦ ground (arith, found, a, b, c)
      | inr c ↦ ground (arith, found, a, b, c)
    ]
  ]
]
