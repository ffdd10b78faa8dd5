-- ===== src/Webhooks.antt =====
-- apps/webhooks/services.py: which endpoints get an event, and its delivery with a bounded number of
-- attempts.
pub mod Attempts
mod Tests
use factpulse_billing_app_pu.Base.{
  ℕ, zero, suc, ◌+◌, Bool, true, false, not, ◌&&◌, Option, none, some, List, [], ◌∷◌, ◌++◌, ltb,
  leb, ◌==◌, if◌then◌else◌, any,
}
use factpulse_billing_app_pu.Base.Text.{Text, ◌=ᵗ◌}
use factpulse_billing_app_pu.Model.{find, put}

pub record Endpoint : Type 0 where
  pub pk : ℕ
  pub organization : ℕ
  pub events : List Text
  pub is_active : Bool

pub record Delivery : Type 0 where
  pub endpoint : ℕ
  pub attempt : ℕ
  pub http_status : Option ℕ
  pub success : Bool

-- `send_webhook` in the queue, with its countdown in seconds
pub record Job : Type 0 where
  pub endpoint : ℕ
  pub event : Text
  pub attempt : ℕ
  pub countdown : ℕ

pub record Mailbox : Type 0 where
  pub endpoints : List Endpoint
  pub deliveries : List Delivery
  pub jobs : List Job

abbrev pub webhook_max_attempts : ℕ
webhook_max_attempts = 3

-- `WEBHOOK_BACKOFF_SECONDS.get(attempt, WEBHOOK_DEFAULT_BACKOFF)`
abbrev pub backoff : ℕ → ℕ
backoff attempt = if attempt == 1 then 10 else if attempt == 2 then 60 else 300

-- the endpoint is active and its filter has the event, or is empty
unfoldable pub wants : ℕ → Text → Endpoint → Bool
unfolding ◌=ᵗ◌
wants organization name endpoint =
    (endpoint.organization == organization)
    && endpoint.is_active
    && elim endpoint.events [ [] ↦ true | f ∷ fs ↦ any (λ e. e =ᵗ name) (f ∷ fs) ]

unfoldable pub jobs_for : ℕ → Text → List Endpoint → List Job
unfolding wants
jobs_for organization name [] = []
jobs_for organization name (e ∷ endpoints) =
    let rest = jobs_for organization name endpoints in
    if wants organization name e
    then record { endpoint = e.pk; event = name; attempt = 1; countdown = 0 } ∷ rest
    else rest

unfoldable pub emit_to_endpoints : ℕ → Text → Mailbox → Mailbox
unfolding jobs_for
emit_to_endpoints organization name m = record m {
  jobs = jobs_for organization name m.endpoints ++ m.jobs;
}

abbrev pub endpoint_key : Endpoint → ℕ
endpoint_key e = e.pk

-- 200 <= status < 300; an exception gives no status
abbrev pub is_success : Option ℕ → Bool
is_success none = false
is_success (some code) = leb 200 code && ltb code 300

abbrev pub delivery_of : Endpoint → ℕ → Option ℕ → Delivery
delivery_of endpoint attempt answer = record {
  endpoint = endpoint.pk;
  attempt = attempt;
  http_status = answer;
  success = is_success answer;
}

abbrev retry_of : Job → Job
retry_of job = record job { attempt = job.attempt + 1; countdown = backoff job.attempt }

-- `requests.post` at an endpoint, for an attempt
module _ (post : Endpoint → ℕ → Option ℕ) where
  unfoldable pub deliver_webhook : Job → Mailbox → Mailbox
  deliver_webhook job m = elim (find endpoint_key job.endpoint m.endpoints) [
    | none ↦ m
    | some endpoint ↦
        let answer = post endpoint job.attempt in
        let saved = record m {
          deliveries = delivery_of endpoint job.attempt answer ∷ m.deliveries;
        } in
        if not (is_success answer) && ltb job.attempt webhook_max_attempts
        then record saved { jobs = retry_of job ∷ m.jobs }
        else if not (is_success answer)
        then record saved {
          endpoints = put endpoint_key (record endpoint { is_active = false }) m.endpoints;
        }
        else saved
  ]

  -- a worker takes up to `n` jobs, the newest first
  unfoldable pub work : ℕ → Mailbox → Mailbox
  work zero m = m
  work (suc n) m = elim m.jobs [
    | [] ↦ m
    | job ∷ jobs ↦ work n (deliver_webhook job (record m { jobs = jobs }))
  ]
