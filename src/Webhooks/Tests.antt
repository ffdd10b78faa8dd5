-- ===== src/Webhooks/Tests.antt =====
-- A test of the delivery, to an endpoint that always fails.
use factpulse_billing_app_pu.Base.{ℕ, ◌≡◌, refl, true, false, Option, some, [], ◌∷◌}
use factpulse_billing_app_pu.Base.Text.{codes}
use factpulse_billing_app_pu.Model.{find, put}
use factpulse_billing_app_pu.Webhooks.{Endpoint, Mailbox, work, delivery_of}
use factpulse_billing_app_pu.Webhooks.Attempts.{job_of, delivery_ends}

abbrev failing : Endpoint
failing = record { pk = 4; organization = 7; events = []; is_active = true }

abbrev mailbox : Mailbox
mailbox = record { endpoints = failing ∷ []; deliveries = []; jobs = [] }

abbrev always_500 : Endpoint → ℕ → Option ℕ
always_500 endpoint attempt = some 500

delivery_ends_example :
    work always_500 3 (record mailbox { jobs = job_of failing (codes "invoice.paid") ∷ [] })
    ≡ record {
      endpoints = record failing { is_active = false } ∷ [];
      deliveries =
          delivery_of failing 3 (some 500)
          ∷ delivery_of failing 2 (some 500)
          ∷ delivery_of failing 1 (some 500)
          ∷ [];
      jobs = [];
    }
unfolding find put
delivery_ends_example = delivery_ends always_500 failing (codes "invoice.paid") mailbox refl
