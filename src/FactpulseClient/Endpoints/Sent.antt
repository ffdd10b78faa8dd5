-- ===== src/FactpulseClient/Endpoints/Sent.antt =====
-- What the methods send.
use factpulse_billing_app_pu.Base.{ℕ, ◌*◌, not, Option, none, some, ◌++◌, ◌==◌}
use factpulse_billing_app_pu.Base.Text.{Text, codes}
use factpulse_billing_app_pu.Base.Json.{Json, null, boolean, number, string, array, dict, is_truthy}
use factpulse_billing_app_pu.FactpulseClient.Wire.{value_error, type_error, failed, pure, fail}
use factpulse_billing_app_pu.FactpulseClient.Requests.{
  api_error_of, value_of, Client, is_configured, request, handle_error, poll_task_result,
  max_attempts,
}
use factpulse_billing_app_pu.FactpulseClient.Requests.Counts.{
  SendsAtMost, SendsAtMost->>=, SendsAtMost-settled, SendsAtMost-if,
}
use factpulse_billing_app_pu.FactpulseClient.Requests.Bounds.{
  request-SendsAtMost, poll_task_result-SendsAtMost,
}
use factpulse_billing_app_pu.FactpulseClient.Endpoints.{
  not_configured, task_path, text_of, await_task, generate_invoice,
}

module _ (client : Client) where
  await_task-SendsAtMost :
      (uid : Option Text) (r : Option Json) (code : ℕ) (raw : Text)
      → SendsAtMost
          (7 * max_attempts)
          (await_task client uid (record { status_code = code; body = r; text = raw }))
  unfolding await_task
  await_task-SendsAtMost uid none code raw = SendsAtMost-settled _ (failed value_error)
  await_task-SendsAtMost uid (some null) code raw = SendsAtMost-settled _ (failed type_error)
  await_task-SendsAtMost uid (some (boolean b)) code raw = SendsAtMost-settled _ (failed type_error)
  await_task-SendsAtMost uid (some (number n)) code raw = SendsAtMost-settled _ (failed type_error)
  await_task-SendsAtMost uid (some (string t)) code raw = SendsAtMost-settled _ (failed type_error)
  await_task-SendsAtMost uid (some (array i)) code raw = SendsAtMost-settled _ (failed type_error)
  await_task-SendsAtMost uid (some (dict f)) code raw =
      let task_id = value_of (codes "taskId") f in
      SendsAtMost-if (7 * max_attempts) (not (is_truthy task_id))
        (fail (api_error_of (codes "202 response but no taskId returned.")))
        (poll_task_result client max_attempts (task_path client (text_of client task_id)) uid)
        (SendsAtMost-settled _ _) (poll_task_result-SendsAtMost client max_attempts _ uid)

  -- Whatever the server answers and whatever the clock shows, one generation ends after at most 217
  -- requests, those for tokens included: seven for the first call and for each of thirty polls.
  pub generate_invoice-SendsAtMost :
      (form : Json) (uid : Option Text) → SendsAtMost 217 (generate_invoice client form uid)
  unfolding generate_invoice
  generate_invoice-SendsAtMost form uid =
      SendsAtMost-if 217 (not (is_configured client)) (fail not_configured) _
        (SendsAtMost-settled _ _)
        (SendsAtMost->>= 7 210
          (request client (codes "POST")
            (client.base_url ++ codes "/api/v1/processing/generate-invoice") uid form)
          _ (request-SendsAtMost client _ _ uid form)
          (λ response.
            SendsAtMost-if 210 (response.status_code == 200) (pure (string response.text)) _
              (SendsAtMost-settled _ _)
              (SendsAtMost-if 210 (response.status_code == 202) (await_task client uid response)
                (fail (handle_error client response))
                (await_task-SendsAtMost uid response.body response.status_code response.text)
                (SendsAtMost-settled _ _))))
