-- ===== src/FactpulseClient/Requests.antt =====
-- `_request`, `_handle_error` and the polling of a task. Two messages are shortened: those that show
-- the keys of a result and the key of a task.
pub mod Counts
pub mod Bounds
use factpulse_billing_app_pu.Base.{
  ℕ, zero, suc, Bool, true, false, not, ◌&&◌, ◌||◌, Option, none, some, [], ◌++◌, ◌==◌,
  if◌then◌else◌, or_else,
}
use factpulse_billing_app_pu.Base.Text.{Text, codes, ◌=ᵗ◌, truthy, str_nat}
use factpulse_billing_app_pu.Base.Json.{
  Json, null, string, array, dict, Fields, field_end, field, is_truthy, lookup,
}
use factpulse_billing_app_pu.FactpulseClient.Wire.{
  api_request, Response, Reply, answer, connection_error, timed_out, other_request_error,
  ClientError, unavailable, api_error, request_exception, value_error, type_error, Outcome, done,
  failed, Call, ◌>>=◌, ◌>>◌, pure, fail, settled, Environment, send,
}
use factpulse_billing_app_pu.FactpulseClient.Tokens.{cannot_connect, obtain_tokens, headers}

abbrev pub api_error_of : Text → ClientError
api_error_of message = api_error (string message) none

-- a value of a dict, `None` where the key is missing
abbrev pub value_of : Text → Fields → Json
value_of key fields = or_else (lookup key fields) null

-- The settings and the environment of a client; `str` is Python's `str` of a JSON value.
pub record Client : Type 0 where
  pub base_url : Text
  pub email : Text
  pub password : Text
  pub env : Environment
  pub str : Json → Text

module _ (client : Client) where
  -- `is_configured`
  abbrev pub is_configured : Bool
  is_configured = truthy client.base_url && truthy client.email && truthy client.password

  -- the exceptions of the first attempt
  abbrev pub first_reply : Reply → Outcome Response
  first_reply (answer response) = done response
  first_reply connection_error = failed cannot_connect
  first_reply timed_out = failed (unavailable (codes "FactPulse API request timed out."))
  first_reply other_request_error = failed request_exception

  -- those of the second
  abbrev pub second_reply : Reply → Outcome Response
  second_reply (answer response) = done response
  second_reply _ = failed cannot_connect

  -- the second attempt, with new tokens
  unfoldable pub retry : Text → Text → Option Text → Json → Call Response
  unfolding obtain_tokens headers
  retry method url uid body = do
    _ ← obtain_tokens client.env uid
    access ← headers client.env uid
    reply ← send client.env (api_request method url access body)
    settled (second_reply reply)

  -- `_request`: `body` stands for the keyword arguments
  unfoldable pub request : Text → Text → Option Text → Json → Call Response
  unfolding headers retry
  request method url uid body = do
    access ← headers client.env uid
    reply ← send client.env (api_request method url access body)
    response ← settled (first_reply reply)
    if response.status_code == 401 then retry method url uid body else pure response

  -- the message of `_handle_error`
  unfoldable pub message_of_error : Fields → ℕ → Json
  unfolding lookup
  message_of_error error_data status =
      let status_text = codes " (" ++ str_nat status ++ codes ")" in
      if is_truthy (value_of (codes "errorMessage") error_data)
      then value_of (codes "errorMessage") error_data
      else if is_truthy (value_of (codes "errorCode") error_data)
      then string (client.str (value_of (codes "errorCode") error_data) ++ status_text)
      else elim (value_of (codes "detail") error_data) [
        | dict detail ↦
            or_else (lookup (codes "error") detail)
              (string (client.str (value_of (codes "detail") error_data)))
        | string detail ↦ string detail
        | _ ↦
            or_else (lookup (codes "message") error_data)
              (string (codes "FactPulse API error" ++ status_text))
      ]

  -- `_handle_error`, which always raises; an answer that is no dict has no `get`
  unfoldable pub handle_error : Response → ClientError
  unfolding message_of_error
  handle_error response = elim response.body [
    | none ↦
        api_error
          (message_of_error (field (codes "message") (string response.text) field_end)
            response.status_code)
          (some response.status_code)
    | some (dict error_data) ↦
        api_error (message_of_error error_data response.status_code) (some response.status_code)
    | some _ ↦ type_error
  ]

  -- `_TASK_SUCCESS_STATUSES` and `_TASK_FAILURE_STATUSES`
  abbrev pub is_status : Json → Text → Bool
  is_status (string s) t = s =ᵗ t
  is_status _ t = false

  abbrev pub is_success : Json → Bool
  is_success status = is_status status (codes "completed") || is_status status (codes "SUCCESS")

  abbrev pub is_failure : Json → Bool
  is_failure status = is_status status (codes "failed") || is_status status (codes "FAILURE")

  -- `a or b`
  abbrev pub or_json : Json → Json → Json
  or_json a b = if is_truthy a then a else b

  -- the `result` of a task that is completed: the PDF in base64, or a business error
  unfoldable pub completed : Fields → Outcome Json
  unfolding lookup
  completed result =
      if is_truthy (value_of (codes "errorCode") result)
        || is_truthy (value_of (codes "errorMessage") result)
      then failed (
          api_error (or_else (lookup (codes "errorMessage") result) (string (codes "Task failed")))
            none)
      else (let pdf =
            or_json (value_of (codes "content_b64") result)
              (or_json (value_of (codes "pdf_base64") result) (value_of (codes "pdf") result)) in
          if is_truthy pdf
          then done pdf
          else failed (api_error_of (codes "Task completed but no PDF in response.")))

  -- A list or a dict is in no frozenset: the test raises.
  abbrev pub is_hashable : Json → Bool
  is_hashable (array _) = false
  is_hashable (dict _) = false
  is_hashable _ = true

  -- one answer of the status of a task: `none` to go on
  unfoldable pub task_status : Response → Outcome (Option Json)
  unfolding completed lookup
  task_status response =
      if not (response.status_code == 200)
      then failed (handle_error response)
      else elim response.body [
        | none ↦ failed value_error
        | some (dict data_read) ↦
            let status = or_else (lookup (codes "status") data_read) (string []) in
            let result = or_else (lookup (codes "result") data_read) (dict field_end) in
            if not (is_hashable status)
            then failed type_error
            else if is_success status
            then elim result [
              | dict fields ↦ elim (completed fields) [
                | failed e ↦ failed e
                | done pdf ↦ done (some pdf)
              ]
              | _ ↦ failed type_error
            ]
            else if is_failure status
            then elim result [
              | dict fields ↦ failed (
                  api_error
                    (or_else (lookup (codes "errorMessage") fields) (string (codes "Task failed")))
                    none)
              | _ ↦ failed type_error
            ]
            else done none
        | some _ ↦ failed type_error
      ]

  -- after the answer to one poll
  abbrev pub poll_again : Outcome (Option Json) → Call Json → Call Json
  poll_again (failed e) next = fail e
  poll_again (done (some pdf)) next = pure pdf
  poll_again (done none) next = next

  -- `_poll_task_result` with `attempts` left; the base64 text is not decoded
  unfoldable pub poll_task_result : ℕ → Text → Option Text → Call Json
  unfolding request task_status
  poll_task_result zero url uid = fail (api_error_of (codes "Task did not complete."))
  poll_task_result (suc attempts) url uid =
      let next = poll_task_result attempts url uid in
      do response ← request (codes "GET") url uid null; poll_again (task_status response) next

-- `max_attempts`
abbrev pub max_attempts : ℕ
max_attempts = 30
