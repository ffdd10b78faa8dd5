-- ===== src/FactpulseClient/Endpoints.antt =====
-- The methods of the client, each a call of `_request` with its path, body and accepted codes.
pub mod Sent
mod Tests
use factpulse_billing_app_pu.Base.{
  ℕ, Bool, true, not, ◌||◌, Option, none, some, ◌++◌, ◌==◌, if◌then◌else◌,
}
use factpulse_billing_app_pu.Base.Text.{Text, codes, truthy}
use factpulse_billing_app_pu.Base.Json.{
  Json, null, boolean, number, string, array, dict, item_end, item, Fields, field_end, field,
  is_truthy, lookup,
}
use factpulse_billing_app_pu.FactpulseClient.Wire.{
  Response, ClientError, unavailable, value_error, type_error, Outcome, done, failed, Call, ◌>>=◌,
  ◌>>◌, pure, fail, settled, json_of, item_of,
}
use factpulse_billing_app_pu.FactpulseClient.Requests.{
  api_error_of, value_of, Client, is_configured, request, handle_error, poll_task_result,
  max_attempts,
}

-- the codes that a method accepts
pub data Accepted : Type 0 where
  only_200 created accepted deleted : Accepted

abbrev pub accepts : Accepted → ℕ → Bool
accepts only_200 status = status == 200
accepts created status = (status == 200) || (status == 201)
accepts accepted status = (status == 200) || (status == 201) || (status == 202)
accepts deleted status = (status == 200) || (status == 204)

-- `{key: value}` added where the value is truthy
abbrev pub optional_field : Text → Text → Fields → Fields
optional_field key value rest = if truthy value then field key (string value) rest else rest

abbrev pub not_configured : ClientError
not_configured = unavailable (codes "FactPulse API is not configured.")

module _ (client : Client) where
  -- what the methods have in common, with what they make of an accepted answer
  unfoldable pub call_api :
      (Response → Outcome Json) → Accepted → Text → Text → Option Text → Json → Call Json
  unfolding request handle_error
  call_api read accepted_codes method path uid body =
      if not (is_configured client) then fail not_configured else do
        response ← request client method (client.base_url ++ path) uid body
        (if accepts accepted_codes response.status_code
            then settled (read response)
            else fail (handle_error client response))

  abbrev pub return_true : Response → Outcome Json
  return_true response = done (boolean true)

  abbrev pub client_path : Text → Text → Text
  client_path uid suffix = codes "/api/v1/clients/" ++ uid ++ suffix

  unfoldable pub create_client : Text → Text → Text → Call Json
  unfolding call_api
  create_client name siret description =
      call_api json_of created (codes "POST") (codes "/api/v1/clients") none (
        dict (
          field (codes "name") (string name) (
            optional_field (codes "siret") siret
              (optional_field (codes "description") description field_end))))

  unfoldable pub list_clients : Call Json
  unfolding call_api
  list_clients = call_api json_of only_200 (codes "GET") (codes "/api/v1/clients") none null

  unfoldable pub get_pdp_config : Text → Call Json
  unfolding call_api
  get_pdp_config uid =
      call_api json_of only_200 (codes "GET") (client_path uid (codes "/pdp-config")) (some uid)
        null

  unfoldable pub delete_pdp_config : Text → Call Json
  unfolding call_api
  delete_pdp_config uid =
      call_api return_true deleted (codes "DELETE") (client_path uid (codes "/pdp-config"))
        (some uid) null

  unfoldable pub push_pdp_config : Text → Json → Call Json
  unfolding call_api
  push_pdp_config uid config =
      call_api json_of only_200 (codes "PUT") (client_path uid (codes "/pdp-config")) (some uid)
        config

  -- `response.json()["authorizeUrl"]`
  unfoldable pub authorize_url : Response → Outcome Json
  unfolding lookup
  authorize_url response = elim (json_of response) [
    | failed e ↦ failed e
    | done data_read ↦ item_of (codes "authorizeUrl") data_read
  ]

  unfoldable pub superpdp_connect_url : Text → Bool → Text → Call Json
  unfolding call_api authorize_url
  superpdp_connect_url uid mode_sandbox return_url =
      call_api authorize_url only_200 (codes "POST")
        (client_path uid (codes "/superpdp/connect-url")) (some uid)
        (dict (
          field (codes "modeSandbox")
            (string (if mode_sandbox then codes "true" else codes "false"))
            (optional_field (codes "returnUrl") return_url field_end)))

  unfoldable pub get_superpdp_status : Text → Call Json
  unfolding call_api
  get_superpdp_status uid =
      call_api json_of only_200 (codes "GET") (client_path uid (codes "/superpdp/status"))
        (some uid) null

  unfoldable pub disconnect_superpdp : Text → Call Json
  unfolding call_api
  disconnect_superpdp uid =
      call_api return_true deleted (codes "DELETE") (client_path uid (codes "/superpdp")) (some uid)
        null

  abbrev pub task_path : Text → Text
  task_path task_id =
      client.base_url ++ codes "/api/v1/processing/tasks/" ++ task_id ++ codes "/status"

  -- a value in an f-string
  abbrev pub text_of : Json → Text
  text_of (string s) = s
  text_of other = client.str other

  -- a generation that is queued: its task is polled
  unfoldable pub await_task : Option Text → Response → Call Json
  unfolding poll_task_result lookup
  await_task uid response = elim response.body [
    | none ↦ fail value_error
    | some (dict data_read) ↦
        let task_id = value_of (codes "taskId") data_read in
        if not (is_truthy task_id)
        then fail (api_error_of (codes "202 response but no taskId returned."))
        else poll_task_result client max_attempts (task_path (text_of task_id)) uid
    | some _ ↦ fail type_error
  ]

  -- `generate_invoice`: `form` stands for the form data and the file
  unfoldable pub generate_invoice : Json → Option Text → Call Json
  unfolding request await_task handle_error
  generate_invoice form uid = if not (is_configured client) then fail not_configured else do
    response ←
        request client (codes "POST")
          (client.base_url ++ codes "/api/v1/processing/generate-invoice") uid form
    (if response.status_code == 200
        then pure (string response.text)
        else if response.status_code == 202
        then await_task uid response
        else fail (handle_error client response))

  unfoldable pub get_directory_siren : Text → Option Text → Call Json
  unfolding call_api
  get_directory_siren siren uid =
      call_api json_of only_200 (codes "GET")
        (codes "/api/v1/afnor/directory/v1/siren/code-insee:" ++ siren) uid null

  unfoldable pub search_directory_lines : Text → Option Text → Call Json
  unfolding call_api
  search_directory_lines siren uid =
      call_api json_of only_200 (codes "POST")
        (codes "/api/v1/afnor/directory/v1/directory-line/search") uid
        (dict (
          field (codes "filters")
            (dict (
              field (codes "siren")
                (dict (
                  field (codes "op") (string (codes "contains"))
                    (field (codes "value") (string siren) field_end)))
                field_end))
            (field (codes "sorting")
              (array (
                item
                  (dict (
                    field (codes "field") (string (codes "addressingIdentifier"))
                      (field (codes "sortingOrder") (string (codes "ascending")) field_end)))
                  item_end))
              (field (codes "fields")
                (array (
                  item (string (codes "addressingIdentifier")) (
                    item (string (codes "siren")) (
                      item (string (codes "siret")) (
                        item (string (codes "addressingSuffix"))
                          (item (string (codes "idInstance")) item_end))))))
                (field (codes "limit") (number 50)
                  (field (codes "ignore") (number 0) field_end))))))

  unfoldable pub get_flow_status : Text → Option Text → Call Json
  unfolding call_api
  get_flow_status flow_id uid =
      call_api json_of only_200 (codes "GET") (codes "/api/v1/afnor/flow/v1/flows/" ++ flow_id) uid
        null

  -- `files` stands for the two parts of the form
  unfoldable pub submit_flow : Json → Option Text → Call Json
  unfolding call_api
  submit_flow files uid =
      call_api json_of accepted (codes "POST") (codes "/api/v1/afnor/flow/v1/flows") uid files

  unfoldable pub submit_ereporting : Json → Option Text → Call Json
  unfolding call_api
  submit_ereporting payload uid =
      call_api json_of accepted (codes "POST") (codes "/api/v1/ereporting/submit") uid payload

  unfoldable pub validate_ereporting : Json → Option Text → Call Json
  unfolding call_api
  validate_ereporting payload uid =
      call_api json_of only_200 (codes "POST") (codes "/api/v1/ereporting/validate") uid payload

  unfoldable pub submit_paid_status : Json → Option Text → Call Json
  unfolding call_api
  submit_paid_status payload uid =
      call_api json_of accepted (codes "POST") (codes "/api/v1/cdar/encaissee") uid payload

  unfoldable pub get_cdar_lifecycle : ℕ → Text → Option Text → Call Json
  unfolding call_api
  get_cdar_lifecycle days invoice_id uid =
      call_api json_of only_200 (codes "GET") (codes "/api/v1/cdar/lifecycle") uid (
        dict (
          field (codes "days") (number days)
            (optional_field (codes "invoiceId") invoice_id field_end)))
