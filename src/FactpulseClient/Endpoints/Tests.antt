-- ===== src/FactpulseClient/Endpoints/Tests.antt =====
-- A run of the generation against a server.
use factpulse_billing_app_pu.Base.{ℕ, zero, ◌≡◌, refl, none, some, [], length}
use factpulse_billing_app_pu.Base.Text.{codes, ◌=ᵗ◌}
use factpulse_billing_app_pu.Base.Json.{Json, null, number, string, dict, field_end, field, lookup}
use factpulse_billing_app_pu.FactpulseClient.Wire.{
  Wire, token_request, refresh_request, api_request, Reply, answer, timed_out, done, Session,
}
use factpulse_billing_app_pu.FactpulseClient.Tokens.{
  token_of, put_token, grant_of, store_grant, store_tokens, obtain_tokens, ensure_token, entry_of,
  headers,
}
use factpulse_billing_app_pu.FactpulseClient.Requests.{Client, retry, request}
use factpulse_billing_app_pu.FactpulseClient.Requests.Counts.{SendsAtMost}
use factpulse_billing_app_pu.FactpulseClient.Endpoints.{generate_invoice}
use factpulse_billing_app_pu.FactpulseClient.Endpoints.Sent.{generate_invoice-SendsAtMost}

abbrev ok_200 : Json → Reply
ok_200 j = answer (record { status_code = 200; body = some j; text = [] })

-- The first token is refused, the second one is taken; the PDF comes at once.
abbrev sample_server : ℕ → Wire → Reply
sample_server n (token_request uid) = ok_200 (dict (field (codes "access") (number n) field_end))
sample_server n (refresh_request r) = timed_out
sample_server n (api_request method url (number zero) body) =
    answer (record { status_code = 401; body = none; text = [] })
sample_server n (api_request method url access body) =
    answer (record { status_code = 200; body = none; text = codes "PDF" })

abbrev sample_client : Client
sample_client = record {
  base_url = codes "https://f";
  email = codes "e";
  password = codes "p";
  env = record { server = sample_server; clock = λ n. n };
  str = λ j. [];
}

abbrev no_session : Session
no_session = record { tokens = []; sent = []; readings = 0 }

-- the retry after a 401
generate_invoice_test :
    let after = generate_invoice sample_client null none no_session in
    (after.0 ≡ done (string (codes "PDF"))) × (length after.1.sent ≡ 4)
unfolding generate_invoice request headers ensure_token obtain_tokens store_tokens store_grant
    grant_of lookup token_of put_token entry_of retry ◌=ᵗ◌
generate_invoice_test = (refl, refl)

generate_invoice-SendsAtMost_example : SendsAtMost 217 (generate_invoice sample_client null none)
generate_invoice-SendsAtMost_example = generate_invoice-SendsAtMost sample_client null none
