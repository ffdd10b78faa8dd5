-- ===== src/FactpulseClient/Requests/Bounds.antt =====
-- How many requests a method sends.
use factpulse_billing_app_pu.Base.{
  ℕ, zero, suc, ◌+◌, ◌*◌, ◌≤◌, ◌≡◌, inl, inr, refl, Option, none, some, arith, ltb, ◌==◌,
  if◌then◌else◌, Bool-cases, length,
}
use factpulse_billing_app_pu.Base.Text.{Text, codes}
use factpulse_billing_app_pu.Base.Json.{Json, null, string, is_truthy}
use factpulse_billing_app_pu.FactpulseClient.Wire.{
  TokenEntry, refresh_request, api_request, Reply, answer, connection_error, timed_out,
  other_request_error, api_error, Outcome, done, failed, Session, Call, ◌>>=◌, pure, fail, settled,
  Environment, number_of, send, monotonic,
}
use factpulse_billing_app_pu.FactpulseClient.Tokens.{
  token_of, store, cannot_connect, grant_of, found_entry, store_grant, store_tokens, obtain_tokens,
  renew, store_refreshed, refresh_access_token, ensure_token, entry_of, headers,
}
use factpulse_billing_app_pu.FactpulseClient.Requests.{
  Client, first_reply, second_reply, retry, request, task_status, poll_again, poll_task_result,
}
use factpulse_billing_app_pu.FactpulseClient.Requests.Counts.{
  SendsAtMost, SendsAtMost->>=, SendsAtMost-more, SendsAtMost-settled, SendsAtMost-if,
  SendsAtMost-send, SendsAtMost-quiet,
}

module _ (env : Environment) where
  numbered_entry :
      (uid : Option Text) (r : Outcome ℕ) (f : ℕ → TokenEntry) (s : Session)
      → ((settled r >>= λ n. store uid (f n)) s).1.sent ≡ s.sent
  numbered_entry uid (done n) f s = refl
  numbered_entry uid (failed e) f s = refl

  store_grant-sent :
      (uid : Option Text) (g : Outcome (Json × Json × Json)) (s : Session)
      → ((settled g >>= store_grant env uid) s).1.sent ≡ s.sent
  unfolding store_grant
  store_grant-sent uid (failed e) s = refl
  store_grant-sent uid (done (a, r, l)) s = numbered_entry uid (number_of l) _ _

  renew-sent :
      (uid : Option Text) (entry : TokenEntry) (g : Outcome (Json × Json × Json)) (s : Session)
      → ((settled g >>= renew env uid entry) s).1.sent ≡ s.sent
  unfolding renew
  renew-sent uid entry (failed e) s = refl
  renew-sent uid entry (done (a, r, l)) s = numbered_entry uid (number_of l) _ _

  store_tokens-SendsAtMost :
      (uid : Option Text) (r : Reply) → SendsAtMost 0 (store_tokens env uid r)
  unfolding store_tokens
  store_tokens-SendsAtMost uid connection_error = SendsAtMost-settled 0 (failed cannot_connect)
  store_tokens-SendsAtMost uid timed_out = SendsAtMost-settled 0 (failed _)
  store_tokens-SendsAtMost uid other_request_error = SendsAtMost-settled 0 (failed _)
  store_tokens-SendsAtMost uid (answer response) =
      SendsAtMost-if 0 (response.status_code == 200)
        (settled (grant_of response) >>= store_grant env uid)
        (fail (
          api_error (string (codes "FactPulse authentication failed."))
            (some response.status_code)))
        (SendsAtMost-quiet env _ (store_grant-sent uid (grant_of response)))
        (SendsAtMost-settled 0 _)

  obtain_tokens-SendsAtMost : (uid : Option Text) → SendsAtMost 1 (obtain_tokens env uid)
  unfolding obtain_tokens
  obtain_tokens-SendsAtMost uid =
      SendsAtMost->>= 1 0 (send env _) (store_tokens env uid) (SendsAtMost-send env _)
        (store_tokens-SendsAtMost uid)

  store_refreshed-SendsAtMost :
      (uid : Option Text) (entry : TokenEntry) (r : Reply)
      → SendsAtMost 1 (store_refreshed env uid entry r)
  unfolding store_refreshed
  store_refreshed-SendsAtMost uid entry connection_error = obtain_tokens-SendsAtMost uid
  store_refreshed-SendsAtMost uid entry timed_out = obtain_tokens-SendsAtMost uid
  store_refreshed-SendsAtMost uid entry other_request_error = obtain_tokens-SendsAtMost uid
  store_refreshed-SendsAtMost uid entry (answer response) =
      SendsAtMost-if 1 (response.status_code == 200)
        (settled (grant_of response) >>= renew env uid entry) (obtain_tokens env uid)
        (SendsAtMost-more 0 1 _ (omega arith)
          (SendsAtMost-quiet env _ (renew-sent uid entry (grant_of response))))
        (obtain_tokens-SendsAtMost uid)

  refreshed_from :
      (uid : Option Text) (s : Session) (r : Option TokenEntry)
      → length
          (elim r as (λ _. Outcome (Unit {0}) × Session) [
            | none ↦ obtain_tokens env uid s
            | some entry ↦
                if is_truthy entry.refresh
                then (send env (refresh_request entry.refresh) >>= store_refreshed env uid entry) s
                else obtain_tokens env uid s
          ]).1.sent
        ≤ length s.sent + 2
  unfolding SendsAtMost
  refreshed_from uid s none = omega (arith, obtain_tokens-SendsAtMost uid s)
  refreshed_from uid s (some entry) = elim (Bool-cases (is_truthy entry.refresh)) [
    | inl usable ↦ rw usable (
        SendsAtMost->>= 1 1 (send env (refresh_request entry.refresh))
          (store_refreshed env uid entry) (SendsAtMost-send env (refresh_request entry.refresh))
          (store_refreshed-SendsAtMost uid entry) s)
    | inr missing ↦ rw missing (omega (arith, obtain_tokens-SendsAtMost uid s))
  ]

  refresh_access_token-SendsAtMost :
      (uid : Option Text) → SendsAtMost 2 (refresh_access_token env uid)
  unfolding refresh_access_token SendsAtMost
  refresh_access_token-SendsAtMost uid s = refreshed_from uid s (token_of uid s.tokens)

  ensured_from :
      (uid : Option Text) (s : Session) (r : Option TokenEntry)
      → length
          (elim r as (λ _. Outcome (Unit {0}) × Session) [
            | none ↦ obtain_tokens env uid s
            | some entry ↦
                (monotonic env >>= λ now.
                if ltb now entry.expires_at then pure tt else refresh_access_token env uid)
                  s
          ]).1.sent
        ≤ length s.sent + 2
  unfolding SendsAtMost
  ensured_from uid s none = omega (arith, obtain_tokens-SendsAtMost uid s)
  ensured_from uid s (some entry) =
      SendsAtMost->>= 0 2 (monotonic env)
        (λ now. if ltb now entry.expires_at then pure tt else refresh_access_token env uid)
        (SendsAtMost-quiet env (monotonic env) (λ t. refl))
        (λ now.
          SendsAtMost-if 2 (ltb now entry.expires_at) (pure tt) (refresh_access_token env uid)
            (SendsAtMost-settled 2 (done tt)) (refresh_access_token-SendsAtMost uid))
        s

  ensure_token-SendsAtMost : (uid : Option Text) → SendsAtMost 2 (ensure_token env uid)
  unfolding ensure_token SendsAtMost
  ensure_token-SendsAtMost uid s = ensured_from uid s (token_of uid s.tokens)

  entry-sent :
      (s : Session) (r : Option TokenEntry)
      → ((found_entry r >>= λ (e : TokenEntry). pure e.access) s).1.sent ≡ s.sent
  entry-sent s none = refl
  entry-sent s (some e) = refl

  headers-SendsAtMost : (uid : Option Text) → SendsAtMost 2 (headers env uid)
  unfolding headers entry_of
  headers-SendsAtMost uid =
      SendsAtMost->>= 2 0 (ensure_token env uid)
        (λ _. entry_of env uid >>= λ (e : TokenEntry). pure e.access) (ensure_token-SendsAtMost uid)
        (λ _.
          SendsAtMost-quiet env (entry_of env uid >>= λ (e : TokenEntry). pure e.access)
            (λ s. entry-sent s (token_of uid s.tokens)))

module _ (client : Client) where
  retry-SendsAtMost :
      (method url : Text) (uid : Option Text) (body : Json)
      → SendsAtMost 4 (retry client method url uid body)
  unfolding retry
  retry-SendsAtMost method url uid body =
      SendsAtMost->>= 1 3 (obtain_tokens client.env uid) _
        (obtain_tokens-SendsAtMost client.env uid)
        (λ _.
          SendsAtMost->>= 2 1 (headers client.env uid) _ (headers-SendsAtMost client.env uid)
            (λ access.
              SendsAtMost->>= 1 0 (send client.env (api_request method url access body)) _
                (SendsAtMost-send client.env (api_request method url access body))
                (λ reply. SendsAtMost-settled 0 (second_reply client reply))))

  -- The requests of one call.
  pub request-SendsAtMost :
      (method url : Text) (uid : Option Text) (body : Json)
      → SendsAtMost 7 (request client method url uid body)
  unfolding request
  request-SendsAtMost method url uid body =
      SendsAtMost->>= 2 5 (headers client.env uid) _ (headers-SendsAtMost client.env uid) (λ access.
        SendsAtMost->>= 1 4 (send client.env (api_request method url access body)) _
          (SendsAtMost-send client.env (api_request method url access body))
          (λ reply.
            SendsAtMost->>= 0 4 (settled (first_reply client reply)) _
              (SendsAtMost-settled 0 (first_reply client reply))
              (λ response.
                SendsAtMost-if 4 (response.status_code == 401) (retry client method url uid body)
                  (pure response) (retry-SendsAtMost method url uid body)
                  (SendsAtMost-settled 4 (done response)))))

  poll_again-SendsAtMost :
      (n : ℕ) (r : Outcome (Option Json)) (next : Call Json)
      → SendsAtMost n next
      → SendsAtMost n (poll_again client r next)
  poll_again-SendsAtMost n (failed e) next h = SendsAtMost-settled n (failed e)
  poll_again-SendsAtMost n (done (some pdf)) next h = SendsAtMost-settled n (done pdf)
  poll_again-SendsAtMost n (done none) next h = h

  pub poll_task_result-SendsAtMost :
      (attempts : ℕ) (url : Text) (uid : Option Text)
      → SendsAtMost (7 * attempts) (poll_task_result client attempts url uid)
  unfolding poll_task_result
  poll_task_result-SendsAtMost zero url uid = SendsAtMost-settled 0 _
  poll_task_result-SendsAtMost (suc attempts) url uid =
      SendsAtMost-more (7 + 7 * attempts) (7 * suc attempts) _ (omega arith) (
        SendsAtMost->>= 7 (7 * attempts) (request client (codes "GET") url uid null) _
          (request-SendsAtMost (codes "GET") url uid null)
          (λ response.
            poll_again-SendsAtMost (7 * attempts) (task_status client response)
              (poll_task_result client attempts url uid)
              (poll_task_result-SendsAtMost attempts url uid)))
