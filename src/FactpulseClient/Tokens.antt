-- ===== src/FactpulseClient/Tokens.antt =====
-- The tokens of a client: `_obtain_tokens`, `_refresh_access_token`, `_ensure_token` and `_headers`.
use factpulse_billing_app_pu.Base.{
  ℕ, ◌+◌, ◌-◌, Bool, true, false, Option, none, some, List, [], ◌∷◌, ltb, ◌==◌, if◌then◌else◌,
}
use factpulse_billing_app_pu.Base.Text.{text_or_empty, Text, codes, ◌=ᵗ◌, truthy}
use factpulse_billing_app_pu.Base.Json.{Json, null, number, string, is_truthy, lookup}
use factpulse_billing_app_pu.FactpulseClient.Wire.{
  TokenEntry, token_request, refresh_request, Response, Reply, answer, connection_error, timed_out,
  other_request_error, ClientError, unavailable, api_error, request_exception, no_token, Outcome,
  done, failed, Call, ◌>>=◌, pure, fail, settled, Environment, json_of, item_of, get_of, number_of,
  send, monotonic,
}

-- `TOKEN_REFRESH_MARGIN`
abbrev pub token_refresh_margin : ℕ
token_refresh_margin = 60

abbrev pub same_client : Option Text → Option Text → Bool
same_client none none = true
same_client (some a) (some b) = a =ᵗ b
same_client _ _ = false

-- `self._tokens.get(client_uid)`
unfoldable pub token_of : Option Text → List (Option Text × TokenEntry) → Option TokenEntry
unfolding ◌=ᵗ◌
token_of uid [] = none
token_of uid ((k, entry) ∷ rest) = if same_client k uid then some entry else token_of uid rest

-- `self._tokens[client_uid] = entry`
unfoldable pub put_token :
    Option Text → TokenEntry → List (Option Text × TokenEntry) → List (Option Text × TokenEntry)
unfolding ◌=ᵗ◌
put_token uid entry [] = (uid, entry) ∷ []
put_token uid entry ((k, old) ∷ rest) =
    if same_client k uid then (k, entry) ∷ rest else (k, old) ∷ put_token uid entry rest

abbrev pub store : Option Text → TokenEntry → Call (Unit {0})
store uid entry s = (done tt, record s { tokens = put_token uid entry s.tokens })

-- `time.monotonic() + lifetime - self.TOKEN_REFRESH_MARGIN`; a time before 0 is 0, which no reading
-- is below either
abbrev pub expiry : ℕ → ℕ → ℕ
expiry now lifetime = now + lifetime - token_refresh_margin

abbrev pub cannot_connect : ClientError
cannot_connect = unavailable (codes "Cannot connect to FactPulse API.")

-- the access token, the refresh token and the lifetime of an answer
unfoldable pub grant_of : Response → Outcome (Json × Json × Json)
unfolding lookup
grant_of response = elim (json_of response) [
  | failed e ↦ failed e
  | done data_read ↦ elim (get_of (codes "access_lifetime") (number 3600) data_read) [
    | failed e ↦ failed e
    | done lifetime ↦ elim (item_of (codes "access") data_read) [
      | failed e ↦ failed e
      | done access ↦ elim (get_of (codes "refresh") null data_read) [
        | failed e ↦ failed e
        | done refresh ↦ done (access, refresh, lifetime)
      ]
    ]
  ]
]

abbrev pub found_entry : Option TokenEntry → Call TokenEntry
found_entry none = fail no_token
found_entry (some entry) = pure entry

module _ (env : Environment) where
  unfoldable pub store_grant : Option Text → Json × Json × Json → Call (Unit {0})
  unfolding put_token
  store_grant uid (access, refresh, lifetime) = do
    now ← monotonic env
    seconds ← settled (number_of lifetime)
    store uid (record { access = access; refresh = refresh; expires_at = expiry now seconds })

  -- what follows the answer to the request for tokens
  unfoldable pub store_tokens : Option Text → Reply → Call (Unit {0})
  unfolding grant_of store_grant
  store_tokens uid connection_error = fail cannot_connect
  store_tokens uid timed_out = fail (unavailable (codes "FactPulse API request timed out."))
  store_tokens uid other_request_error = fail request_exception
  store_tokens uid (answer response) =
      if response.status_code == 200
      then settled (grant_of response) >>= store_grant uid
      else fail (
          api_error (string (codes "FactPulse authentication failed.")) (some response.status_code))

  -- `_obtain_tokens`; an empty `client_uid` is not sent
  unfoldable pub obtain_tokens : Option Text → Call (Unit {0})
  unfolding store_tokens
  obtain_tokens uid = do
    reply ← send env (token_request (if truthy (text_or_empty uid) then uid else none))
    store_tokens uid reply

  -- the entry is changed in two steps
  unfoldable pub renew : Option Text → TokenEntry → Json × Json × Json → Call (Unit {0})
  unfolding put_token
  renew uid entry (access, refresh, lifetime) = do
    _ ← store uid (record entry { access = access })
    now ← monotonic env
    seconds ← settled (number_of lifetime)
    store uid (record entry { access = access; expires_at = expiry now seconds })

  -- what follows the answer to the refreshing of `entry`
  unfoldable pub store_refreshed : Option Text → TokenEntry → Reply → Call (Unit {0})
  unfolding obtain_tokens grant_of renew
  store_refreshed uid entry (answer response) =
      if response.status_code == 200
      then settled (grant_of response) >>= renew uid entry
      else obtain_tokens uid
  store_refreshed uid entry _ = obtain_tokens uid

  -- `_refresh_access_token`
  unfoldable pub refresh_access_token : Option Text → Call (Unit {0})
  unfolding obtain_tokens store_refreshed token_of
  refresh_access_token uid s = elim (token_of uid s.tokens) [
    | none ↦ obtain_tokens uid s
    | some entry ↦
        if is_truthy entry.refresh
        then (send env (refresh_request entry.refresh) >>= store_refreshed uid entry) s
        else obtain_tokens uid s
  ]

  -- `_ensure_token`
  unfoldable pub ensure_token : Option Text → Call (Unit {0})
  unfolding obtain_tokens refresh_access_token token_of
  ensure_token uid s = elim (token_of uid s.tokens) [
    | none ↦ obtain_tokens uid s
    | some entry ↦
        (monotonic env >>= λ now.
        if ltb now entry.expires_at then pure tt else refresh_access_token uid)
          s
  ]

  -- `self._tokens[client_uid]`
  unfoldable pub entry_of : Option Text → Call TokenEntry
  unfolding token_of
  entry_of uid s = found_entry (token_of uid s.tokens) s

  -- `_headers`: the access token of the header `Authorization`
  unfoldable pub headers : Option Text → Call Json
  unfolding ensure_token entry_of
  headers uid = do _ ← ensure_token uid; entry ← entry_of uid; pure entry.access
