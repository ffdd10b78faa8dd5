-- ===== src/FactpulseClient/Wire.antt =====
-- What goes over the wire, what the client keeps, and methods that raise.
use factpulse_billing_app_pu.Base.{ℕ, ◌+◌, Option, none, some, List, ◌∷◌, or_else, length}
use factpulse_billing_app_pu.Base.Text.{Text}
use factpulse_billing_app_pu.Base.Json.{Json, number, dict, lookup}

-- `_TokenEntry`; `refresh` is `None` where the server gave none
pub record TokenEntry : Type 0 where
  pub access : Json
  pub refresh : Json
  pub expires_at : ℕ

-- a request: one of the two of the tokens, or one of the API with its method, path, token and body
pub data Wire : Type 0 where
  token_request : Option Text → Wire
  refresh_request : Json → Wire
  api_request : Text → Text → Json → Json → Wire

-- `body` is `response.json()`, absent where that raises a `ValueError`; `text` stands for the raw
-- content.
pub record Response : Type 0 where
  pub status_code : ℕ
  pub body : Option Json
  pub text : Text

-- what `requests` returns or raises
pub data Reply : Type 0 where
  answer : Response → Reply
  connection_error timed_out other_request_error : Reply

-- What the client raises: its own two exceptions, those of `requests` that it passes on, and those of
-- Python on an answer with a missing key or of another type. `no_token` is the `KeyError` of
-- `self._tokens[client_uid]`.
pub data ClientError : Type 0 where
  unavailable : Text → ClientError
  api_error : Json → Option ℕ → ClientError
  request_exception value_error key_error type_error no_token : ClientError

pub data Outcome (A : Type 0) : Type 0 where
  done : A → Outcome A
  failed : ClientError → Outcome A

-- The tokens by client, the requests that were sent, newest first, and how often the clock was read.
pub record Session : Type 0 where
  pub tokens : List (Option Text × TokenEntry)
  pub sent : List Wire
  pub readings : ℕ

abbrev pub Call : Type 0 → Type 0
Call A = Session → Outcome A × Session

infixl 5 ◌>>=◌ ◌>>◌
abbrev pub ◌>>=◌ : {A B : Type 0} → Call A → (A → Call B) → Call B
◌>>=◌ m f s = let (r, s') = m s in elim r [ done a ↦ f a s' | failed e ↦ (failed e, s') ]

abbrev pub ◌>>◌ : {A B : Type 0} → Call A → Call B → Call B
m >> k = m >>= λ _. k

module _ {A : Type 0} where
  abbrev pub pure : A → Call A
  pure a s = (done a, s)

  abbrev pub fail : ClientError → Call A
  fail e s = (failed e, s)

  abbrev pub settled : Outcome A → Call A
  settled r s = (r, s)

-- the server and the clock
pub record Environment : Type 0 where
  pub server : ℕ → Wire → Reply
  pub clock : ℕ → ℕ

-- `response.json()`
abbrev pub json_of : Response → Outcome Json
json_of response = elim response.body [ none ↦ failed value_error | some j ↦ done j ]

-- `data[key]` and `data.get(key)`, of `data` that has to be a dict
abbrev pub item_of : Text → Json → Outcome Json
item_of key (dict fields) = elim (lookup key fields) [ none ↦ failed key_error | some j ↦ done j ]
item_of key _ = failed type_error

abbrev pub get_of : Text → Json → Json → Outcome Json
get_of key default (dict fields) = done (or_else (lookup key fields) default)
get_of key default _ = failed type_error

abbrev pub number_of : Json → Outcome ℕ
number_of (number n) = done n
number_of _ = failed type_error

module _ (env : Environment) where
  abbrev pub send : Wire → Call Reply
  send wire s = (done (env.server (length s.sent) wire), record s { sent = wire ∷ s.sent })

  -- `time.monotonic()`
  abbrev pub monotonic : Call ℕ
  monotonic s = (done (env.clock s.readings), record s { readings = s.readings + 1 })
