-- ===== src/Api/Response.antt =====
-- internal/api/handler.go: the two ways of writing an answer, and the test of the bearer token. The
-- answer is its status and its body; the JSON text of a value is left to encoding/json.
use i_filter_imitation.Common.{ℕ, [], none, some, if◌then◌else◌, Text, codes, text_eq, cut_prefix}

pub data Body (A : Type 0) : Type 0 where
  no_body : Body A
  message : Text → Body A
  value : A → Body A

pub record Response (A : Type 0) : Type 0 where
  pub status : ℕ
  pub body : Body A

abbrev pub json_ok : {A : Type 0} → A → Response A
json_ok v = record { status = 200; body = value v }

abbrev pub json_error : {A : Type 0} → Text → ℕ → Response A
json_error msg code = record { status = code; body = message msg }

-- The path of a request, and its Authorization field, which is empty if the request has none.
pub record HttpRequest : Type 0 where
  pub path : Text
  pub authorization : Text

abbrev pub healthz : Text
healthz = codes "/healthz"

abbrev pub bearer : Text
bearer = codes "Bearer "

module _ {A S : Type 0} where
  unfoldable pub bearer_auth :
      Text → (HttpRequest → S → Response A × S) → HttpRequest → S → Response A × S
  unfolding text_eq cut_prefix
  bearer_auth api_key h r s =
      if text_eq r.path healthz then h r s else elim (cut_prefix r.authorization bearer) [
        | none ↦ (json_error (codes "unauthorized") 401, s)
        | some token ↦
            if text_eq token api_key then h r s else (json_error (codes "unauthorized") 401, s)
      ]

  -- The handler of the API around its mux.
  unfoldable pub new_handler :
      Text → (HttpRequest → S → Response A × S) → HttpRequest → S → Response A × S
  unfolding bearer_auth text_eq
  new_handler api_key mux = if text_eq api_key [] then mux else bearer_auth api_key mux
