-- ===== src/Auth/Middleware.antt =====
-- ride-service/pkg/jwt/jwt.go, its middleware. The claims in a request's context are an option, and
-- a handler is a function from them and the state.
use Prim.Native.Char.{code}
use uber.Base.{String, Time, Option, none, some, ok, err, eqb, if◌then◌else◌}
use uber.Http.{Reply, plain}
use uber.Auth.Tokens.{Claims, GoJwt, validate}

-- The handler that a middleware wraps.
abbrev pub Next : Type 0 → Type 0 → Type 0
Next S B = Option Claims → S → S × Reply B

-- What is left of a text behind a prefix: `strings.HasPrefix` and the slice behind it.
abbrev pub strip_prefix : (prefix s : String) → Option String
strip_prefix String.[] s = some s
strip_prefix (String.◌∷◌ c p) String.[] = none
strip_prefix (String.◌∷◌ c p) (String.◌∷◌ d s) =
    let rest = strip_prefix p s in if eqb (code c) (code d) then rest else none

-- The token of a header; a request without the header has the empty text.
unfoldable pub bearer : (authorization : String) → Option String
bearer authorization = strip_prefix "Bearer " authorization

-- `RequireAuth`, with `GetClaims`.
unfoldable pub require_auth : {S B : Type 0} → Next S B → Next S B
require_auth next none s = (s, plain 401 "{\"error\":\"unauthorized\"}")
require_auth next (some c) s = next (some c) s

module _ (g : GoJwt) (secret : String) (now : Time) where
  -- The context's claims behind `OptionalAuth`.
  unfoldable pub add_claims : (token : Option String) → Option Claims → Option Claims
  add_claims none context = context
  add_claims (some raw) context = elim (validate g secret now raw) [
    | err e ↦ context
    | ok c ↦ some c
  ]

  unfoldable pub optional_auth : {S B : Type 0} → (authorization : String) → Next S B → Next S B
  unfolding add_claims bearer
  optional_auth authorization next context = next (add_claims (bearer authorization) context)
