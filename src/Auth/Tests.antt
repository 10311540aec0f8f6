-- ===== src/Auth/Tests.antt =====
-- The theorems on tokens at the signing library `one_token`.
use uber.Base.{ℕ, suc, String, none, some, ◌≡◌, refl, arith, ok, err}
use uber.Http.{json, plain}
use uber.Auth.Tokens.{new_claims, generate, validate, init}
use uber.Auth.Middleware.{Next, require_auth, optional_auth}
use uber.Auth.Guard.{validate-generate}
use uber.Auth.OneToken.{one_token, one_token-IsGoJwt}

abbrev count : Next ℕ String
count c n = (suc n, json 200 "ok")

validate-generate_example :
    validate (one_token "rider") "k" 500 "t"
    ≡ ok (new_claims (one_token "rider") "u1" "a@b.co" "rider" 10 20)
unfolding generate new_claims
validate-generate_example =
    validate-generate (one_token "rider") (one_token-IsGoJwt "rider") "k" "u1" "a@b.co" "rider" "t"
      10 20 500 refl (omega arith)

no_token :
    optional_auth (one_token "rider") "k" 500 "Basic t" (require_auth count) none 0
    ≡ (0, plain 401 "{\"error\":\"unauthorized\"}")
unfolding optional_auth require_auth
no_token = refl

expired : validate (one_token "rider") "k" 86_400_000_000_020 "t" ≡ err "token is unverifiable"
unfolding validate
expired = refl

empty_secret : init "" "k" ≡ ("k", some "JWT_SECRET is required")
unfolding init
empty_secret = refl
