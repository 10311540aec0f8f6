-- ===== src/Auth/Guard.antt =====
-- What the tokens and the two middlewares guarantee.
use uber.Base.{
  ◌<◌, ◌+◌, String, Time, none, some, true, ◌≡◌, refl, ◌⊎◌, inl, inr, arith, Result-cases,
  Option-cases, ok, err, ap, ◌∙◌,
}
use uber.Http.{plain}
use uber.Auth.Tokens.{
  Claims, Method, hmac, other, GoJwt, IsGoJwt, IsGenuine, day, new_claims, generate, key_func,
  validate,
}
use uber.Auth.Middleware.{Next, bearer, require_auth, add_claims, optional_auth}

module _ (g : GoJwt) (laws : IsGoJwt g) (secret : String) where
  -- With a golang-jwt that keeps `IsGoJwt`, a token that `Generate` returned gives back its user,
  -- address and role under the same secret, until the end of its 24 hours as a token keeps times.
  pub validate-generate :
      (user email role raw : String) (at at' now : Time)
      → generate g secret user email role at at' ≡ ok raw
      → now < g.numeric_date (at' + day)
      → validate g secret now raw ≡ ok (new_claims g user email role at at')
  unfolding generate validate new_claims key_func
  validate-generate user email role raw at at' now e early =
      let parsed =
        laws.parse_signed (key_func secret) (hmac "HS256") secret raw now at (at' + day)
          (new_claims g user email role at at') e refl refl refl early in
      rw (parsed, validate) refl

  validate_inv :
      (now : Time) (raw : String) (c : Claims)
      → validate g secret now raw ≡ ok c
      → g.parse_with_claims (key_func secret) now raw ≡ ok (c, true)
  unfolding validate
  validate_inv now raw c e = ground arith

  hmac_only :
      (m : Method) (key : String)
      → key_func secret m ≡ ok key
      → (name : String) × (m ≡ hmac name) × (key ≡ secret)
  unfolding key_func
  hmac_only (hmac name) key e = (name, refl, ground arith)
  hmac_only (other name) key e = absurd (ground arith)

  -- With a golang-jwt that keeps `IsGoJwt`, the claims that `Validate` returns are those of a token
  -- that was signed with the secret by an HMAC method and that has not expired.
  pub validate-IsGenuine :
      (now : Time) (raw : String) (c : Claims)
      → validate g secret now raw ≡ ok c
      → IsGenuine g secret now raw × (c ≡ g.payload raw)
  validate-IsGenuine now raw c e =
      let (m, key, found, signed, same, fresh) =
        laws.parse_verified (key_func secret) now raw c true (validate_inv now raw c e) in
      let (name, by_hmac, by_secret) = hmac_only m key found in
      (
        record {
          name = name;
          signed = rw (← by_hmac, ← by_secret) signed;
          in_time = λ t at. fresh t (ap Claims.expires_at same ∙ at);
        },
        same,
      )

  add_claims_ok :
      (now : Time) (raw : String) (c : Claims)
      → validate g secret now raw ≡ ok c
      → add_claims g secret now (some raw) none ≡ some c
  unfolding add_claims
  add_claims_ok now raw c e = ground (arith, e)

  add_claims_err :
      (now : Time) (raw e : String)
      → validate g secret now raw ≡ err e
      → add_claims g secret now (some raw) none ≡ none
  unfolding add_claims
  add_claims_err now raw e refused = ground (arith, refused)

  -- Behind both middlewares, with a golang-jwt that keeps `IsGoJwt`: either the answer is 401 and
  -- the state is as it was, or the header holds a genuine token and the handler has run with the
  -- claims of that token.
  pub require_auth_guards :
      {S B : Type 0} (now : Time) (header : String) (next : Next S B) (s : S)
      → (optional_auth g secret now header (require_auth next) none s
          ≡ (s, plain 401 "{\"error\":\"unauthorized\"}"))
        ⊎ ((raw : String) × (bearer header ≡ some raw)
            × IsGenuine g secret now raw
            × (optional_auth g secret now header (require_auth next) none s
                ≡ next (some (g.payload raw)) s))
  unfolding optional_auth require_auth add_claims
  require_auth_guards now header next s = elim (Option-cases (bearer header)) [
    | inl absent ↦ inl (rw absent refl)
    | inr (raw, present) ↦ elim (Result-cases (validate g secret now raw)) [
      | inr (e, refused) ↦ inl (rw (present, add_claims_err now raw e refused) refl)
      | inl (c, accepted) ↦
          let (genuine, same) = validate-IsGenuine now raw c accepted in
          inr (
            raw,
            present,
            genuine,
            rw (present, add_claims_ok now raw (g.payload raw) (accepted ∙ ap ok same)) refl,
          )
    ]
  ]

  -- With a golang-jwt that keeps `IsGoJwt`, a request with a token that `Generate` returned for a
  -- user reaches the handler with that user's claims, until the token expires.
  pub generated_admitted :
      {S B : Type 0} (user email role raw header : String) (at at' now : Time) (next : Next S B)
      (s : S)
      → generate g secret user email role at at' ≡ ok raw
      → now < g.numeric_date (at' + day)
      → bearer header ≡ some raw
      → optional_auth g secret now header (require_auth next) none s
        ≡ next (some (new_claims g user email role at at')) s
  unfolding optional_auth require_auth add_claims
  generated_admitted user email role raw header at at' now next s e early present =
      let accepted = validate-generate user email role raw at at' now e early in
      rw (present, add_claims_ok now raw (new_claims g user email role at at') accepted) refl
