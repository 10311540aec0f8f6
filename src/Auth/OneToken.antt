-- ===== src/Auth/OneToken.antt =====
-- A signing library that signs the token of one user in one role and meets `IsGoJwt`.
use text.Mathlib.Text.{◌==◌}
use text.Mathlib.TextEquality.{eq_iff}
use uber.Base.{
  ℕ, ◌<◌, String, Time, Option, none, some, Bool, true, false, ◌&&◌, ◌≡◌, refl, sym, ap, ◌∙◌, arith,
  inl, inr, Result, Result-cases, ok, err, if◌then◌else◌, ltb, eqb,
}
use uber.Auth.Tokens.{Claims, Method, hmac, other, GoJwt, IsGoJwt}

abbrev is_time : ℕ → Option Time → Bool
is_time n none = false
is_time n (some t) = eqb t n

abbrev is_hs256 : Method → Bool
is_hs256 (hmac name) = name == "HS256"
is_hs256 (other name) = false

abbrev has_key : Result String → Bool
has_key (ok key) = key == "k"
has_key (err e) = false

is_hs256-hmac : (m : Method) → is_hs256 m ≡ true → m ≡ hmac "HS256"
is_hs256-hmac (hmac name) h = ground (arith, eq_iff name "HS256")
is_hs256-hmac (other name) h = ground arith

module _ (role : String) where
  abbrev pub one_claims : Claims
  one_claims = record {
    user_id = "u1";
    email = "a@b.co";
    role = role;
    subject = "u1";
    issued_at = some 10;
    expires_at = some 86_400_000_000_020;
  }

  abbrev is_one : Claims → Bool
  is_one c =
      c.user_id == "u1"
      && (c.email == "a@b.co"
          && (c.role == role
              && (c.subject == "u1"
                  && (is_time 10 c.issued_at && is_time 86_400_000_000_020 c.expires_at))))

  abbrev pub one_token : GoJwt
  one_token = record {
    numeric_date = λ t. t;
    payload = λ raw. one_claims;
    signed_by = λ m key raw. is_hs256 m && (key == "k" && raw == "t");
    signed_string =
        λ m key c. if is_hs256 m && (key == "k" && is_one c) then ok "t" else err "no such token";
    parse_with_claims = λ keys now raw.
        if has_key (keys (hmac "HS256")) && (raw == "t" && ltb now 86_400_000_000_020)
        then ok (one_claims, true)
        else err "token is unverifiable";
  }

  is_one-one_claims : (c : Claims) → is_one c ≡ true → c ≡ one_claims
  is_one-one_claims c h = ground (
    arith,
    eq_iff c.user_id "u1",
    eq_iff c.email "a@b.co",
    eq_iff c.role role,
    eq_iff c.subject "u1",
  )

  token_key :
      (keys : Method → Result String) (now : Time) (raw : String) (c : Claims) (valid : Bool)
      → one_token.parse_with_claims keys now raw ≡ ok (c, valid)
      → (keys (hmac "HS256") ≡ ok "k") × (raw ≡ "t") × (c ≡ one_claims) × (now < 86_400_000_000_020)
  token_key keys now raw c valid e = elim (Result-cases (keys (hmac "HS256"))) [
    | inl (key, found) ↦ ground (arith, found, eq_iff key "k", eq_iff raw "t")
    | inr (x, found) ↦ ground (arith, found)
  ]

  token_parsed :
      (keys : Method → Result String) (now : Time)
      → keys (hmac "HS256") ≡ ok "k"
      → now < 86_400_000_000_020
      → one_token.parse_with_claims keys now "t" ≡ ok (one_claims, true)
  token_parsed keys now found early = ground (arith, found)

  token_signed :
      (m : Method) (key raw : String) (c : Claims)
      → one_token.signed_string m key c ≡ ok raw
      → (m ≡ hmac "HS256") × (key ≡ "k") × (raw ≡ "t") × (c ≡ one_claims)
  token_signed m key raw c e = ground (arith, eq_iff key "k", is_hs256-hmac m, is_one-one_claims c)

  pub one_token-IsGoJwt : IsGoJwt one_token
  one_token-IsGoJwt = record {
    parse_verified = λ keys now raw c valid e.
        let (found, same, claims, early) = token_key keys now raw c valid e in
        (
          hmac "HS256",
          "k",
          found,
          rw same refl,
          claims,
          λ t at. ground (arith, ap Claims.expires_at claims),
        );
    parse_signed = λ keys m key raw now i x c signed found issued expires early.
        let (by_hmac, by_key, same, claims) = token_signed m key raw c signed in
        let early' : now < 86_400_000_000_020 = ground (arith, ap Claims.expires_at claims) in
        rw (same, claims)
          (token_parsed keys now (ap keys (sym by_hmac) ∙ found ∙ ap ok by_key) early');
  }
