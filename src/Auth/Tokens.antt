-- ===== src/Auth/Tokens.antt =====
-- ride-service/pkg/jwt/jwt.go, its tokens. golang-jwt is the parameter `GoJwt`; what the code
-- relies on is `IsGoJwt`. A key is the text whose bytes it has.
use text.Mathlib.Text.{◌==◌}
use uber.Base.{
  ℕ, ◌+◌, ◌<◌, String, Time, Option, none, some, Bool, true, ◌≡◌, Result, ok, err, if◌then◌else◌,
}

-- A registered claim that the token does not have is `none`.
pub record Claims : Type 0 where
  pub user_id : String
  pub email : String
  pub role : String
  pub subject : String
  pub issued_at : Option Time
  pub expires_at : Option Time

-- The signing methods, by name: those of type `*SigningMethodHMAC` and the others.
pub data Method : Type 0 where
  hmac : String → Method
  other : String → Method

pub record GoJwt : Type 0 where
  -- NewNumericDate: a time as a token keeps it
  pub numeric_date : Time → Time
  -- the claims that stand in a raw token, and whether it has a signature by a method and a key
  pub payload : String → Claims
  pub signed_by : Method → (key raw : String) → Bool
  pub signed_string : Method → (key : String) → Claims → Result String
  -- the claims and `token.Valid`, given the key function
  pub parse_with_claims : (Method → Result String) → (now : Time) → String → Result (Claims × Bool)

pub record IsGoJwt (g : GoJwt) : Type 0 where
  -- a token is parsed only under the key that the key function gives for its method, and in time
  pub parse_verified :
      (keys : Method → Result String) (now : Time) (raw : String) (c : Claims) (valid : Bool)
      → g.parse_with_claims keys now raw ≡ ok (c, valid)
      → (m : Method) × (key : String) × (keys m ≡ ok key)
        × (g.signed_by m key raw ≡ true)
        × (c ≡ g.payload raw)
        × ((t : Time) → c.expires_at ≡ some t → now < t)
  -- what was signed is parsed under the same key until it expires
  pub parse_signed :
      (keys : Method → Result String) (m : Method) (key raw : String) (now i e : Time) (c : Claims)
      → g.signed_string m key c ≡ ok raw
      → keys m ≡ ok key
      → c.issued_at ≡ some (g.numeric_date i)
      → c.expires_at ≡ some (g.numeric_date e)
      → now < g.numeric_date e
      → g.parse_with_claims keys now raw ≡ ok (c, true)

abbrev pub join : String → String → String
join String.[] t = t
join (String.◌∷◌ c s) t = String.◌∷◌ c (join s t)

-- `Init`: the package's secret afterwards, and the error.
unfoldable pub init : (s secret : String) → String × Option String
init s secret = if s == "" then (secret, some "JWT_SECRET is required") else (s, none)

-- 24*time.Hour
abbrev pub day : ℕ
day = 86_400_000_000_000

unfoldable pub new_claims :
    GoJwt → (user email role : String) → (issued expires_from : Time) → Claims
new_claims g user email role issued expires_from = record {
  user_id = user;
  email = email;
  role = role;
  subject = user;
  issued_at = some (g.numeric_date issued);
  expires_at = some (g.numeric_date (expires_from + day));
}

-- `Generate`, which looks at the clock twice.
unfoldable pub generate :
    GoJwt → (secret user email role : String) → (now now' : Time) → Result String
generate g secret user email role now now' =
    g.signed_string (hmac "HS256") secret (new_claims g user email role now now')

unfoldable pub key_func : (secret : String) → Method → Result String
key_func secret (hmac name) = ok secret
key_func secret (other name) = err (join "unexpected signing method " name)

unfoldable pub validate : GoJwt → (secret : String) (now : Time) (raw : String) → Result Claims
unfolding key_func
validate g secret now raw = elim (g.parse_with_claims (key_func secret) now raw) [
  | err e ↦ err e
  | ok (c, valid) ↦ if valid then ok c else err "invalid token"
]

-- A raw token that was signed with the secret by an HMAC method, and has not expired.
pub record IsGenuine (g : GoJwt) (secret : String) (now : Time) (raw : String) : Type 0 where
  pub name : String
  pub signed : g.signed_by (hmac name) secret raw ≡ true
  pub in_time : (t : Time) → (g.payload raw).expires_at ≡ some t → now < t
