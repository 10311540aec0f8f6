-- ===== src/Http.antt =====
-- What the handlers see of a request, and what they send back (net/http).
use uber.Base.{ℕ, String}

-- How a request ends: a status with a value that was given to the JSON encoder, a status with a
-- text (`http.Error`, `Write`), a connection that a web socket has taken over, or a panic in the
-- handler.
pub data Reply (B : Type 0) : Type 0 where
  json : ℕ → B → Reply B
  plain : ℕ → String → Reply B
  hijacked : Reply B
  panicked : Reply B
