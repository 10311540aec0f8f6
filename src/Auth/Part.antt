-- ===== src/Auth/Part.antt =====
-- A handler that works on a part of a larger state: how the handlers of the components are mounted
-- in one router, next to its middleware.
use uber.Http.{Reply, json, plain, hijacked, panicked}
use uber.Auth.Middleware.{Next}

pub record Part (S T : Type 0) : Type 0 where
  pub get : S → T
  pub put : T → S → S

abbrev pub map_reply : {B C : Type 0} → (B → C) → Reply B → Reply C
map_reply f (json status b) = json status (f b)
map_reply f (plain status text) = plain status text
map_reply f hijacked = hijacked
map_reply f panicked = panicked

-- What is put is the only change.
unfoldable pub lift : {S T B C : Type 0} → Part S T → (B → C) → Next T B → Next S C
lift p f next context s = let (t, reply) = next context (p.get s) in (p.put t s, map_reply f reply)
