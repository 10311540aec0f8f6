-- ===== src/Tracking/Handler.antt =====
-- `HandleWS` of ride-service/internal/tracking/ws.go as an endpoint. What gorilla/websocket's
-- `Upgrade` does with the request is an argument, and so is the capacity of a slice that grows.
-- When the client is gone, `remove_conn` follows.
use uber.Base.{ℕ, String}
use uber.Http.{plain, hijacked}
use uber.Auth.Middleware.{Next}
use uber.Tracking.Hub.{Conn, Hub, connect}

-- A refusal is answered by the library, with its own status and text.
pub data Upgrade : Type 0 where
  refused : (status : ℕ) (text : String) → Upgrade
  opened : Conn → Upgrade

-- Up to the read loop.
unfoldable pub handle_ws : {B : Type 0} → Upgrade → (spare : ℕ) → (trip : String) → Next Hub B
unfolding connect
handle_ws (refused status text) spare trip claims h = (h, plain status text)
handle_ws (opened conn) spare trip claims h = (connect spare trip conn h, hijacked)
