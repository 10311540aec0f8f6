-- ===== src/Tracking/Sessions.antt =====
-- The running calls of `HandleWS` (ride-service/internal/tracking/ws.go), each in the goroutine of
-- its request: the read loop, and what follows when a read fails. What the client sends is not
-- looked at.
use uber.Base.{ℕ, String, List, [], ◌∷◌, ◌++◌, ◌≡◌, All, eqb, false}
use uber.Tracking.Hub.{Conn, Hub, connect, remove_conn}

-- Where a call stands: in its loop, behind it, or behind `removeConn`.
pub data Phase : Type 0 where
  reading : Phase
  leaving : Phase
  removed : Phase

pub record Session : Type 0 where
  pub trip : String
  pub conn : Conn
  pub phase : Phase

-- The hub, and the calls that have not returned, in the order in which they began.
pub record Room : Type 0 where
  pub hub : Hub
  pub sessions : List Session

-- The pointer of a new `safeConn` is none of those in use.
abbrev pub IsNewConn : Conn → List Session → Type 0
IsNewConn c = All (λ (x : Session). eqb x.conn c ≡ false)

-- A call up to its loop.
unfoldable pub enter : (spare : ℕ) → String → Conn → Room → Room
enter spare trip c r = record {
  hub = connect spare trip c r.hub;
  sessions = r.sessions ++ record { trip = trip; conn = c; phase = reading } ∷ [];
}

-- One step of a call that is in its loop or behind it.
pub data Moves (r r' : Room) : Type 0 where
  reads :
      (before : List Session) (x : Session) (after : List Session)
      → r.sessions ≡ before ++ (x ∷ after)
      → x.phase ≡ reading
      → r' ≡ r
      → Moves r r'
  fails :
      (before : List Session) (x : Session) (after : List Session)
      → r.sessions ≡ before ++ (x ∷ after)
      → x.phase ≡ reading
      → r' ≡ record r { sessions = before ++ (record x { phase = leaving } ∷ after) }
      → Moves r r'
  removes :
      (before : List Session) (x : Session) (after : List Session)
      → r.sessions ≡ before ++ (x ∷ after)
      → x.phase ≡ leaving
      → r' ≡ record {
        hub = remove_conn x.trip x.conn r.hub;
        sessions = before ++ (record x { phase = removed } ∷ after);
      }
      → Moves r r'
  closes :
      (before : List Session) (x : Session) (after : List Session)
      → r.sessions ≡ before ++ (x ∷ after)
      → x.phase ≡ removed
      → r' ≡ record r { sessions = before ++ after }
      → Moves r r'
