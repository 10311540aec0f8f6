-- ===== src/Trips/Life.antt =====
-- The life of a trip of ride-service/internal/trips/service.go from its request on, as the moves
-- that its row makes.
use uber.Base.{List, [], ◌∷◌, All, All-map}
use uber.Trips.Model.{Trip}
use uber.Trips.Lifecycle.{Move, IsFresh, Grows, Evolves}

-- Any number of moves of one row.
pub data Lives (t : Trip) : Trip → Type 0 where
  unmoved : Lives t t
  moved : {u v : Trip} → Lives t u → Move u v → Lives t v

-- A trip that was requested, and what has become of it.
abbrev pub Born : Trip → Type 0
Born u = (t : Trip) × IsFresh t × Lives t u

IsFresh-Born : (t : Trip) → IsFresh t → Born t
IsFresh-Born t fresh = (t, fresh, unmoved)

Born-moved : {u v : Trip} → Born u → Move u v → Born v
Born-moved (t, fresh, lives) m = (t, fresh, moved lives m)

All-Born : (us vs : List Trip) → All Born us → Evolves us vs → All Born vs
All-Born [] vs h e = All-map IsFresh Born IsFresh-Born vs e
All-Born (u ∷ us) [] h e = absurd e
All-Born (u ∷ us) (v ∷ vs) h e = (Born-moved h.0 e.0, All-Born us vs h.1 e.1)

pub Lives-refl : (ts : List Trip) → Grows Lives Born ts ts
Lives-refl [] = tt
Lives-refl (t ∷ ts) = (unmoved, Lives-refl ts)

pub Lives-Evolves :
    (ts us vs : List Trip) → Grows Lives Born ts us → Evolves us vs → Grows Lives Born ts vs
Lives-Evolves [] us vs h e = All-Born us vs h e
Lives-Evolves (t ∷ ts) [] vs h e = absurd h
Lives-Evolves (t ∷ ts) (u ∷ us) [] h e = absurd e
Lives-Evolves (t ∷ ts) (u ∷ us) (v ∷ vs) h e = (moved h.0 e.0, Lives-Evolves ts us vs h.1 e.1)
