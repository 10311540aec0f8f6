-- ===== src/Server/Effects.antt =====
-- What a step of the running program does to the trips.
use uber.Base.{List, ◌∷◌, ◌++◌, ◌≡◌, refl, sym, subst, ap, All}
use uber.Kafka.{Message, topic_ride_requested}
use uber.Trips.Model.{Trip}
use uber.Trips.Store.{IsPostgres}
use uber.Trips.Lifecycle.{Grows, Evolves, IsWellFormed}
use uber.Trips.System as Trips
use uber.Trips.System.{System, Inv, rows, Step-sound}
use uber.Server.Model.{ServerDeps, trip_deps}
use uber.Server.Traffic.{serve-Run}
use uber.Server.Process.{Process, system, matched, Step}

-- The steps of the trips' service that a step of the program takes, or a round of the matcher,
-- which shares the brokers with it.
pub data Effect (d : ServerDeps) (p p' : Process) : Type 0 where
  runs : Trips.Run (trip_deps d) (system p) (system p') → Effect d p p'
  rounds :
      (before : List Message) (m : Message) (after : List Message)
      → p.server.trips.log ≡ before ++ (m ∷ after)
      → m.topic ≡ topic_ride_requested
      → system p' ≡ system (matched d m p)
      → Effect d p p'

module _ (d : ServerDeps) where
  one :
      {p p' : Process} (q : Process)
      → p' ≡ q
      → Trips.Step (trip_deps d) (system p) (system q)
      → Effect d p p'
  one q e st = Effect.runs (Trips.next Trips.here (rw e st))

  pub Step-Effect : {p p' : Process} → Step d p p' → Effect d p p'
  Step-Effect {p} (Step.serves r new e) = Effect.runs (rw e (serve-Run d p.ends r p.server))
  Step-Effect (Step.end_reads trip dist t c e) = one _ e (Trips.Step.end_reads trip dist t c refl)
  Step-Effect (Step.end_writes before x after now split e) =
      one _ e (Trips.Step.end_writes before x after now split refl)
  Step-Effect (Step.inserts_rider n e) = Effect.runs (rw e Trips.here)
  Step-Effect (Step.inserts_driver n e) = Effect.runs (rw e Trips.here)
  Step-Effect (Step.goroutine before j after split e) =
      one _ e (Trips.Step.goroutine before j after split refl)
  Step-Effect (Step.matches before m after split topic e) =
      Effect.rounds before m after split topic (ap system e)
  Step-Effect (Step.assigns before m after split topic e) =
      one _ e (Trips.Step.consumes m.value refl)
  Step-Effect (Step.moves r m e) = Effect.runs (rw e Trips.here)

  module _ (laws : IsPostgres d.pg) where
    -- What evolves step by step evolves over a run.
    module _ (R : Trip → Trip → Type 0) (New : Trip → Type 0)
        (go : (ts us vs : List Trip) → Grows R New ts us → Evolves us vs → Grows R New ts vs) where
      Grows-Run :
          (ts : List Trip) {s s' : System}
          → Trips.Run (trip_deps d) s s'
          → Inv (trip_deps d) s
          → Grows R New ts (rows s)
          → Grows R New ts (rows s')
      Grows-Run ts Trips.here i g = g
      Grows-Run ts {s} {s'} (Trips.next {t} r st) i g =
          go ts (rows t) (rows s') (Grows-Run ts r i g)
            (Step-sound (trip_deps d) laws st (Trips.Run-Inv (trip_deps d) laws r i)).0

      pub Grows-Effect :
          (ts : List Trip) {p p' : Process}
          → Effect d p p'
          → Inv (trip_deps d) (system p)
          → Grows R New ts (rows (system p))
          → Grows R New ts (rows (system p'))
      Grows-Effect ts (Effect.runs r) i g = Grows-Run ts r i g
      Grows-Effect ts (Effect.rounds before m after split topic e) i g =
          subst (λ s. Grows R New ts (rows s)) (sym e) g

    pub Inv-Effect :
        {p p' : Process}
        → Effect d p p'
        → Inv (trip_deps d) (system p)
        → Inv (trip_deps d) (system p')
    Inv-Effect (Effect.runs r) i = Trips.Run-Inv (trip_deps d) laws r i
    Inv-Effect (Effect.rounds before m after split topic e) i =
        subst (Inv (trip_deps d)) (sym e) (record { keyed = i.keyed; held = i.held })

    pub IsWellFormed-Effect :
        {p p' : Process}
        → Effect d p p'
        → Inv (trip_deps d) (system p)
        → All IsWellFormed (rows (system p))
        → All IsWellFormed (rows (system p'))
    IsWellFormed-Effect (Effect.runs r) i h = Trips.Run-IsWellFormed (trip_deps d) laws r i h
    IsWellFormed-Effect (Effect.rounds before m after split topic e) i h =
        subst (λ s. All IsWellFormed (rows s)) (sym e) h
