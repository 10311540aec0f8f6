-- ===== src/Trips/Updates.antt =====
-- The three updates of the service as moves of the rows they touch.
use uber.Base.{
  String, Float, Time, true, List, [], ◌∷◌, ◌≡◌, refl, inl, inr, arith, Bool-cases, All,
}
use uber.Trips.Model.{Trip}
use uber.Trips.Store.{Postgres, Update, selects, assign_columns, update_row, update_rows}
use uber.Trips.Lifecycle.{Move, keep, assign, begin, complete, IsUnderway, Evolves}
use uber.Trips.Service.{assign_update, start_update, complete_update}

module _ (pg : Postgres) where
  pub assign_update-Move :
      (trip driver : String) (t : Trip) → Move t (update_row pg (assign_update trip driver) t)
  unfolding update_row assign_update
  assign_update-Move trip driver t = elim (Bool-cases (selects pg (assign_update trip driver) t)) [
    | inl hit ↦
        assign (pg.uuid driver) (unfold selects in ground arith)
          (rw hit (unfold assign_columns in refl))
    | inr miss ↦ keep (rw miss)
  ]

  pub start_update-Move :
      (trip : String) (now : Time) (t : Trip) → Move t (update_row pg (start_update trip now) t)
  unfolding update_row start_update
  start_update-Move trip now t = elim (Bool-cases (selects pg (start_update trip now) t)) [
    | inl hit ↦
        begin (pg.timestamp now) (unfold selects in ground arith)
          (rw hit (unfold assign_columns in refl))
    | inr miss ↦ keep (rw miss)
  ]

  pub complete_update-Move :
      (trip : String) (fare : Float) (now : Time) (t : Trip)
      → (pg.same_uuid trip t.id ≡ true → IsUnderway t.status)
      → Move t (update_row pg (complete_update trip fare now) t)
  unfolding update_row complete_update
  complete_update-Move trip fare now t h =
      elim (Bool-cases (selects pg (complete_update trip fare now) t)) [
        | inl hit ↦
            complete (pg.decimal fare) (pg.timestamp now) (unfold selects in ground arith)
              (rw hit (unfold assign_columns in refl))
        | inr miss ↦ keep (rw miss)
      ]

  -- The rows that an update moves, one by one.
  pub Evolves-update_rows :
      (u : Update) (ts : List Trip)
      → All (λ t. Move t (update_row pg u t)) ts
      → Evolves ts (update_rows pg u ts)
  unfolding update_rows
  Evolves-update_rows u [] h = tt
  Evolves-update_rows u (t ∷ ts) h = (h.0, Evolves-update_rows u ts h.1)

  pub All-every : (P : Trip → Type 0) (ts : List Trip) → ((t : Trip) → P t) → All P ts
  All-every P [] f = tt
  All-every P (t ∷ ts) f = (f t, All-every P ts f)
