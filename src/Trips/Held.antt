-- ===== src/Trips/Held.antt =====
-- The row that a running `End` relies on: it has been read as started, and no statement of the
-- service takes it back.
use uber.Base.{
  String, Float, Time, some, true, false, List, [], ◌∷◌, ◌++◌, ◌≡◌, ◌⊎◌, inl, inr, arith,
  Bool-cases, All,
}
use uber.Trips.Model.{Trip, started}
use uber.Trips.Store.{Postgres, IsPostgres, Update, update_row, update_rows, find, IsNewId, IsKeyed}
use uber.Trips.Rows.{id-update_row, IsNewId-of_same, IsNewId-update_rows, IsNewId-append}
use uber.Trips.Updates.{complete_update-Move}
use uber.Trips.Lifecycle.{Move, IsUnderway}
use uber.Trips.Service.{assign_update, start_update, complete_update}

module _ (pg : Postgres) where
  -- There is one row of this id, and its ride is under way.
  abbrev pub Held : String → List Trip → Type 0
  Held id [] = ⊥
  Held id (t ∷ ts) =
      ((pg.same_uuid id t.id ≡ true) × IsUnderway t.status × IsNewId pg id ts)
      ⊎ ((pg.same_uuid id t.id ≡ false) × Held id ts)

  -- An update that does not take a ride back to before its start.
  abbrev pub IsForward : Update → Type 0
  IsForward u = (t : Trip) → IsUnderway t.status → IsUnderway (update_row pg u t).status

  pub assign_update-IsForward : (trip driver : String) → IsForward (assign_update trip driver)
  unfolding update_row assign_update
  assign_update-IsForward trip driver t h = ground arith

  pub start_update-IsForward : (trip : String) (now : Time) → IsForward (start_update trip now)
  unfolding update_row start_update
  start_update-IsForward trip now t h = ground arith

  pub complete_update-IsForward :
      (trip : String) (fare : Float) (now : Time) → IsForward (complete_update trip fare now)
  unfolding update_row complete_update
  complete_update-IsForward trip fare now t h = ground arith

  pub Held-update_rows :
      (u : Update) (id : String) (ts : List Trip)
      → IsForward u
      → Held id ts
      → Held id (update_rows pg u ts)
  unfolding update_rows
  Held-update_rows u id [] f h = h
  Held-update_rows u id (t ∷ ts) f (inl (same, under, others)) =
      inl (rw (id-update_row pg u t) same, f t under, IsNewId-update_rows pg u id ts others)
  Held-update_rows u id (t ∷ ts) f (inr (other, h)) =
      inr (rw (id-update_row pg u t) other, Held-update_rows u id ts f h)

  -- Where the row is held, completing it is a move of every row.
  pub complete_moves :
      (id : String) (fare : Float) (now : Time) (ts : List Trip)
      → Held id ts
      → All (λ t. Move t (update_row pg (complete_update id fare now) t)) ts
  complete_moves id fare now [] h = tt
  complete_moves id fare now (t ∷ ts) (inl (same, under, others)) =
      (complete_update-Move pg id fare now t (λ _. under), rest ts others)
    where
      rest :
          (us : List Trip)
          → IsNewId pg id us
          → All (λ t. Move t (update_row pg (complete_update id fare now) t)) us
      rest [] h = tt
      rest (u ∷ us) h = (complete_update-Move pg id fare now u (λ e. cc (e, h.0)), rest us h.1)
  complete_moves id fare now (t ∷ ts) (inr (other, h)) =
      (complete_update-Move pg id fare now t (λ e. cc (e, other)), complete_moves id fare now ts h)

  module _ (laws : IsPostgres pg) where
    -- A row that was read as started is held.
    pub Held-find :
        (id : String) (ts : List Trip) (t : Trip)
        → IsKeyed pg ts
        → find pg id ts ≡ some t
        → t.status ≡ started
        → Held id ts
    unfolding find
    Held-find id [] t k e s = cc
    Held-find id (x ∷ ts) t k e s = elim (Bool-cases (pg.same_uuid id x.id)) [
      | inl same ↦ inl (same, ground arith, IsNewId-of_same pg laws id x ts same k.0)
      | inr other ↦ inr (other, Held-find id ts t k.1 (ground arith) s)
    ]

    -- A new row of another id does not disturb it.
    pub Held-append :
        (id : String) (ts : List Trip) (n : Trip)
        → IsNewId pg n.id ts
        → Held id ts
        → Held id (ts ++ n ∷ [])
    Held-append id [] n new h = absurd h
    Held-append id (t ∷ ts) n new (inl (same, under, others)) =
        inl (same, under, IsNewId-append pg id ts n others differs)
      where
        differs : pg.same_uuid id n.id ≡ false
        differs = ground (arith, laws.uuid_euclidean id n.id t.id)
    Held-append id (t ∷ ts) n new (inr (other, h)) = inr (other, Held-append id ts n new.1 h)
