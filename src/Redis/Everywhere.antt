-- ===== src/Redis/Everywhere.antt =====
-- A Redis that meets `IsRedis`: one where every place is near every other.
use uber.Base.{
  String, none, Bool, true, false, List, [], ◌∷◌, ◌≡◌, refl, inl, arith, ok, if◌then◌else◌, All,
  leb,
}
use uber.Redis.{Redis, Location, Query, IsRedis, IsAnswer, IsMember, remove_member}

-- Every place is near every other, and the first member answers.
abbrev first_member : Query → List Location → List String
first_member q [] = []
first_member q (x ∷ xs) = if leb 1 q.count then x.name ∷ [] else []

abbrev pub everywhere : Redis
everywhere = record {
  distance = λ lng lat x. 0;
  within = λ q x. true;
  geo_add = λ x g. (record g { members = x ∷ remove_member x.name g.members }, none);
  geo_search = λ q g. ok (first_member q g.members);
  z_rem = λ name g. (record g { members = remove_member name g.members }, none);
}

first_in_range :
    (q : Query) (x : Location) (xs : List Location) (b : Bool)
    → All
        (λ (n : String).
          (y : Location) × IsMember y (x ∷ xs) × (y.name ≡ n) × (everywhere.within q y ≡ true))
        (if b then x.name ∷ [] else [])
first_in_range q x xs true = ((x, inl refl, refl, refl), tt)
first_in_range q x xs false = tt

first_member-IsAnswer :
    (q : Query) (members : List Location) → IsAnswer everywhere q members (first_member q members)
first_member-IsAnswer q [] = record {
  in_range = tt;
  at_most = omega arith;
  empty = λ e c y m. absurd m;
  first = λ n rest asc e. absurd (ground arith);
}
first_member-IsAnswer q (x ∷ xs) = record {
  in_range = first_in_range q x xs (leb 1 q.count);
  at_most = ground arith;
  empty = λ e c y m. absurd (ground arith);
  first = λ n rest asc e. (x, inl refl, ground arith, λ y m _. omega arith);
}

pub everywhere-IsRedis : IsRedis everywhere
everywhere-IsRedis = record {
  add_ok = λ x g e. refl;
  search_ok = λ q g names e.
      let same : first_member q g.members ≡ names = ground arith in
      rw (← same) (first_member-IsAnswer q g.members);
  remove_ok = λ name g e. refl;
}
