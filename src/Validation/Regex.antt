-- ===== src/Validation/Regex.antt =====
-- Package regexp, for patterns anchored at both ends: a matcher by derivatives, and the language
-- that it decides.
use uber.Base.{
  ℕ, Bool, true, false, ◌&&◌, ◌||◌, List, [], ◌∷◌, ◌++◌, ◌≡◌, refl, sym, ◌↔◌, ◌⊎◌, inl, inr, arith,
  Bool-cases,
}

abbrev pub Text : Type 0
Text = List ℕ

pub data Regex : Type 0 where
  nothing empty : Regex
  one : (ℕ → Bool) → Regex
  seq either : Regex → Regex → Regex
  many : Regex → Regex

-- Zero or more pieces.
pub data Many (P : Text → Type 0) : Text → Type 0 where
  done : {xs : Text} → xs ≡ [] → Many P xs
  more : {xs : Text} (ys zs : Text) → xs ≡ ys ++ zs → P ys → Many P zs → Many P xs

abbrev pub Matches : Regex → Text → Type 0
Matches nothing xs = ⊥
Matches empty xs = xs ≡ []
Matches (one p) xs = (c : ℕ) × (xs ≡ c ∷ []) × (p c ≡ true)
Matches (seq r s) xs = (ys : Text) × (zs : Text) × (xs ≡ ys ++ zs) × Matches r ys × Matches s zs
Matches (either r s) xs = Matches r xs ⊎ Matches s xs
Matches (many r) xs = Many (Matches r) xs

abbrev nullable : Regex → Bool
nullable nothing = false
nullable empty = true
nullable (one p) = false
nullable (seq r s) = nullable r && nullable s
nullable (either r s) = nullable r || nullable s
nullable (many r) = true

abbrev guarded : Bool → Regex → Regex
guarded true r = r
guarded false r = nothing

abbrev deriv : ℕ → Regex → Regex
deriv c nothing = nothing
deriv c empty = nothing
deriv c (one p) = guarded (p c) empty
deriv c (seq r s) = either (seq (deriv c r) s) (guarded (nullable r) (deriv c s))
deriv c (either r s) = either (deriv c r) (deriv c s)
deriv c (many r) = seq (deriv c r) (many r)

unfoldable pub matches : Regex → Text → Bool
matches r [] = nullable r
matches r (c ∷ xs) = matches (deriv c r) xs

append-eq-nil : (xs ys : Text) → [] ≡ xs ++ ys → (xs ≡ []) × (ys ≡ [])
append-eq-nil [] ys e = (refl, sym e)
append-eq-nil (x ∷ xs) ys e = cc

nullable_sound : (r : Regex) → nullable r ≡ true → Matches r []
nullable_sound nothing h = cc
nullable_sound empty h = refl
nullable_sound (one p) h = cc
nullable_sound (seq r s) h =
    ([], [], refl, nullable_sound r (ground arith), nullable_sound s (ground arith))
nullable_sound (either r s) h = elim (Bool-cases (nullable r)) [
  | inl y ↦ inl (nullable_sound r y)
  | inr n ↦ inr (nullable_sound s (ground arith))
]
nullable_sound (many r) h = done refl

nullable_complete : (r : Regex) → Matches r [] → nullable r ≡ true
nullable_complete nothing h = absurd h
nullable_complete empty h = refl
nullable_complete (one p) (c, e, q) = cc
nullable_complete (seq r s) (ys, zs, e, x, y) =
    let (ea, eb) = append-eq-nil ys zs e in
    rw (nullable_complete r (rw ea at x), nullable_complete s (rw eb at y))
nullable_complete (either r s) (inl x) = rw (nullable_complete r x)
nullable_complete (either r s) (inr y) = ground (arith, nullable_complete s y)
nullable_complete (many r) h = refl

guarded_inv :
    (b : Bool) (r : Regex) (xs : Text) → Matches (guarded b r) xs → (b ≡ true) × Matches r xs
guarded_inv true r xs h = (refl, h)
guarded_inv false r xs h = absurd h

guarded_intro :
    (b : Bool) (r : Regex) (xs : Text) → b ≡ true → Matches r xs → Matches (guarded b r) xs
guarded_intro true r xs t h = h
guarded_intro false r xs t h = cc

deriv_sound : (r : Regex) (c : ℕ) (xs : Text) → Matches (deriv c r) xs → Matches r (c ∷ xs)
deriv_sound nothing c xs h = h
deriv_sound empty c xs h = absurd h
deriv_sound (one p) c xs h = let (t, e) = guarded_inv (p c) empty xs h in (c, cc, t)
deriv_sound (seq r s) c xs (inl (ys, zs, e, x, y)) = (c ∷ ys, zs, cc, deriv_sound r c ys x, y)
deriv_sound (seq r s) c xs (inr h) =
    let (t, y) = guarded_inv (nullable r) (deriv c s) xs h in
    ([], c ∷ xs, refl, nullable_sound r t, deriv_sound s c xs y)
deriv_sound (either r s) c xs (inl x) = inl (deriv_sound r c xs x)
deriv_sound (either r s) c xs (inr y) = inr (deriv_sound s c xs y)
deriv_sound (many r) c xs (ys, zs, e, x, y) = more (c ∷ ys) zs (cc) (deriv_sound r c ys x) y

-- The first piece that is not empty takes the first character.
deriv_many :
    (r : Regex) (c : ℕ) (xs us : Text)
    → ((ys : Text) → Matches r (c ∷ ys) → Matches (deriv c r) ys)
    → us ≡ c ∷ xs
    → Many (Matches r) us
    → Matches (seq (deriv c r) (many r)) xs
deriv_many r c xs us step e (done n) = cc
deriv_many r c xs us step e (more [] zs split x y) = deriv_many r c xs zs step (cc) y
deriv_many r c xs us step e (more (d ∷ ys) zs split x y) = (ys, zs, cc, step ys (rw head x), y)
  where
    head : c ≡ d
    head = cc

deriv_complete : (r : Regex) (c : ℕ) (xs : Text) → Matches r (c ∷ xs) → Matches (deriv c r) xs
deriv_complete nothing c xs h = h
deriv_complete empty c xs h = cc
deriv_complete (one p) c xs (d, e, t) = guarded_intro (p c) empty xs (cc) (cc)
deriv_complete (seq r s) c xs ([], zs, e, x, y) = inr (
    guarded_intro (nullable r) (deriv c s) xs (nullable_complete r x)
      (deriv_complete s c xs (rw e y)))
deriv_complete (seq r s) c xs (d ∷ ys, zs, e, x, y) =
    inl (ys, zs, cc, deriv_complete r c ys (rw head x), y)
  where
    head : c ≡ d
    head = cc
deriv_complete (either r s) c xs (inl x) = inl (deriv_complete r c xs x)
deriv_complete (either r s) c xs (inr y) = inr (deriv_complete s c xs y)
deriv_complete (many r) c xs h = deriv_many r c xs (c ∷ xs) (deriv_complete r c) refl h

-- The matcher decides the language.
pub matches_iff : (r : Regex) (xs : Text) → (matches r xs ≡ true) ↔ Matches r xs
unfolding matches
matches_iff r [] = (nullable_sound r, nullable_complete r)
matches_iff r (c ∷ xs) = (
  λ h. deriv_sound r c xs ((matches_iff (deriv c r) xs).0 h),
  λ h. (matches_iff (deriv c r) xs).1 (deriv_complete r c xs h),
)
