-- ===== src/Validation/Text.antt =====
-- The languages of the repetitions of one character class.
use uber.Base.{ℕ, zero, suc, ◌≤◌, Bool, true, [], ◌∷◌, ◌≡◌, refl, ◌↔◌, inl, inr, arith, All, length}
use uber.Validation.Regex.{Text, one, Matches, Many, done, more}
use uber.Validation.Rules.{plus, at_most}

-- Every character is of the class.
abbrev pub Only : (ℕ → Bool) → Text → Type 0
Only p = All (λ c. p c ≡ true)

many_sound : (p : ℕ → Bool) (xs : Text) → Many (Matches (one p)) xs → Only p xs
many_sound p xs (done e) = rw e tt
many_sound p xs (more ys zs e (c, d, t) m) = rw (e, d) (t, many_sound p zs m)

many_complete : (p : ℕ → Bool) (xs : Text) → Only p xs → Many (Matches (one p)) xs
many_complete p [] h = done refl
many_complete p (c ∷ xs) h = more (c ∷ []) xs refl (c, refl, h.0) (many_complete p xs h.1)

pub plus_iff : (p : ℕ → Bool) (xs : Text) → Matches (plus (one p)) xs ↔ (1 ≤ length xs) × Only p xs
plus_iff p xs = (sound, complete xs)
  where
    sound : Matches (plus (one p)) xs → (1 ≤ length xs) × Only p xs
    sound (ys, zs, e, (c, d, t), m) = rw (e, d) (omega arith, (t, many_sound p zs m))

    complete : (us : Text) → (1 ≤ length us) × Only p us → Matches (plus (one p)) us
    complete [] h = absurd (omega (arith, h.0))
    complete (c ∷ us) h = (c ∷ [], us, refl, (c, refl, h.1.0), many_complete p us h.1.1)

pub at_most_sound :
    (n : ℕ) (p : ℕ → Bool) (xs : Text)
    → Matches (at_most n (one p)) xs
    → Only p xs × (length xs ≤ n)
at_most_sound zero p xs e = rw e (tt, omega arith)
at_most_sound (suc n) p xs (inl e) = rw e (tt, omega arith)
at_most_sound (suc n) p xs (inr (ys, zs, e, (c, d, t), m)) =
    let (only, short) = at_most_sound n p zs m in rw (e, d) ((t, only), omega arith)

pub at_most_complete :
    (n : ℕ) (p : ℕ → Bool) (xs : Text) → Only p xs → length xs ≤ n → Matches (at_most n (one p)) xs
at_most_complete zero p [] h l = refl
at_most_complete zero p (c ∷ xs) h l = absurd (omega arith)
at_most_complete (suc n) p [] h l = inl refl
at_most_complete (suc n) p (c ∷ xs) h l =
    inr (c ∷ [], xs, refl, (c, refl, h.0), at_most_complete n p xs h.1 (omega arith))
