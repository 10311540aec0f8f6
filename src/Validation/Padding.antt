-- ===== src/Validation/Padding.antt =====
-- White space around a text makes no difference to the validation of an email, phone or name.
use mathlib.Core.List.{reverse, reverse-append}
use uber.Base.{
  ℕ, String, Bool, true, [], ◌∷◌, ◌++◌, ◌≡◌, refl, ◌⊎◌, inl, inr, append-nil, All-append,
  Bool-cases,
}
use uber.Validation.Regex.{Text}
use uber.Validation.Rules.{
  codes, is_space, trim_left, trim_space, validate_email, validate_phone, validate_name,
}
use uber.Validation.Text.{Only}

trim_left-append : (sp xs : Text) → Only is_space sp → trim_left (sp ++ xs) ≡ trim_left xs
unfolding trim_left
trim_left-append [] xs h = refl
trim_left-append (c ∷ sp) xs h = rw (h.0, trim_left-append sp xs h.1)

trim_left-append_right :
    (xs sp : Text)
    → Only is_space sp
    → (trim_left (xs ++ sp) ≡ trim_left xs ++ sp)
      ⊎ ((trim_left xs ≡ []) × (trim_left (xs ++ sp) ≡ []))
unfolding trim_left
trim_left-append_right [] sp h = inr (refl, rw append-nil at (trim_left-append sp [] h))
trim_left-append_right (c ∷ xs) sp h = elim (Bool-cases (is_space c)) [
  | inl space ↦ rw (space) (trim_left-append_right xs sp h)
  | inr text ↦ inl (rw text)
]

Only-reverse : (p : ℕ → Bool) (xs : Text) → Only p xs → Only p (reverse xs)
Only-reverse p [] h = tt
Only-reverse p (c ∷ xs) h =
    rw (reverse-append (c ∷ []) xs)
      (All-append (λ d. p d ≡ true) (reverse xs) (c ∷ []) (Only-reverse p xs h.1) (h.0, tt))

trim_space-padded :
    (sp xs sp' : Text)
    → Only is_space sp
    → Only is_space sp'
    → trim_space (sp ++ (xs ++ sp')) ≡ trim_space xs
unfolding trim_space
trim_space-padded sp xs sp' h h' =
    rw (trim_left-append sp (xs ++ sp') h) (elim (trim_left-append_right xs sp' h') [
      | inl e ↦ rw (
        e,
        reverse-append,
        trim_left-append (reverse sp') (reverse (trim_left xs)) (Only-reverse is_space sp' h'),
      )
      | inr (e, f) ↦ rw (e, f)
    ])

-- `ValidateEmail`, `ValidatePhone` and `ValidateName` answer alike on a text and on the same text
-- with white space before and behind it.
pub validators_padded :
    (s t : String) (sp sp' : Text)
    → codes s ≡ sp ++ (codes t ++ sp')
    → Only is_space sp
    → Only is_space sp'
    → (validate_email s ≡ validate_email t)
      × (validate_phone s ≡ validate_phone t)
      × (validate_name s ≡ validate_name t)
unfolding validate_email validate_phone validate_name
validators_padded s t sp sp' e h h' =
    let same : trim_space (codes s) ≡ trim_space (codes t) =
      rw e (trim_space-padded sp (codes t) sp' h h') in
    (cc same, cc same, cc same)
