-- ===== src/Validation/Phone.antt =====
-- `ValidatePhone` against a description of the numbers that it takes.
use uber.Base.{
  ℕ, ◌≤◌, String, true, false, ◌&&◌, [], ◌∷◌, ◌≡◌, refl, ◌↔◌, ◌⊎◌, inl, inr, arith, length, leb,
}
use uber.Validation.Regex.{Text, Regex, Matches, matches, matches_iff, one, seq}
use uber.Validation.Rules.{
  codes, byte_len, trim_space, is_digit, is_nil, phone_regex, validate_phone, at_most,
}
use uber.Validation.Text.{Only, at_most_sound, at_most_complete}

-- An optional plus, a digit that is not 0, and 1 to 14 digits.
pub record IsPhone (xs : Text) : Type 0 where
  pub first : ℕ
  pub others : Text
  pub shape : (xs ≡ first ∷ others) ⊎ (xs ≡ b'+' ∷ (first ∷ others))
  pub first_range : (b'1' ≤ first) × (first ≤ b'9')
  pub digits : Only is_digit others
  pub count : (1 ≤ length others) × (length others ≤ 14)

byte_len_digits : (xs : Text) → Only is_digit xs → byte_len xs ≡ length xs
byte_len_digits [] h = refl
byte_len_digits (c ∷ xs) h = ground (arith, byte_len_digits xs, h.0)

-- The pattern behind the sign.
abbrev digits_regex : Regex
digits_regex =
    seq (one (λ c. leb b'1' c && leb c b'9')) (seq (one is_digit) (at_most 13 (one is_digit)))

number_sound : (xs zs : Text) → (xs ≡ zs) ⊎ (xs ≡ b'+' ∷ zs) → Matches digits_regex zs → IsPhone xs
number_sound xs zs sign (us, vs, f, (d, g, t), (ws, rs, i, (c, j, s), m)) =
    let (only, short) = at_most_sound 13 is_digit rs m in
    let digits : zs ≡ d ∷ (c ∷ rs) = rw (f, g, i, j) in
    record {
      first = d;
      others = c ∷ rs;
      shape = rw digits at sign;
      first_range = ground arith;
      digits = (s, only);
      count = omega arith;
    }

IsPhone-sound : (xs : Text) → Matches phone_regex xs → IsPhone xs
unfolding phone_regex
IsPhone-sound xs (ys, zs, e, inl n, m) = number_sound xs zs (inl (rw (e, n))) m
IsPhone-sound xs (ys, zs, e, inr (p, n, t), m) =
    let plus : p ≡ b'+' = ground arith in number_sound xs zs (inr (rw (e, n, plus))) m

number_complete :
    (first : ℕ) (others : Text)
    → (b'1' ≤ first) × (first ≤ b'9')
    → Only is_digit others
    → (1 ≤ length others) × (length others ≤ 14)
    → Matches digits_regex (first ∷ others)
number_complete first [] range digits count = absurd (omega arith)
number_complete first (c ∷ rs) range digits count = (
  first ∷ [],
  c ∷ rs,
  refl,
  (first, refl, ground arith),
  (c ∷ [], rs, refl, (c, refl, digits.0), at_most_complete 13 is_digit rs digits.1 (omega arith)),
)

phone_complete : (xs : Text) → IsPhone xs → Matches phone_regex xs
unfolding phone_regex
phone_complete xs h =
    let number = number_complete h.first h.others h.first_range h.digits h.count in
    elim h.shape [
      | inl e ↦ ([], h.first ∷ h.others, e, inl refl, number)
      | inr e ↦ (b'+' ∷ [], h.first ∷ h.others, e, inr (b'+', refl, refl), number)
    ]

-- At most 16 bytes, and at least 2.
byte_len_phone : (xs : Text) → IsPhone xs → (byte_len xs ≤ 50) × (is_nil xs ≡ false)
byte_len_phone xs h =
    ground (arith, byte_len_digits h.others h.digits, h.shape, h.count, h.first_range)

-- `ValidatePhone` takes exactly the texts that are, between white space, an optional plus, a digit
-- from 1 to 9 and 1 to 14 more digits. Its test of the length refuses none of these.
pub validate_phone_iff :
    (phone : String) → (validate_phone phone ≡ true) ↔ IsPhone (trim_space (codes phone))
unfolding validate_phone
validate_phone_iff phone = (
  λ e. IsPhone-sound xs ((matches_iff phone_regex xs).0 (ground arith)),
  λ h.
      let (short, some_text) = byte_len_phone xs h in
      let matched : matches phone_regex xs ≡ true =
        (matches_iff phone_regex xs).1 (phone_complete xs h) in
      ground (arith, matched, short, some_text),
)
  where
    xs : Text
    xs = trim_space (codes phone)
