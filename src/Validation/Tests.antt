-- ===== src/Validation/Tests.antt =====
-- The validators on texts, and the theorems at some of them.
use uber.Base.{◌≤◌, true, false, ◌≡◌, refl, [], ◌∷◌}
use uber.Validation.Regex.{matches}
use uber.Validation.Rules.{
  codes, byte_len, trim_space, email_regex, phone_regex, validate_email, validate_phone,
  validate_name, validate_password,
}
use uber.Validation.Phone.{IsPhone, validate_phone_iff}
use uber.Validation.Email.{IsEmail, validate_email_iff}
use uber.Validation.Padding.{validators_padded}

emails :
    (validate_email "sai@test.com" ≡ true)
    × (validate_email "  a.b+c%d@x-y.co.in " ≡ true)
    × (validate_email "no-at.com" ≡ false)
    × (validate_email "a@b.c" ≡ false)
    × (validate_email "" ≡ false)
unfolding validate_email matches email_regex trim_space
emails = (refl, refl, refl, refl, refl)

phones :
    (validate_phone "+918888888888" ≡ true)
    × (validate_phone "0123" ≡ false)
    × (validate_phone "7" ≡ false)
    × (validate_phone "+1234567890123456" ≡ false)
unfolding validate_phone matches phone_regex trim_space
phones = (refl, refl, refl, refl)

names_and_passwords :
    (validate_name " a " ≡ false)
    × (validate_name "ab" ≡ true)
    × (validate_password "12345" ≡ false)
unfolding validate_name validate_password trim_space
names_and_passwords = (refl, refl, refl)

validate_phone_iff_example :
    (validate_phone "+918888888888" ≡ true → IsPhone (trim_space (codes "+918888888888")))
    × (IsPhone (trim_space (codes "+918888888888")) → validate_phone "+918888888888" ≡ true)
validate_phone_iff_example = validate_phone_iff "+918888888888"

validate_email_iff_example :
    (validate_email "sai@test.com" ≡ true
      → IsEmail (trim_space (codes "sai@test.com"))
        × (byte_len (trim_space (codes "sai@test.com")) ≤ 200))
    × (IsEmail (trim_space (codes "sai@test.com"))
          × (byte_len (trim_space (codes "sai@test.com")) ≤ 200)
        → validate_email "sai@test.com" ≡ true)
validate_email_iff_example = validate_email_iff "sai@test.com"

validators_padded_example :
    (validate_email " a@b.co\n" ≡ validate_email "a@b.co")
    × (validate_phone " a@b.co\n" ≡ validate_phone "a@b.co")
    × (validate_name " a@b.co\n" ≡ validate_name "a@b.co")
validators_padded_example =
    validators_padded " a@b.co\n" "a@b.co" (32 ∷ []) (10 ∷ []) refl (refl, tt) (refl, tt)
