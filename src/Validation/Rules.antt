-- ===== src/Validation/Rules.antt =====
-- ride-service/pkg/validation/validation.go. A Go string is the list of its code points; every
-- string that reaches these functions was decoded from JSON, and so is valid UTF-8.
use Prim.Native.Char.{code}
use uber.Base.{
  ℕ, suc, ◌+◌, String, Float, Go, Bool, true, false, not, ◌&&◌, ◌||◌, [], ◌∷◌, leb, ltb, eqb,
  if◌then◌else◌,
}
use mathlib.Core.List.{reverse}
use uber.Validation.Regex.{Text, Regex, empty, one, seq, either, many, matches}

abbrev pub codes : String → Text
codes String.[] = []
codes (String.◌∷◌ c s) = code c ∷ codes s

-- The bytes of a code point in UTF-8, and of a text: Go's `len`.
abbrev pub width : ℕ → ℕ
width c = if ltb c 0x80 then 1 else if ltb c 0x800 then 2 else if ltb c 0x1_0000 then 3 else 4

abbrev pub byte_len : Text → ℕ
byte_len [] = 0
byte_len (c ∷ xs) = width c + byte_len xs

-- unicode.IsSpace.
abbrev pub is_space : ℕ → Bool
is_space c =
    (leb 9 c && leb c 13)
    || (eqb c 0x20
        || (eqb c 0x85
            || (eqb c 0xa0
                || (eqb c 0x1680
                    || ((leb 0x2000 c && leb c 0x200a)
                        || (eqb c 0x2028
                            || (eqb c 0x2029
                                || (eqb c 0x202f || (eqb c 0x205f || eqb c 0x3000)))))))))

-- strings.TrimSpace
unfoldable pub trim_left : Text → Text
trim_left [] = []
trim_left (c ∷ xs) = let rest = trim_left xs in if is_space c then rest else c ∷ xs

unfoldable pub trim_space : Text → Text
unfolding trim_left
trim_space xs = reverse (trim_left (reverse (trim_left xs)))

abbrev pub is_nil : Text → Bool
is_nil [] = true
is_nil (c ∷ xs) = false

abbrev pub is_digit : ℕ → Bool
is_digit c = leb b'0' c && leb c b'9'

abbrev pub is_letter : ℕ → Bool
is_letter c = (leb b'a' c && leb c b'z') || (leb b'A' c && leb c b'Z')

-- [a-zA-Z0-9._%+\-]
abbrev pub is_local : ℕ → Bool
is_local c =
    is_letter c
    || (is_digit c || (eqb c b'.' || (eqb c b'_' || (eqb c b'%' || (eqb c b'+' || eqb c b'-')))))

-- [a-zA-Z0-9.\-]
abbrev pub is_domain : ℕ → Bool
is_domain c = is_letter c || (is_digit c || (eqb c b'.' || eqb c b'-'))

-- r+, r{2}, r{1,n}
abbrev pub plus : Regex → Regex
plus r = seq r (many r)

abbrev pub at_most : ℕ → Regex → Regex
at_most ℕ.zero r = empty
at_most (suc n) r = either empty (seq r (at_most n r))

-- ^[a-zA-Z0-9._%+\-]+@[a-zA-Z0-9.\-]+\.[a-zA-Z]{2}$
unfoldable pub email_regex : Regex
email_regex = seq (plus (one is_local)) (
    seq (one (λ c. eqb c b'@')) (
      seq (plus (one is_domain))
        (seq (one (λ c. eqb c b'.')) (seq (one is_letter) (plus (one is_letter))))))

-- ^\+?[1-9]\d{1,14}$
unfoldable pub phone_regex : Regex
phone_regex =
    seq (either empty (one (λ c. eqb c b'+')))
      (seq (one (λ c. leb b'1' c && leb c b'9')) (seq (one is_digit) (at_most 13 (one is_digit))))

unfoldable pub validate_email : String → Bool
validate_email email =
    let email' = trim_space (codes email) in
    not (is_nil email') && (matches email_regex email' && leb (byte_len email') 200)

unfoldable pub validate_phone : String → Bool
validate_phone phone =
    let phone' = trim_space (codes phone) in
    not (is_nil phone') && (matches phone_regex phone' && leb (byte_len phone') 50)

unfoldable pub validate_name : String → Bool
validate_name name =
    let name' = trim_space (codes name) in leb 2 (byte_len name') && leb (byte_len name') 200

unfoldable pub validate_password : String → Bool
validate_password password =
    leb 6 (byte_len (codes password)) && leb (byte_len (codes password)) 100

unfoldable pub validate_coordinates : Go → (lat lng : Float) → Bool
validate_coordinates go lat lng =
    go.le (go.neg (go.of_nat 90)) lat
    && (go.le lat (go.of_nat 90)
        && (go.le (go.neg (go.of_nat 180)) lng && go.le lng (go.of_nat 180)))
