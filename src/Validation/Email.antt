-- ===== src/Validation/Email.antt =====
-- `ValidateEmail` against a description of the addresses that it takes.
use uber.Base.{
  ℕ, ◌≤◌, String, true, false, [], ◌∷◌, ◌++◌, ◌≡◌, refl, ◌↔◌, arith, length, length-append, ap,
}
use uber.Validation.Regex.{Text, Matches, matches, matches_iff}
use uber.Validation.Rules.{
  codes, byte_len, trim_space, is_local, is_domain, is_letter, is_nil, email_regex, validate_email,
}
use uber.Validation.Text.{Only, plus_iff}

-- A local part, an at sign, a domain, a dot, and a top level of two letters or more.
pub record IsEmail (xs : Text) : Type 0 where
  pub local : Text
  pub domain : Text
  pub top : Text
  pub shape : xs ≡ local ++ (b'@' ∷ (domain ++ (b'.' ∷ top)))
  pub local_chars : (1 ≤ length local) × Only is_local local
  pub domain_chars : (1 ≤ length domain) × Only is_domain domain
  pub top_chars : (2 ≤ length top) × Only is_letter top

IsEmail-sound : (xs : Text) → Matches email_regex xs → IsEmail xs
unfolding email_regex
IsEmail-sound xs
      (
        l,
        r₁,
        e₁,
        ml,
        (
          a,
          r₂,
          e₂,
          (at, ea, ta),
          (dom, r₃, e₃, md, (p, r₄, e₄, (dot, ep, tp), (t, ts, e₅, (c, et, tc), mt))),
        ),
      ) =
    let is_at : at ≡ b'@' = ground arith in
    let is_dot : dot ≡ b'.' = ground arith in
    let tops = (plus_iff is_letter ts).0 mt in
    record {
      local = l;
      domain = dom;
      top = c ∷ ts;
      shape = rw (e₁, e₂, ea, is_at, e₃, e₄, ep, is_dot, e₅, et);
      local_chars = (plus_iff is_local l).0 ml;
      domain_chars = (plus_iff is_domain dom).0 md;
      top_chars = (omega (arith, tops.0), (tc, tops.1));
    }

top_complete :
    (top : Text)
    → (2 ≤ length top) × Only is_letter top
    → (c : ℕ) × (cs : Text) × (top ≡ c ∷ cs)
      × (is_letter c ≡ true)
      × (1 ≤ length cs)
      × Only is_letter cs
top_complete [] h = absurd (omega (arith, h.0))
top_complete (c ∷ cs) h = (c, cs, refl, h.1.0, omega (arith, h.0), h.1.1)

email_complete : (xs : Text) → IsEmail xs → Matches email_regex xs
unfolding email_regex
email_complete xs h =
    let (c, cs, e, letter, some_more, letters) = top_complete h.top h.top_chars in
    (
      h.local,
      b'@' ∷ (h.domain ++ (b'.' ∷ h.top)),
      h.shape,
      (plus_iff is_local h.local).1 h.local_chars,
      (
        b'@' ∷ [],
        h.domain ++ (b'.' ∷ h.top),
        refl,
        (b'@', refl, refl),
        (
          h.domain,
          b'.' ∷ h.top,
          refl,
          (plus_iff is_domain h.domain).1 h.domain_chars,
          (
            b'.' ∷ [],
            h.top,
            refl,
            (b'.', refl, refl),
            (c ∷ [], cs, e, (c, refl, letter), (plus_iff is_letter cs).1 (some_more, letters)),
          ),
        ),
      ),
    )

IsEmail-some : (xs : Text) → IsEmail xs → is_nil xs ≡ false
IsEmail-some [] h = absurd (
    omega
      (arith, ap length h.shape, length-append {0} h.local (b'@' ∷ (h.domain ++ (b'.' ∷ h.top)))))
IsEmail-some (x ∷ xs) h = refl

-- `ValidateEmail` takes exactly the texts that are, between white space, a local part, an at sign,
-- a domain, a dot and a top level of two letters or more, in the characters of its pattern, and
-- that have at most 200 bytes.
pub validate_email_iff :
    (email : String)
    → (validate_email email ≡ true)
      ↔ IsEmail (trim_space (codes email)) × (byte_len (trim_space (codes email)) ≤ 200)
unfolding validate_email
validate_email_iff email = (
  λ e. (IsEmail-sound xs ((matches_iff email_regex xs).0 (ground arith)), ground arith),
  λ h.
      let some_text = IsEmail-some xs h.0 in
      let matched : matches email_regex xs ≡ true =
        (matches_iff email_regex xs).1 (email_complete xs h.0) in
      ground (arith, matched, some_text, h.1),
)
  where
    xs : Text
    xs = trim_space (codes email)
