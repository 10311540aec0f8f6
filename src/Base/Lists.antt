-- ===== src/Base/Lists.antt =====
-- Lists over the native numbers.
use Prim.Native.Nat.{ℕ, zero, suc, ◌+◌, ◌-◌, ◌≤◌}
use mathlib.Core.Path.{◌≡◌, refl}
use mathlib.Core.List.{List, [], ◌∷◌, ◌++◌}
use native.Mathlib.Nat.{zero-add, suc-add}
use native.Mathlib.Omega.{arith}

module _ {ℓ} {A : Type ℓ} where
  abbrev pub length : List A → ℕ
  length [] = 0
  length (x ∷ xs) = suc (length xs)

  abbrev pub take : ℕ → List A → List A
  take zero xs = []
  take (suc n) [] = []
  take (suc n) (x ∷ xs) = x ∷ take n xs

  abbrev pub drop : ℕ → List A → List A
  drop zero xs = xs
  drop (suc n) [] = []
  drop (suc n) (x ∷ xs) = drop n xs

  pub length-append : (xs ys : List A) → length (xs ++ ys) ≡ length xs + length ys
  length-append [] ys = omega arith
  length-append (x ∷ xs) ys = omega (arith, length-append xs ys)

-- Every element has the property.
abbrev pub All {ℓ κ} : {A : Type ℓ} → (A → Type κ) → List A → Type κ
All P [] = Unit
All P (x ∷ xs) = P x × All P xs

module _ {ℓ κ} {A : Type ℓ} (P : A → Type κ) where
  pub All-append : (front back : List A) → All P front → All P back → All P (front ++ back)
  All-append [] back h h' = h'
  All-append (x ∷ front) back (hx, h) h' = (hx, All-append front back h h')

  -- An element in the middle, and the others.
  pub All-split :
      (front : List A) (a : A) (back : List A)
      → All P (front ++ (a ∷ back))
      → P a × All P (front ++ back)
  All-split [] a back h = h
  All-split (x ∷ front) a back h =
      let (at, others) = All-split front a back h.1 in (at, (h.0, others))

  -- Another element in its place.
  pub All-replace :
      (front : List A) (a b : A) (back : List A)
      → P b
      → All P (front ++ (a ∷ back))
      → All P (front ++ (b ∷ back))
  All-replace [] a b back p h = (p, h.1)
  All-replace (x ∷ front) a b back p h = (h.0, All-replace front a b back p h.1)

pub All-map {ℓ κ μ} :
    {A : Type ℓ} (P : A → Type κ) (Q : A → Type μ) (f : (a : A) → P a → Q a) (xs : List A)
    → All P xs
    → All Q xs
All-map P Q f [] h = tt
All-map P Q f (x ∷ xs) h = (f x h.0, All-map P Q f xs h.1)

module _ {ℓ} {A : Type ℓ} where
  pub take-append_exact :
      (n : ℕ) (xs ys : List A) → n ≤ length xs → take n (take n xs ++ ys) ≡ take n xs
  take-append_exact zero xs ys h = refl
  take-append_exact (suc n) [] ys h = absurd (omega arith)
  take-append_exact (suc n) (x ∷ xs) ys h = cc (take-append_exact n xs ys (omega arith))

  pub take-append_one :
      (n : ℕ) (xs : List A) (c : A) (ys : List A)
      → n ≤ length xs
      → take (suc n) (take n xs ++ (c ∷ ys)) ≡ take n xs ++ c ∷ []
  take-append_one zero xs c ys h = refl
  take-append_one (suc n) [] c ys h = absurd (omega arith)
  take-append_one (suc n) (x ∷ xs) c ys h = cc (take-append_one n xs c ys (omega arith))

  pub length-take : (n : ℕ) (xs : List A) → n ≤ length xs → length (take n xs) ≡ n
  length-take zero xs h = refl
  length-take (suc n) [] h = absurd (omega arith)
  length-take (suc n) (x ∷ xs) h = omega (arith, length-take n xs (omega arith))

  pub length-drop : (n : ℕ) (xs : List A) → length (drop n xs) ≡ length xs - n
  length-drop zero xs = omega arith
  length-drop (suc n) [] = omega arith
  length-drop (suc n) (x ∷ xs) = omega (arith, length-drop n xs)

  pub take-length : (xs ys : List A) → take (length xs) (xs ++ ys) ≡ xs
  take-length [] ys = refl
  take-length (x ∷ xs) ys = cc (take-length xs ys)

  pub drop_length : (xs ys : List A) → drop (length xs) (xs ++ ys) ≡ ys
  drop_length [] ys = refl
  drop_length (x ∷ xs) ys = drop_length xs ys

  pub take-drop : (n : ℕ) (xs : List A) → take n xs ++ drop n xs ≡ xs
  take-drop zero xs = refl
  take-drop (suc n) [] = refl
  take-drop (suc n) (x ∷ xs) = cc (take-drop n xs)

  pub take-append_add : (xs ys : List A) (k : ℕ) → take (length xs + k) (xs ++ ys) ≡ xs ++ take k ys
  take-append_add [] ys k = rw zero-add
  take-append_add (x ∷ xs) ys k = rw suc-add (cc (take-append_add xs ys k))

  pub drop-take : (n k : ℕ) (xs : List A) → drop n (take (n + k) xs) ≡ take k (drop n xs)
  drop-take zero k xs = rw zero-add
  drop-take (suc n) zero [] = rw suc-add
  drop-take (suc n) (suc k) [] = rw suc-add
  drop-take (suc n) k (x ∷ xs) = rw suc-add (drop-take n k xs)

  take-nil : (n : ℕ) → take {A = A} n [] ≡ []
  take-nil zero = refl
  take-nil (suc n) = refl

  pub take_one_more :
      (i n : ℕ) (xs : List A)
      → take 1 (drop i xs) ++ take n (drop (suc i) xs) ≡ take (suc n) (drop i xs)
  take_one_more zero n [] = take-nil n
  take_one_more zero n (x ∷ xs) = refl
  take_one_more (suc i) n [] = take-nil n
  take_one_more (suc i) n (x ∷ xs) = take_one_more i n xs

  pub take_all : (n : ℕ) (xs : List A) → length xs ≤ n → take n xs ≡ xs
  take_all n [] h = take-nil n
  take_all zero (x ∷ xs) h = absurd (omega arith)
  take_all (suc n) (x ∷ xs) h = cc (take_all n xs (omega arith))

  pub drop-append_add : (xs ys : List A) (k : ℕ) → drop (length xs + k) (xs ++ ys) ≡ drop k ys
  drop-append_add [] ys k = rw zero-add
  drop-append_add (x ∷ xs) ys k = rw suc-add (drop-append_add xs ys k)
