-- ===== src/Db/Files.antt =====
-- The files that `RunMigrations` of ride-service/pkg/db/postgres.go applies, and their order.
-- `sort.Strings` is insertion here: the sorted list of the names does not depend on the method.
use Prim.Native.Char.{code}
use text.Mathlib.Text.{◌==◌}
use mathlib.Core.List.{Perm, Pairwise, Pairwise-singleton, Mem, forall_mem-cons}
use mathlib.Core.List.Perm
use mathlib.Core.Bool.{Bool-set}
use uber.Base.{
  String, Bool, true, false, not, ◌&&◌, ◌||◌, List, [], ◌∷◌, ◌≡◌, refl, arith, ltb, eqb,
  if◌then◌else◌, Bool-cases, inl, inr,
}

-- An entry of `fs.ReadDir`.
pub record Entry : Type 0 where
  pub name : String
  pub is_dir : Bool

-- strings.HasSuffix
abbrev pub has_suffix : (suffix s : String) → Bool
has_suffix suffix String.[] = String.[] == suffix
has_suffix suffix (String.◌∷◌ c s) =
    let rest = has_suffix suffix s in (String.◌∷◌ c s == suffix) || rest

-- The loop that collects `sqlFiles`.
unfoldable pub sql_files : List Entry → List String
sql_files [] = []
sql_files (e ∷ es) =
    let rest = sql_files es in
    if not e.is_dir && has_suffix ".sql" e.name then e.name ∷ rest else rest

-- `a <= b` on texts: by their bytes, which for UTF-8 is by their code points.
abbrev pub text_leb : String → String → Bool
text_leb String.[] t = true
text_leb (String.◌∷◌ c s) String.[] = false
text_leb (String.◌∷◌ c s) (String.◌∷◌ d t) =
    let rest = text_leb s t in ltb (code c) (code d) || (eqb (code c) (code d) && rest)

abbrev pub insert_text : String → List String → List String
insert_text x [] = x ∷ []
insert_text x (y ∷ ys) =
    let rest = insert_text x ys in if text_leb x y then x ∷ y ∷ ys else y ∷ rest

unfoldable pub sort_strings : List String → List String
sort_strings [] = []
sort_strings (x ∷ xs) = insert_text x (sort_strings xs)

abbrev pub IsAtMost : String → String → Type 0
IsAtMost a b = text_leb a b ≡ true

-- Every earlier text is at most every later one.
abbrev pub IsSorted : List String → Type 0
IsSorted = Pairwise IsAtMost

text_leb_total : (a b : String) → text_leb a b ≡ false → text_leb b a ≡ true
text_leb_total String.[] b h = ground arith
text_leb_total (String.◌∷◌ c s) String.[] h = refl
text_leb_total (String.◌∷◌ c s) (String.◌∷◌ d t) h = ground (arith, text_leb_total s t)

text_leb_trans : (a b c : String) → text_leb a b ≡ true → text_leb b c ≡ true → text_leb a c ≡ true
text_leb_trans String.[] b c h k = refl
text_leb_trans (String.◌∷◌ x a) String.[] c h k = ground arith
text_leb_trans (String.◌∷◌ x a) (String.◌∷◌ y b) String.[] h k = ground arith
text_leb_trans (String.◌∷◌ x a) (String.◌∷◌ y b) (String.◌∷◌ z c) h k =
    ground (arith, text_leb_trans a b c)

insert_text-perm : (x : String) (xs : List String) → Perm (insert_text x xs) (x ∷ xs)
insert_text-perm x [] = Perm.rfl
insert_text-perm x (y ∷ ys) = elim (Bool-cases (text_leb x y)) [
  | inl low ↦ rw low Perm.rfl
  | inr high ↦ rw high (Perm.trans (Perm.cons y (insert_text-perm x ys)) (Perm.swap x y ys))
]

IsAtMost-cons :
    (a : String) {b : String} {xs : List String}
    → IsAtMost a b
    → ((x : String) → Mem x xs → IsAtMost a x)
    → (x : String) → Mem x (b ∷ xs)
    → IsAtMost a x
IsAtMost-cons a h k = (forall_mem-cons (λ x. Bool-set (text_leb a x) true)).1 (h, k)

insert_text-IsSorted : (x : String) {xs : List String} → IsSorted xs → IsSorted (insert_text x xs)
insert_text-IsSorted x Pairwise.nil = Pairwise-singleton _ x
insert_text-IsSorted x (Pairwise.cons {a = y} {l = ys} below s) = elim (Bool-cases (text_leb x y)) [
  | inl low ↦ rw low (
      Pairwise.cons (IsAtMost-cons x low (λ z m. text_leb_trans x y z low (below z m)))
        (Pairwise.cons below s))
  | inr high ↦ rw high (
      Pairwise.cons
        (λ z m.
          IsAtMost-cons y (text_leb_total x y high) below z
            ((Perm.mem_iff (insert_text-perm x ys)).0 m))
        (insert_text-IsSorted x s))
]

sort_strings-perm : (xs : List String) → Perm (sort_strings xs) xs
unfolding sort_strings
sort_strings-perm [] = Perm.rfl
sort_strings-perm (x ∷ xs) =
    Perm.trans (insert_text-perm x (sort_strings xs)) (Perm.cons x (sort_strings-perm xs))

sort_strings-IsSorted : (xs : List String) → IsSorted (sort_strings xs)
unfolding sort_strings
sort_strings-IsSorted [] = Pairwise.nil
sort_strings-IsSorted (x ∷ xs) = insert_text-IsSorted x (sort_strings-IsSorted xs)

-- The migrations are applied in the order of their names as texts, and no file is left out or
-- added.
pub sort_strings_lem :
    (names : List String) → IsSorted (sort_strings names) × Perm (sort_strings names) names
sort_strings_lem names = (sort_strings-IsSorted names, sort_strings-perm names)
