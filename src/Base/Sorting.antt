-- ===== src/Base/Sorting.antt =====
-- `sort.Strings` and `sort.Slice`, as a stable insertion sort. Of texts every sort gives the same
-- list; `sort.Slice` may order equal elements in any way, and here keeps their order.
use Prim.Native.Nat.{suc}
use Prim.Native.String.{String}
use mathlib.Core.Path.{◌≡◌, refl, ◌∙◌}
use mathlib.Core.Logic.{inl, inr}
use mathlib.Core.Bool.{Bool, true, false}
use mathlib.Core.List.{List, [], ◌∷◌}
use native.Mathlib.Omega.{arith}
use text.Mathlib.Text.{◌==◌}
use text.Mathlib.TextEquality.{eq_iff}
use barq_control_plane.Base.Tests.{if◌then◌else◌, Bool-cases}
use barq_control_plane.Base.Order.{str_leb, str_leb_total, str_leb_trans}
use barq_control_plane.Base.Lists.{length, All, contains, IsDistinct}

module _ {ℓ} {A : Type ℓ} (le : A → A → Bool) where
  unfoldable pub insert_by : A → List A → List A
  insert_by x [] = x ∷ []
  insert_by x (y ∷ ys) = if le x y then x ∷ y ∷ ys else y ∷ insert_by x ys

  unfoldable pub sort_by : List A → List A
  unfolding insert_by
  sort_by [] = []
  sort_by (x ∷ xs) = insert_by x (sort_by xs)

  -- Each element passes the test against all that follow it.
  abbrev pub IsSortedBy : List A → Type 0
  IsSortedBy [] = Unit
  IsSortedBy (x ∷ xs) = All (λ y. le x y ≡ true) xs × IsSortedBy xs

  length-insert_by : (x : A) (xs : List A) → length (insert_by x xs) ≡ suc (length xs)
  unfolding insert_by
  length-insert_by x [] = refl
  length-insert_by x (y ∷ ys) = ground (arith, length-insert_by x ys)

  pub length-sort_by : (xs : List A) → length (sort_by xs) ≡ length xs
  unfolding sort_by
  length-sort_by [] = refl
  length-sort_by (x ∷ xs) = omega (arith, length-insert_by x (sort_by xs), length-sort_by xs)

-- sort.Strings
unfoldable pub sort_strings : List String → List String
unfolding sort_by
sort_strings = sort_by str_leb

module _ {ℓ} {A : Type ℓ} (le : A → A → Bool) (total : (a b : A) → le a b ≡ false → le b a ≡ true)
    (trans : (a b c : A) → le a b ≡ true → le b c ≡ true → le a c ≡ true) where
  above_trans :
      (x y : A) (ys : List A)
      → le x y ≡ true
      → All (λ z. le y z ≡ true) ys
      → All (λ z. le x z ≡ true) ys
  above_trans x y [] h a = tt
  above_trans x y (z ∷ zs) h (p, a) = (trans x y z h p, above_trans x y zs h a)

  above_insert :
      (x y : A) (ys : List A)
      → le y x ≡ true
      → All (λ z. le y z ≡ true) ys
      → All (λ z. le y z ≡ true) (insert_by le x ys)
  unfolding insert_by
  above_insert x y [] h a = (h, tt)
  above_insert x y (z ∷ zs) h (p, a) = ground (arith, above_insert x y zs h a)

  insert_by-IsSortedBy :
      (x : A) (ys : List A) → IsSortedBy le ys → IsSortedBy le (insert_by le x ys)
  unfolding insert_by
  insert_by-IsSortedBy x [] h = (tt, tt)
  insert_by-IsSortedBy x (y ∷ ys) (a, h) = elim (Bool-cases (le x y)) [
    | inl p ↦ rw p ((p, above_trans x y ys p a), (a, h))
    | inr p ↦ rw p (above_insert x y ys (total x y p) a, insert_by-IsSortedBy x ys h)
  ]

  pub sort_by-IsSortedBy : (xs : List A) → IsSortedBy le (sort_by le xs)
  unfolding sort_by
  sort_by-IsSortedBy [] = tt
  sort_by-IsSortedBy (x ∷ xs) = insert_by-IsSortedBy x (sort_by le xs) (sort_by-IsSortedBy xs)

abbrev pub IsSorted : List String → Type 0
IsSorted = IsSortedBy str_leb

pub sort_strings-IsSorted : (xs : List String) → IsSorted (sort_strings xs)
unfolding sort_strings
sort_strings-IsSorted = sort_by-IsSortedBy str_leb str_leb_total str_leb_trans

pub length-sort_strings : (xs : List String) → length (sort_strings xs) ≡ length xs
unfolding sort_strings
length-sort_strings = length-sort_by str_leb

contains-insert_by :
    (x : String) (ys : List String) (v : String)
    → contains (insert_by str_leb x ys) v ≡ (if x == v then true else contains ys v)
unfolding insert_by contains
contains-insert_by x [] v = refl
contains-insert_by x (y ∷ ys) v = ground (arith, contains-insert_by x ys v)

pub contains-sort_strings :
    (xs : List String) (v : String) → contains (sort_strings xs) v ≡ contains xs v
unfolding sort_strings contains
contains-sort_strings [] v = refl
contains-sort_strings (x ∷ xs) v =
    ground (arith, contains-insert_by x (sort_strings xs) v, contains-sort_strings xs v)

insert_by-IsDistinct :
    (x : String) (ys : List String)
    → contains ys x ≡ false
    → IsDistinct ys
    → IsDistinct (insert_by str_leb x ys)
unfolding insert_by contains
insert_by-IsDistinct x [] h d = (refl, tt)
insert_by-IsDistinct x (y ∷ ys) h (p, d) =
    ground (arith, insert_by-IsDistinct x ys, contains-insert_by x ys y, eq_iff x y, eq_iff y x)

pub sort_strings-IsDistinct : (xs : List String) → IsDistinct xs → IsDistinct (sort_strings xs)
unfolding sort_strings contains
sort_strings-IsDistinct [] d = tt
sort_strings-IsDistinct (x ∷ xs) (p, d) =
    insert_by-IsDistinct x (sort_strings xs) (contains-sort_strings xs x ∙ p)
      (sort_strings-IsDistinct xs d)
