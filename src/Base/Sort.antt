-- ===== src/Base/Sort.antt =====
-- `ORDER BY` as insertion sort, and the rows that a condition keeps.
use mathlib.Core.Path.{◌≡◌, refl, sym, subst}
use mathlib.Core.Logic.{◌⊎◌, inl, inr}
use mathlib.Core.Bool.{Bool, true}
use mathlib.Core.List.{List, [], ◌∷◌, ◌++◌, Perm, Permᴰ}
use mathlib.Core.List.Perm
use native.Mathlib.Omega.{arith}
use wlt_traffic.Base.Tests.{if◌then◌else◌, Bool-cases}
use wlt_traffic.Base.Lists.{All, All-map}

module _ {ℓ} {A : Type ℓ} where
  -- `WHERE p`
  unfoldable pub keep : (A → Bool) → List A → List A
  keep p [] = []
  keep p (x ∷ xs) = let rest = keep p xs in if p x then x ∷ rest else rest

  unfoldable pub insert_by : (A → A → Bool) → A → List A → List A
  insert_by le x [] = x ∷ []
  insert_by le x (y ∷ ys) = let rest = insert_by le x ys in if le x y then x ∷ y ∷ ys else y ∷ rest

  unfoldable pub sort_by : (A → A → Bool) → List A → List A
  unfolding insert_by
  sort_by le [] = []
  sort_by le (x ∷ xs) = insert_by le x (sort_by le xs)

  insert_by-perm : (le : A → A → Bool) (x : A) (xs : List A) → Perm (insert_by le x xs) (x ∷ xs)
  unfolding insert_by
  insert_by-perm le x [] = Perm.refl (x ∷ [])
  insert_by-perm le x (y ∷ ys) = elim (Bool-cases (le x y)) [
    | inl e ↦ rw e (Perm.refl (x ∷ y ∷ ys))
    | inr e ↦ rw e (Perm.trans (Perm.cons y (insert_by-perm le x ys)) (Perm.swap x y ys))
  ]

  pub sort_by-perm : (le : A → A → Bool) (xs : List A) → Perm (sort_by le xs) xs
  unfolding sort_by
  sort_by-perm le [] = Perm.refl []
  sort_by-perm le (x ∷ xs) =
      Perm.trans (insert_by-perm le x (sort_by le xs)) (Perm.cons x (sort_by-perm le xs))

  -- every element comes before all that follow it
  abbrev pub IsOrdered : (A → A → Bool) → List A → Type 0
  IsOrdered le [] = Unit
  IsOrdered le (x ∷ xs) = All (λ y. le x y ≡ true) xs × IsOrdered le xs

  module _ (le : A → A → Bool) (total : (x y : A) → (le x y ≡ true) ⊎ (le y x ≡ true))
      (transitive : (x y z : A) → le x y ≡ true → le y z ≡ true → le x z ≡ true) where
    All-insert_by :
        (z x : A) (xs : List A)
        → le z x ≡ true
        → All (λ y. le z y ≡ true) xs
        → All (λ y. le z y ≡ true) (insert_by le x xs)
    unfolding insert_by
    All-insert_by z x [] h k = (h, tt)
    All-insert_by z x (y ∷ ys) h k = ground (arith, All-insert_by z x ys h k.1)

    insert_by-IsOrdered : (x : A) (xs : List A) → IsOrdered le xs → IsOrdered le (insert_by le x xs)
    unfolding insert_by
    insert_by-IsOrdered x [] h = (tt, tt)
    insert_by-IsOrdered x (y ∷ ys) h = elim (Bool-cases (le x y)) [
      | inl e ↦ rw e (
        (e, All-map (λ z. le y z ≡ true) (λ z. le x z ≡ true) (λ z q. transitive x y z e q) ys h.0),
        h,
      )
      | inr e ↦
          rw e (All-insert_by y x ys (ground (arith, total x y)) h.0, insert_by-IsOrdered x ys h.1)
    ]

    pub sort_by-IsOrdered : (xs : List A) → IsOrdered le (sort_by le xs)
    unfolding sort_by
    sort_by-IsOrdered [] = tt
    sort_by-IsOrdered (x ∷ xs) = insert_by-IsOrdered x (sort_by le xs) (sort_by-IsOrdered xs)

pub keep-append {ℓ} :
    {A : Type ℓ} (p : A → Bool) (xs ys : List A) → keep p (xs ++ ys) ≡ keep p xs ++ keep p ys
unfolding keep
keep-append p [] ys = refl
keep-append p (x ∷ xs) ys = ground (arith, keep-append p xs ys)

-- what is kept passes the test
pub All-keep {ℓ} : {A : Type ℓ} (p : A → Bool) (xs : List A) → All (λ x. p x ≡ true) (keep p xs)
unfolding keep
All-keep p [] = tt
All-keep p (x ∷ xs) = ground (arith, All-keep p xs)

-- a predicate of every element is one of every element of a permutation
pub All-perm : {A : Type 0} (P : A → Type 0) (xs ys : List A) → Permᴰ xs ys → All P ys → All P xs
All-perm P xs ys Permᴰ.nil h = tt
All-perm P xs ys (Permᴰ.cons e p) h = (subst P (sym e) h.0, All-perm P _ _ p h.1)
All-perm P xs ys (Permᴰ.swap e e') h = (subst P (sym e) h.1.0, (subst P (sym e') h.0, h.1.1))
All-perm P xs ys (Permᴰ.trans p q) h = All-perm P _ _ p (All-perm P _ _ q h)
