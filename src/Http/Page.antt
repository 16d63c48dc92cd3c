-- ===== src/Http/Page.antt =====
-- The loops of `queryAll` and `queryDateRange` that skip `offset` rows and stop after `limit`.
use wlt_traffic.Base.{
  ℕ, zero, suc, ◌+◌, ◌≤◌, ◌≡◌, refl, sym, Bool, List, [], ◌∷◌, map, take, drop, ltb, leb,
  if◌then◌else◌, arith,
}
use wlt_traffic.Base.Sort.{keep}

take_nil {ℓ} : {A : Type ℓ} (n : ℕ) → take {A = A} n [] ≡ []
take_nil zero = refl
take_nil (suc n) = refl

module _ {ℓ} {A B : Type ℓ} (selected : A → Bool) (f : A → B) (limit offset : ℕ) where
  -- the loop, from its counters `skip` and `count` on
  unfoldable pub page_from : ℕ → ℕ → List A → List B
  page_from skip count [] = []
  page_from skip count (x ∷ xs) =
      let same = page_from skip count xs in
      let skipped = page_from (suc skip) count xs in
      let counted = page_from skip (suc count) xs in
      if selected x
      then (if ltb skip offset then skipped else if leb limit count then [] else f x ∷ counted)
      else same

  unfoldable pub page : List A → List B
  unfolding page_from
  page xs = page_from 0 0 xs

  page_from_full :
      (skip count : ℕ) (xs : List A) → offset ≤ skip → limit ≤ count → page_from skip count xs ≡ []
  unfolding page_from
  page_from_full skip count [] h k = refl
  page_from_full skip count (x ∷ xs) h k = ground (arith, page_from_full skip count xs h k)

  page_from-take :
      (skip count n : ℕ) (xs : List A)
      → offset ≤ skip
      → count + n ≡ limit
      → page_from skip count xs ≡ take n (map f (keep selected xs))
  unfolding page_from keep
  page_from-take skip count zero [] h k = refl
  page_from-take skip count (suc n) [] h k = refl
  page_from-take skip count zero (x ∷ xs) h k =
      ground (arith, page_from_full skip count xs h (omega arith))
  page_from-take skip count (suc n) (x ∷ xs) h k =
      ground
        (arith, page_from-take skip count (suc n) xs h k, page_from-take skip (suc count) n xs h)

  page_from-drop :
      (skip n : ℕ) (xs : List A)
      → skip + n ≡ offset
      → page_from skip 0 xs ≡ take limit (drop n (map f (keep selected xs)))
  unfolding page_from keep
  page_from-drop skip zero xs h = page_from-take skip 0 limit xs (omega arith) (omega arith)
  page_from-drop skip (suc n) [] h = sym (take_nil limit)
  page_from-drop skip (suc n) (x ∷ xs) h =
      ground (arith, page_from-drop skip (suc n) xs h, page_from-drop (suc skip) n xs (omega arith))

  -- the loop returns the rows `offset`, …, `offset + limit - 1` of those that are selected
  pub page_lem : (xs : List A) → page xs ≡ take limit (drop offset (map f (keep selected xs)))
  unfolding page
  page_lem xs = page_from-drop 0 offset xs (omega arith)
