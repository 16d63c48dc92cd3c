-- ===== src/Storage/Table.antt =====
-- A table with a primary key, as the list of its rows, and what the statements of
-- internal/storage do to one.
use wlt_traffic.Base.{
  ℕ, suc, ◌≡◌, ◌≢◌, sym, ap, Bool, Option, none, some, List, [], ◌∷◌, arith, ite, if◌then◌else◌,
}

abbrev pub Table {ℓ} : Type ℓ → Type ℓ → Type ℓ
Table K V = List (K × V)

-- the row that an upsert leaves where there was no row, or the row `w`
abbrev pub merged {ℓ} : {V : Type ℓ} → (V → V → V) → V → Option V → V
merged merge v none = v
merged merge v (some w) = merge w v

-- `DELETE FROM … WHERE`, with the condition on the primary key: the rows that stay
unfoldable pub delete_where {ℓ} : {K V : Type ℓ} → (K → Bool) → Table K V → Table K V
delete_where p [] = []
delete_where p ((j, w) ∷ t) = let rest = delete_where p t in if p j then rest else (j, w) ∷ rest

-- and the number of the others
unfoldable pub count_where {ℓ} : {K V : Type ℓ} → (K → Bool) → Table K V → ℕ
count_where p [] = 0
count_where p ((j, w) ∷ t) = let rest = count_where p t in if p j then suc rest else rest

module _ {ℓ} {K V : Type ℓ} (dec : Discrete K) where
  -- `SELECT … WHERE <primary key> = k`
  unfoldable pub find : K → Table K V → Option V
  find k [] = none
  find k ((j, v) ∷ t) = ite (dec j k) (some v) (find k t)

  -- `INSERT … ON CONFLICT(<primary key>) DO UPDATE SET …`: `merge old excluded` is the new row
  unfoldable pub upsert : (V → V → V) → K → V → Table K V → Table K V
  upsert merge k v [] = (k, v) ∷ []
  upsert merge k v ((j, w) ∷ t) = ite (dec j k) ((j, merge w v) ∷ t) ((j, w) ∷ upsert merge k v t)

  pub find-upsert_self :
      (merge : V → V → V) (k : K) (v : V) (t : Table K V)
      → find k (upsert merge k v t) ≡ some (merged merge v (find k t))
  unfolding find upsert
  find-upsert_self merge k v [] = ground arith
  find-upsert_self merge k v ((j, w) ∷ t) = ground (arith, find-upsert_self merge k v t)

  pub find-upsert_ne :
      (merge : V → V → V) (k i : K) (v : V) (t : Table K V)
      → k ≢ i
      → find i (upsert merge k v t) ≡ find i t
  unfolding find upsert
  find-upsert_ne merge k i v [] h = ground arith
  find-upsert_ne merge k i v ((j, w) ∷ t) h = ground (arith, find-upsert_ne merge k i v t h)

  -- the primary key constraint: no two rows have one key
  abbrev pub IsFresh : K → Table K V → Type ℓ
  IsFresh k [] = Unit
  IsFresh k ((j, w) ∷ t) = (j ≢ k) × IsFresh k t

  abbrev pub IsKeyed : Table K V → Type ℓ
  IsKeyed [] = Unit
  IsKeyed ((j, w) ∷ t) = IsFresh j t × IsKeyed t

  IsFresh-upsert :
      (merge : V → V → V) (k i : K) (v : V) (t : Table K V)
      → k ≢ i
      → IsFresh i t
      → IsFresh i (upsert merge k v t)
  unfolding upsert
  IsFresh-upsert merge k i v [] n h = (n, tt)
  IsFresh-upsert merge k i v ((j, w) ∷ t) n h = elim (dec j k) [
    | yes p ↦ ground arith
    | no p ↦ ground (arith, IsFresh-upsert merge k i v t n h.1)
  ]

  pub upsert-IsKeyed :
      (merge : V → V → V) (k : K) (v : V) (t : Table K V) → IsKeyed t → IsKeyed (upsert merge k v t)
  unfolding upsert
  upsert-IsKeyed merge k v [] h = (tt, tt)
  upsert-IsKeyed merge k v ((j, w) ∷ t) h = elim (dec j k) [
    | yes p ↦ ground arith
    | no p ↦
        ground
          (arith, IsFresh-upsert merge k j v t (λ e. p (sym e)) h.0, upsert-IsKeyed merge k v t h.1)
  ]

  pub find-delete_where :
      (p : K → Bool) (k : K) (t : Table K V)
      → find k (delete_where p t) ≡ (if p k then none else find k t)
  unfolding find delete_where
  find-delete_where p k [] = ground arith
  find-delete_where p k ((j, w) ∷ t) = elim (dec j k) [
    | yes e ↦ ground (arith, find-delete_where p k t, ap p e)
    | no e ↦ ground (arith, find-delete_where p k t)
  ]

  IsFresh-delete_where :
      (p : K → Bool) (k : K) (t : Table K V) → IsFresh k t → IsFresh k (delete_where p t)
  unfolding delete_where
  IsFresh-delete_where p k [] h = tt
  IsFresh-delete_where p k ((j, w) ∷ t) h = ground (arith, IsFresh-delete_where p k t h.1)

  pub delete_where-IsKeyed : (p : K → Bool) (t : Table K V) → IsKeyed t → IsKeyed (delete_where p t)
  unfolding delete_where
  delete_where-IsKeyed p [] h = tt
  delete_where-IsKeyed p ((j, w) ∷ t) h =
      ground (arith, IsFresh-delete_where p j t h.0, delete_where-IsKeyed p t h.1)
