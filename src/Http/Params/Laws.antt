-- ===== src/Http/Params/Laws.antt =====
-- Bounds of the parameters, and which numbers they take.
use wlt_traffic.Base.{
  ℕ, zero, suc, ◌+◌, ◌/◌, ◌%◌, ◌^◌, ◌≤◌, ◌<◌, ◌≡◌, refl, subst, Option, none, some, [], ◌∷◌, ltb,
  leb, ◌==◌, if◌then◌else◌, arith, Bool-cases, inl, inr, ◌&&◌, ◌⊎◌, ◌-◌,
}
use wlt_traffic.Storage.Types.{GoString}
use wlt_traffic.Go.Strconv.{ℤ, pos, negsuc, digits_from, digits, atoi, up_to, negated}
use wlt_traffic.Http.Params.{limit_of, offset_of}

ℤ-cases :
    (o : Option ℤ) → (o ≡ none) ⊎ ((n : ℕ) × (o ≡ some (pos n))) ⊎ ((n : ℕ) × (o ≡ some (negsuc n)))
ℤ-cases none = inl refl
ℤ-cases (some (pos n)) = inr (inl (n, refl))
ℤ-cases (some (negsuc n)) = inr (inr (n, refl))

pub limit_bounds : (s : GoString) → (1 ≤ limit_of s) × (limit_of s ≤ 1000)
unfolding limit_of
limit_bounds s = elim (ℤ-cases (atoi s)) [
  | inl e ↦ rw e ground arith
  | inr (inl (n, e)) ↦ rw e ground arith
  | inr (inr (n, e)) ↦ rw e ground arith
]

-- the decimal text of `n`, of at most `fuel` digits, before the text `rest`
unfoldable pub decimal : ℕ → ℕ → GoString → GoString
decimal zero n rest = rest
decimal (suc fuel) n rest =
    let more = decimal fuel (n / 10) ((b'0' + n % 10) ∷ rest) in
    if ltb n 10 then (b'0' + n) ∷ rest else more

-- `strconv.Itoa`
unfoldable pub itoa : ℕ → GoString
unfolding decimal
itoa n = decimal (suc n) n []

digits_from-decimal :
    (fuel n : ℕ) (rest : GoString)
    → n < fuel
    → digits_from 0 (decimal fuel n rest) ≡ digits_from n rest
unfolding digits_from decimal
digits_from-decimal zero n rest h = ground arith
digits_from-decimal (suc fuel) n rest h = elim (Bool-cases (ltb n 10)) [
  | inl e ↦ rw e ground arith
  | inr e ↦
      rw (e, digits_from-decimal fuel (n / 10) ((b'0' + n % 10) ∷ rest) (ground (arith, e))) ground
        arith
]

decimal-cases :
    (fuel n : ℕ) (rest : GoString)
    → n < fuel
    → (c : ℕ) × (s : GoString) × (decimal fuel n rest ≡ c ∷ s) × (b'0' ≤ c)
unfolding decimal
decimal-cases zero n rest h = ground arith
decimal-cases (suc fuel) n rest h = elim (Bool-cases (ltb n 10)) [
  | inl e ↦ (b'0' + n, rest, ground arith, omega arith)
  | inr e ↦
      let (c, s, p, q) = decimal-cases fuel (n / 10) ((b'0' + n % 10) ∷ rest) (ground (arith, e)) in
      (c, s, ground (arith, p), q)
]

digits_lem : (n : ℕ) → digits_from 0 (decimal (suc n) n []) ≡ some n
unfolding digits_from
digits_lem n = digits_from-decimal (suc n) n [] (omega arith)

atoi_digit :
    (c : ℕ) (s : GoString) (n : ℕ)
    → b'0' ≤ c
    → n < 2 ^ 63
    → (if c == b'-'
        then up_to (2 ^ 63) negated (digits s)
        else if c == b'+'
        then up_to (2 ^ 63 - 1) pos (digits s)
        else up_to (2 ^ 63 - 1) pos (some n))
      ≡ some (pos n)
atoi_digit c s n q h = ground arith

-- `strconv.Atoi` reads back what `strconv.Itoa` writes, up to the largest `int`
atoi-itoa : (n : ℕ) → n < 2 ^ 63 → atoi (itoa n) ≡ some (pos n)
unfolding atoi itoa digits
atoi-itoa n h =
    let (c, s, p, q) = decimal-cases (suc n) n [] (omega arith) in
    let r : digits_from 0 (c ∷ s) ≡ some n =
      subst (λ t. digits_from 0 t ≡ some n) p (digits_lem n) in
    rw (p, r) (atoi_digit c s n q h)

digits-itoa : (n : ℕ) → digits (itoa n) ≡ some n
unfolding itoa digits
digits-itoa n =
    let (c, s, p, q) = decimal-cases (suc n) n [] (omega arith) in
    let r : digits_from 0 (c ∷ s) ≡ some n =
      subst (λ t. digits_from 0 t ≡ some n) p (digits_lem n) in
    rw p r

-- and the text with a minus sign
atoi-minus : (n : ℕ) → n < 2 ^ 63 → atoi (b'-' ∷ itoa n) ≡ some (negated n)
unfolding atoi
atoi-minus n h = rw (digits-itoa n) ground arith

limit_of-minus : (n : ℕ) → n < 2 ^ 63 → limit_of (b'-' ∷ itoa n) ≡ 100
unfolding limit_of
limit_of-minus zero h = rw (atoi-minus zero h) refl
limit_of-minus (suc n) h = rw (atoi-minus (suc n) h) refl

offset_of-minus : (n : ℕ) → n < 2 ^ 63 → offset_of (b'-' ∷ itoa n) ≡ 0
unfolding offset_of
offset_of-minus zero h = rw (atoi-minus zero h) refl
offset_of-minus (suc n) h = rw (atoi-minus (suc n) h) refl

limit_of-itoa :
    (n : ℕ) → n < 2 ^ 63 → limit_of (itoa n) ≡ (if ltb 0 n && leb n 1000 then n else 100)
unfolding limit_of
limit_of-itoa n h = rw (atoi-itoa n h) refl

offset_of-itoa : (n : ℕ) → n < 2 ^ 63 → offset_of (itoa n) ≡ n
unfolding offset_of
offset_of-itoa n h = rw (atoi-itoa n h) refl

-- For the decimal text of a number below 2 ^ 63: as `limit` it gives the number if it is from 1 to
-- 1000, and otherwise 100; as `offset` it gives the number. With a minus sign before it, it gives the
-- limit 100 and the offset 0.
pub signed_numbers :
    (n : ℕ)
    → n < 2 ^ 63
    → (limit_of (itoa n) ≡ (if ltb 0 n && leb n 1000 then n else 100))
      × (offset_of (itoa n) ≡ n)
      × (limit_of (b'-' ∷ itoa n) ≡ 100)
      × (offset_of (b'-' ∷ itoa n) ≡ 0)
signed_numbers n h =
    (limit_of-itoa n h, offset_of-itoa n h, limit_of-minus n h, offset_of-minus n h)
