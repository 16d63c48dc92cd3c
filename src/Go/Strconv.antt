-- ===== src/Go/Strconv.antt =====
-- Decimal numbers as package strconv of Go reads them.
use wlt_traffic.Base.{
  ℕ, zero, suc, ◌+◌, ◌-◌, ◌*◌, ◌^◌, ◌&&◌, Option, none, some, [], ◌∷◌, leb, ◌==◌, if◌then◌else◌,
}
use wlt_traffic.Storage.Types.{GoString}

-- an `int`: `negsuc n` is -(n + 1)
pub data ℤ : Type 0 where
  pos : ℕ → ℤ
  negsuc : ℕ → ℤ

-- the value of decimal digits after the value `n`; `none` at any other byte
unfoldable pub digits_from : ℕ → GoString → Option ℕ
digits_from n [] = some n
digits_from n (c ∷ s) =
    let rest = digits_from (10 * n + (c - b'0')) s in
    if leb b'0' c && leb c b'9' then rest else none

-- a text of at least one digit
unfoldable pub digits : GoString → Option ℕ
unfolding digits_from
digits [] = none
digits (c ∷ s) = digits_from 0 (c ∷ s)

abbrev pub negated : ℕ → ℤ
negated zero = pos 0
negated (suc n) = negsuc n

abbrev pub up_to : ℕ → (ℕ → ℤ) → Option ℕ → Option ℤ
up_to bound sign none = none
up_to bound sign (some n) = if leb n bound then some (sign n) else none

-- `strconv.Atoi` on a 64-bit machine; `none` is an error
unfoldable pub atoi : GoString → Option ℤ
unfolding digits
atoi [] = none
atoi (c ∷ s) =
    if c == b'-'
    then up_to (2 ^ 63) negated (digits s)
    else if c == b'+'
    then up_to (2 ^ 63 - 1) pos (digits s)
    else up_to (2 ^ 63 - 1) pos (digits (c ∷ s))
