-- ===== src/Go/Address.antt =====
-- Addresses as `net.SplitHostPort` takes them apart.
pub mod Laws
use wlt_traffic.Base.{
  ℕ, Bool, true, false, ◌||◌, not, Option, none, some, List, [], ◌∷◌, ◌==◌, if◌then◌else◌,
}
use wlt_traffic.Storage.Types.{GoString}

pub data AddrError : Type 0 where
  missing_port too_many_colons missing_bracket unexpected_open unexpected_close : AddrError

-- the byte stands in the text
unfoldable pub occurs : ℕ → GoString → Bool
occurs c [] = false
occurs c (d ∷ s) = (d == c) || occurs c s

-- the texts before and after the first such byte
unfoldable pub cut_first : ℕ → GoString → Option (GoString × GoString)
cut_first c [] = none
cut_first c (d ∷ s) =
    let rest = cut_first c s in
    if d == c then some ([], s) else elim rest [ none ↦ none | some p ↦ some (d ∷ p.0, p.1) ]

-- the texts before and after the last such byte
unfoldable pub cut_last : ℕ → GoString → Option (GoString × GoString)
cut_last c [] = none
cut_last c (d ∷ s) =
    let rest = cut_last c s in
    elim rest [ none ↦ if d == c then some ([], s) else none | some p ↦ some (d ∷ p.0, p.1) ]

pub data Split : Type 0 where
  bad_address : AddrError → Split
  host_port : GoString → GoString → Split

-- the end of the function, which looks for brackets in what may not have any
abbrev pub without_brackets : GoString → GoString → Split → Split
without_brackets from_j from_k split =
    if occurs b'[' from_j
    then bad_address unexpected_open
    else if occurs b']' from_k
    then bad_address unexpected_close
    else split

-- what follows the first `]`
abbrev pub after_bracket : GoString → GoString → GoString → Split
after_bracket rest host [] = bad_address missing_port
after_bracket rest host (c ∷ port) =
    if not (c == b':')
    then bad_address missing_port
    else if occurs b':' port
    then bad_address too_many_colons
    else without_brackets rest (c ∷ port) (host_port host port)

abbrev pub bracketed : GoString → Option (GoString × GoString) → Split
bracketed rest none = bad_address missing_bracket
bracketed rest (some (host, after)) = after_bracket rest host after

abbrev pub unbracketed : GoString → GoString → GoString → Split
unbracketed hostport host port =
    if occurs b':' host
    then bad_address too_many_colons
    else without_brackets hostport hostport (host_port host port)

abbrev pub split_at : GoString → GoString → GoString → Split
split_at [] host port = unbracketed [] host port
split_at (c ∷ rest) host port =
    if c == b'[' then bracketed rest (cut_first b']' rest) else unbracketed (c ∷ rest) host port

unfoldable pub split_host_port : GoString → Split
unfolding cut_first cut_last occurs
split_host_port s = elim (cut_last b':' s) [
  | none ↦ bad_address missing_port
  | some p ↦ split_at s p.0 p.1
]
