-- ===== src/Testutil/Listing.antt =====
-- `ListTestInterfaces` of testutil.go, which reads the output of `ip -o link show`.
use wlt_traffic.Base.{
  ℕ, ◌≡◌, ◌≤◌, All, refl, ap, ◌∙◌, Bool, true, false, ◌&&◌, ◌||◌, Option, none, some, List, [], ◌∷◌,
  ◌++◌, codes, ◌==◌, if◌then◌else◌, arith,
}
use wlt_traffic.Error.{Result, ok, err}
use wlt_traffic.Storage.Types.{GoString}
use wlt_traffic.Go.Address.{occurs}
use wlt_traffic.Testutil.Ip.{Ip, Links}

-- before a text, and the rest
abbrev joined : ℕ → List GoString → List GoString
joined c [] = []
joined c (part ∷ parts) = (c ∷ part) ∷ parts

-- `strings.Split` at one byte
unfoldable pub split_at_byte : ℕ → GoString → List GoString
split_at_byte c [] = [] ∷ []
split_at_byte c (d ∷ s) =
    let parts = split_at_byte c s in if d == c then [] ∷ parts else joined d parts

abbrev starts_with : GoString → GoString → Bool
starts_with [] s = true
starts_with (c ∷ text) [] = false
starts_with (c ∷ text) (d ∷ s) = (c == d) && starts_with text s

-- `strings.Contains(s, text)`
unfoldable pub contains_text : GoString → GoString → Bool
contains_text text [] = starts_with text []
contains_text text (c ∷ s) = starts_with text (c ∷ s) || contains_text text s

abbrev first : List GoString → GoString
first [] = []
first (part ∷ parts) = part

module _ (trim_space : GoString → GoString) where
  -- a line: the name between the first colons, up to an `@`
  abbrev named : List GoString → List GoString
  named [] = []
  named (part ∷ []) = []
  named (part ∷ name ∷ parts) = first (split_at_byte b'@' (trim_space name)) ∷ []

  unfoldable pub name_in : GoString → GoString → List GoString
  name_in prefix line =
      if contains_text (prefix ++ codes ":") line || contains_text (prefix ++ codes "@") line
      then named (split_at_byte b':' line)
      else []

  unfoldable pub names_in : GoString → List GoString → List GoString
  names_in prefix [] = []
  names_in prefix (line ∷ lines) = name_in prefix line ++ names_in prefix lines

  abbrev listed : GoString → Result GoString → Result (List GoString)
  listed prefix (err x) = err x
  listed prefix (ok output) = ok (names_in prefix (split_at_byte 10 output))

  unfoldable pub list_test_interfaces : Ip → GoString → Links → Result (List GoString)
  list_test_interfaces ip prefix l = listed prefix (ip.show_links l.commands l.names)

-- a text without the byte is one part
split_at_byte_free :
    (c : ℕ) (s rest : GoString)
    → occurs c s ≡ false
    → split_at_byte c (s ++ c ∷ rest) ≡ s ∷ split_at_byte c rest
unfolding split_at_byte occurs
split_at_byte_free c [] rest h = ground arith
split_at_byte_free c (d ∷ s) rest h = ground (arith, split_at_byte_free c s rest)

split_at_byte_alone : (c : ℕ) (s : GoString) → occurs c s ≡ false → split_at_byte c s ≡ s ∷ []
unfolding split_at_byte occurs
split_at_byte_alone c [] h = refl
split_at_byte_alone c (d ∷ s) h = ground (arith, split_at_byte_alone c s)

-- printable characters of ASCII
abbrev AreVisible : GoString → Type 0
AreVisible = All (λ c. (33 ≤ c) × (c ≤ 126))

-- NAME or NAME@PEER
abbrev shown : GoString → Option GoString → GoString
shown name none = name
shown name (some peer) = name ++ b'@' ∷ peer

first-shown :
    (name : GoString) (peer : Option GoString)
    → occurs b'@' name ≡ false
    → first (split_at_byte b'@' (shown name peer)) ≡ name
first-shown name none h = ap first (split_at_byte_alone b'@' name h)
first-shown name (some peer) h = ap first (split_at_byte_free b'@' name peer h)

module _ (trim_space : GoString → GoString)
    (trims : (s : GoString) → AreVisible s → trim_space (32 ∷ s) ≡ s) where
  module _ (prefix index name : GoString) (peer : Option GoString) (rest : GoString)
      (one : occurs b':' index ≡ false) (plain : occurs b':' (shown name peer) ≡ false) where
    abbrev line : GoString
    line = index ++ b':' ∷ 32 ∷ (shown name peer ++ b':' ∷ rest)

    split_at_byte-line :
        split_at_byte b':' line ≡ index ∷ (32 ∷ shown name peer) ∷ split_at_byte b':' rest
    unfolding occurs
    split_at_byte-line =
        split_at_byte_free b':' index (32 ∷ (shown name peer ++ b':' ∷ rest)) one
        ∙ ap (λ parts. index ∷ parts) (split_at_byte_free b':' (32 ∷ shown name peer) rest plain)

    -- If `TrimSpace` takes away the blank before a text of printable characters of ASCII: a line
    -- "INDEX: NAME: …" or "INDEX: NAME@PEER: …" of the output, with no other colon up to there and no
    -- "@" in the name, gives the name if the line contains the prefix before a colon or an "@", and
    -- nothing otherwise.
    pub name_in-line :
        AreVisible (shown name peer)
        → occurs b'@' name ≡ false
        → name_in trim_space prefix line ≡ (
            if contains_text (prefix ++ codes ":") line || contains_text (prefix ++ codes "@") line
            then name ∷ []
            else [])
    unfolding name_in
    name_in-line v d =
        let here : named trim_space (split_at_byte b':' line) ≡ name ∷ [] =
          ap (named trim_space) split_at_byte-line
          ∙ ap (λ s. first (split_at_byte b'@' s) ∷ []) (trims (shown name peer) v)
          ∙ ap (λ s. s ∷ []) (first-shown name peer d) in
        ap
          (λ names.
            if contains_text (prefix ++ codes ":") line || contains_text (prefix ++ codes "@") line
            then names
            else [])
          here
