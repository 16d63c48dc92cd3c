-- ===== src/Http/Mac.antt =====
-- MAC addresses as text: `macToString`, `macRegex` and the comparison `strings.EqualFold` of
-- internal/http/http.go.
pub mod Laws
use wlt_traffic.Base.{
  ℕ, zero, suc, ◌+◌, ◌-◌, ◌/◌, ◌%◌, ◌<◌, ◌≡◌, refl, Bool, true, false, ◌&&◌, ◌||◌, List, [], ◌∷◌,
  ◌++◌, ltb, leb, ◌==◌, if◌then◌else◌, arith,
}
use wlt_traffic.Storage.Types.{GoString, Mac}

-- a digit of `%02x`
unfoldable pub hex_digit : ℕ → ℕ
hex_digit n = if ltb n 10 then b'0' + n else b'a' + (n - 10)

-- `%02x` of a byte, before the rest of the text
abbrev pub hex_byte : ℕ → GoString → GoString
hex_byte n rest = hex_digit (n / 16) ∷ hex_digit (n % 16) ∷ rest

unfoldable pub mac_to_string : Mac → GoString
unfolding hex_digit
mac_to_string m = hex_byte m.b0 (
    b':'
    ∷ hex_byte m.b1 (
        b':'
        ∷ hex_byte m.b2 (b':' ∷ hex_byte m.b3 (b':' ∷ hex_byte m.b4 (b':' ∷ hex_byte m.b5 [])))))

abbrev between : ℕ → ℕ → ℕ → Bool
between low high c = leb low c && leb c high

-- `[0-9A-Fa-f]`
unfoldable pub is_hex : ℕ → Bool
is_hex c = between b'0' b'9' c || between b'A' b'F' c || between b'a' b'f' c

-- `([0-9A-Fa-f]{2}:){n}[0-9A-Fa-f]{2}` on the whole text
unfoldable pub matches_groups : ℕ → GoString → Bool
unfolding is_hex
matches_groups zero (c ∷ d ∷ []) = is_hex c && is_hex d
matches_groups (suc n) (c ∷ d ∷ e ∷ s) = is_hex c && is_hex d && e == b':' && matches_groups n s
matches_groups n s = false

-- `macRegex.MatchString`
unfoldable pub matches_mac : GoString → Bool
unfolding matches_groups
matches_mac s = matches_groups 5 s

-- a byte of ASCII in lower case
unfoldable pub lower : ℕ → ℕ
lower c = if between b'A' b'Z' c then c + 32 else c

-- `strings.EqualFold` on ASCII text
unfoldable pub equal_fold : GoString → GoString → Bool
unfolding lower
equal_fold [] [] = true
equal_fold [] (d ∷ t) = false
equal_fold (c ∷ s) [] = false
equal_fold (c ∷ s) (d ∷ t) = lower c == lower d && equal_fold s t

-- `macFilter == "" || strings.EqualFold(macStr, macFilter)`: the rows that are not skipped
unfoldable pub mac_selected : GoString → Mac → Bool
unfolding mac_to_string equal_fold
mac_selected [] m = true
mac_selected (c ∷ s) m = equal_fold (mac_to_string m) (c ∷ s)
