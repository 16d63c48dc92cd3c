-- ===== src/Http/Mac/Laws.antt =====
-- Which rows a `mac` parameter selects.
use wlt_traffic.Base.{
  ℕ, zero, suc, ◌+◌, ◌-◌, ◌*◌, ◌/◌, ◌%◌, ◌<◌, ◌&&◌, ◌≡◌, ◌↔◌, Bool, true, List, [], ◌∷◌, All, leb,
  length, if◌then◌else◌, arith, ◌==◌,
}
use wlt_traffic.Storage.Types.{GoString, Mac}
use wlt_traffic.Storage.Listing.{mac_bytes}
use wlt_traffic.Http.Mac.{
  hex_digit, hex_byte, mac_to_string, is_hex, matches_groups, matches_mac, lower, equal_fold,
  mac_selected,
}

-- the value of a hexadecimal digit, of either case
unfoldable pub hex_value : ℕ → ℕ
hex_value c = if leb c b'9' then c - b'0' else if leb c b'F' then c - 55 else c - 87

-- the bytes that `n` groups with a colon and a last group spell
unfoldable pub group_values : ℕ → GoString → List ℕ
unfolding hex_value
group_values zero (c ∷ d ∷ s) = (16 * hex_value c + hex_value d) ∷ []
group_values (suc n) (c ∷ d ∷ e ∷ s) = (16 * hex_value c + hex_value d) ∷ group_values n s
group_values n s = []

-- the address that a text spells
unfoldable pub mac_values : GoString → List ℕ
unfolding group_values
mac_values s = group_values 5 s

abbrev pub IsByte : ℕ → Type 0
IsByte n = n < 256

abbrev pub IsMac : Mac → Type 0
IsMac m = All IsByte (mac_bytes m)

-- `%02x` of the bytes, with colons between
unfoldable hex_text : List ℕ → GoString
hex_text [] = []
hex_text (n ∷ []) = hex_byte n []
hex_text (n ∷ k ∷ ns) = hex_byte n (b':' ∷ hex_text (k ∷ ns))

digit_fold :
    (n c : ℕ)
    → n < 16
    → is_hex c ≡ true
    → ((lower (hex_digit n) == lower c) ≡ true) ↔ (n ≡ hex_value c)
unfolding lower hex_digit is_hex hex_value
digit_fold n c h k = ground arith

hex_value_lt : (c : ℕ) → is_hex c ≡ true → hex_value c < 16
unfolding is_hex hex_value
hex_value_lt c k = ground arith

-- a group of two digits spells one byte
group_fold :
    (n c d : ℕ)
    → IsByte n
    → is_hex c ≡ true
    → is_hex d ≡ true
    → ((lower (hex_digit (n / 16)) == lower c && lower (hex_digit (n % 16)) == lower d) ≡ true)
      ↔ (n ≡ 16 * hex_value c + hex_value d)
group_fold n c d h p q = ground (
  arith,
  digit_fold (n / 16) c (omega arith) p,
  digit_fold (n % 16) d (omega arith) q,
  hex_value_lt c p,
  hex_value_lt d q,
)

colon_fold : (e : ℕ) → (e == b':') ≡ true → (lower b':' == lower e) ≡ true
unfolding lower
colon_fold e h = ground arith

groups :
    (p q r t : Bool) → (p && q && r && t) ≡ true → (p ≡ true) × (q ≡ true) × (r ≡ true) × (t ≡ true)
groups p q r t h = ground arith

fold_step :
    (p q r t : Bool) (b v : ℕ) (u w : List ℕ)
    → ((p && q) ≡ true) ↔ (b ≡ v)
    → r ≡ true
    → (t ≡ true) ↔ (u ≡ w)
    → ((p && (q && (r && t))) ≡ true) ↔ (b ∷ u ≡ v ∷ w)
fold_step p q r t b v u w f h g = ground arith

-- as many bytes as groups
hex_text_fold :
    (b : ℕ) (bytes : List ℕ) (s : GoString)
    → All IsByte (b ∷ bytes)
    → matches_groups (length bytes) s ≡ true
    → (equal_fold (hex_text (b ∷ bytes)) s ≡ true) ↔ (b ∷ bytes ≡ group_values (length bytes) s)
unfolding hex_text matches_groups equal_fold group_values
hex_text_fold b [] (c ∷ d ∷ []) k m =
    ground (arith, group_fold b c d k.0 (ground arith) (ground arith))
hex_text_fold b (b' ∷ bytes) (c ∷ d ∷ e ∷ s) k m =
    let (p, q, r, t) =
      groups (is_hex c) (is_hex d) (e == b':') (matches_groups (length bytes) s) m in
    fold_step (lower (hex_digit (b / 16)) == lower c) (lower (hex_digit (b % 16)) == lower d)
      (lower b':' == lower e) (equal_fold (hex_text (b' ∷ bytes)) s) b
      (16 * hex_value c + hex_value d) (b' ∷ bytes) (group_values (length bytes) s)
      (group_fold b c d k.0 p q) (colon_fold e r) (hex_text_fold b' bytes s k.1 t)
hex_text_fold b [] [] k m = ground arith
hex_text_fold b [] (c ∷ []) k m = ground arith
hex_text_fold b [] (c ∷ d ∷ e ∷ s) k m = ground arith
hex_text_fold b (b' ∷ bytes) [] k m = ground arith
hex_text_fold b (b' ∷ bytes) (c ∷ []) k m = ground arith
hex_text_fold b (b' ∷ bytes) (c ∷ d ∷ []) k m = ground arith

-- A `mac` parameter that passes `macRegex` selects the rows of the address that it spells, in
-- upper or lower case, and no other rows.
pub mac_selected_lem :
    (filter : GoString) (m : Mac)
    → IsMac m
    → matches_mac filter ≡ true
    → (mac_selected filter m ≡ true) ↔ (mac_bytes m ≡ mac_values filter)
unfolding matches_mac mac_selected mac_values hex_text mac_to_string
mac_selected_lem [] m h k = ground arith
mac_selected_lem (c ∷ s) m h k =
    hex_text_fold m.b0 (m.b1 ∷ m.b2 ∷ m.b3 ∷ m.b4 ∷ m.b5 ∷ []) (c ∷ s) h k
