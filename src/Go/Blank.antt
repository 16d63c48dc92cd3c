-- ===== src/Go/Blank.antt =====
-- The blank strings: those of which `strings.TrimSpace` leaves nothing.
use wlt_traffic.Base.{Bool, true, false, ◌&&◌, ◌||◌, List, [], ◌∷◌, ◌++◌, ◌==◌, if◌then◌else◌}
use wlt_traffic.Storage.Types.{GoString}

-- the characters of `unicode.IsSpace` in UTF-8
abbrev spaces : List GoString
spaces =
    (9 ∷ [])
    ∷ (10 ∷ [])
    ∷ (11 ∷ [])
    ∷ (12 ∷ [])
    ∷ (13 ∷ [])
    ∷ (32 ∷ [])
    ∷ (194 ∷ 133 ∷ [])
    ∷ (194 ∷ 160 ∷ [])
    ∷ (225 ∷ 154 ∷ 128 ∷ [])
    ∷ (226 ∷ 128 ∷ 128 ∷ [])
    ∷ (226 ∷ 128 ∷ 129 ∷ [])
    ∷ (226 ∷ 128 ∷ 130 ∷ [])
    ∷ (226 ∷ 128 ∷ 131 ∷ [])
    ∷ (226 ∷ 128 ∷ 132 ∷ [])
    ∷ (226 ∷ 128 ∷ 133 ∷ [])
    ∷ (226 ∷ 128 ∷ 134 ∷ [])
    ∷ (226 ∷ 128 ∷ 135 ∷ [])
    ∷ (226 ∷ 128 ∷ 136 ∷ [])
    ∷ (226 ∷ 128 ∷ 137 ∷ [])
    ∷ (226 ∷ 128 ∷ 138 ∷ [])
    ∷ (226 ∷ 128 ∷ 168 ∷ [])
    ∷ (226 ∷ 128 ∷ 169 ∷ [])
    ∷ (226 ∷ 128 ∷ 175 ∷ [])
    ∷ (226 ∷ 129 ∷ 159 ∷ [])
    ∷ (227 ∷ 128 ∷ 128 ∷ [])
    ∷ []

abbrev starts : GoString → GoString → Bool
starts [] text = true
starts (c ∷ s) [] = false
starts (c ∷ s) (d ∷ text) = (c == d) && starts s text

abbrev same : GoString → GoString → Bool
same s text = starts s text && starts text s

abbrev any : (GoString → Bool) → List GoString → Bool
any test [] = false
any test (x ∷ xs) = test x || any test xs

-- after the bytes `seen` of a character
unfoldable pub blank_from : GoString → GoString → Bool
blank_from [] [] = true
blank_from (b ∷ seen) [] = false
blank_from seen (c ∷ s) =
    let more = seen ++ (c ∷ []) in
    let whole = any (same more) spaces in
    let rest = blank_from (if whole then [] else more) s in
    if any (starts more) spaces then rest else false

-- `strings.TrimSpace(s) == ""`
unfoldable pub is_blank : GoString → Bool
unfolding blank_from
is_blank s = blank_from [] s
