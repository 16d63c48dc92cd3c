-- ===== src/Storage/Text.antt =====
-- The order of TEXT values in the statements of storage.go: SQLite compares byte by byte.
use wlt_traffic.Base.{
  ◌≡◌, refl, Bool, true, false, ◌⊎◌, inl, inr, [], ◌∷◌, arith, ◌==◌, ltb, if◌then◌else◌, ◌&&◌, ◌||◌,
}
use wlt_traffic.Storage.Types.{GoString}

-- `a <= b`
unfoldable pub text_leb : GoString → GoString → Bool
text_leb [] b = true
text_leb (x ∷ a) [] = false
text_leb (x ∷ a) (y ∷ b) = ltb x y || x == y && text_leb a b

pub text_leb_refl : (a : GoString) → text_leb a a ≡ true
unfolding text_leb
text_leb_refl [] = refl
text_leb_refl (x ∷ a) = ground (arith, text_leb_refl a)

pub text_leb_total : (a b : GoString) → (text_leb a b ≡ true) ⊎ (text_leb b a ≡ true)
unfolding text_leb
text_leb_total [] b = inl refl
text_leb_total (x ∷ a) [] = inr refl
text_leb_total (x ∷ a) (y ∷ b) = ground (arith, text_leb_total a b)

pub text_leb_antisymm : (a b : GoString) → text_leb a b ≡ true → text_leb b a ≡ true → a ≡ b
unfolding text_leb
text_leb_antisymm [] [] p q = refl
text_leb_antisymm [] (y ∷ b) p q = cc
text_leb_antisymm (x ∷ a) [] p q = cc
text_leb_antisymm (x ∷ a) (y ∷ b) p q = ground (arith, text_leb_antisymm a b)

pub text_leb_trans :
    (a b c : GoString) → text_leb a b ≡ true → text_leb b c ≡ true → text_leb a c ≡ true
unfolding text_leb
text_leb_trans [] b c p q = refl
text_leb_trans (x ∷ a) [] c p q = cc
text_leb_trans (x ∷ a) (y ∷ b) [] p q = cc
text_leb_trans (x ∷ a) (y ∷ b) (z ∷ c) p q = ground (arith, text_leb_trans a b c)

-- `a < b`
abbrev pub text_ltb : GoString → GoString → Bool
text_ltb a b = if text_leb b a then false else true
