-- ===== src/Testutil/Frame.antt =====
-- `buildEthernetFrame` of testutil.go. A `net.HardwareAddr` is a slice of bytes of any length.
use wlt_traffic.Base.{
  ℕ, zero, suc, ◌+◌, ◌≡◌, refl, ap, List, [], ◌∷◌, ◌++◌, length, length-append, arith,
}

unfoldable pub zeros : ℕ → List ℕ
zeros zero = []
zeros (suc n) = 0 ∷ zeros n

-- `copy(target, source)`: as many elements as the shorter one has
unfoldable pub copied : List ℕ → List ℕ → List ℕ
copied [] source = []
copied (x ∷ target) [] = x ∷ target
copied (x ∷ target) (y ∷ source) = y ∷ copied target source

-- the slices [0:6] and [6:12] of `make([]byte, 14+payloadSize)`, the two bytes of the type, the rest
unfoldable pub build_ethernet_frame : List ℕ → List ℕ → ℕ → List ℕ
build_ethernet_frame source target payload =
    copied (zeros 6) target ++ copied (zeros 6) source ++ 8 ∷ 0 ∷ zeros payload

length-copied : (target source : List ℕ) → length (copied target source) ≡ length target
unfolding copied
length-copied [] source = refl
length-copied (x ∷ target) [] = refl
length-copied (x ∷ target) (y ∷ source) = ap suc (length-copied target source)

length-zeros : (n : ℕ) → length (zeros n) ≡ n
unfolding zeros
length-zeros zero = refl
length-zeros (suc n) = ap suc (length-zeros n)

length-three :
    (xs ys zs : List ℕ) → length (xs ++ ys ++ 8 ∷ 0 ∷ zs) ≡ length xs + length ys + 2 + length zs
length-three xs ys zs = omega (arith, length-append (xs ++ ys) (8 ∷ 0 ∷ zs), length-append xs ys)

-- For addresses of any length the frame has 14 bytes and its payload.
pub length-build_ethernet_frame :
    (source target : List ℕ) (payload : ℕ)
    → length (build_ethernet_frame source target payload) ≡ 14 + payload
unfolding build_ethernet_frame
length-build_ethernet_frame source target payload = omega (
  arith,
  length-three (copied (zeros 6) target) (copied (zeros 6) source) (zeros payload),
  length-copied (zeros 6) target,
  length-copied (zeros 6) source,
  length-zeros payload,
  length-zeros 6,
)
