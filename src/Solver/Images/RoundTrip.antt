-- ===== src/Solver/Images/RoundTrip.antt =====
-- Image vectors of up to three dimensions survive the bit fields; of four they do not.
use native.Mathlib.Nat.{mod-eq_of_lt}
use aphros_test.Base.{◌%◌, ◌≤◌, ◌<◌, ◌≡◌, refl, [], ◌∷◌, arith, length}
use aphros_test.Base.Int.{ℤ, pos, negsuc}
use aphros_test.Geom.Vect.{MIdx}
use aphros_test.Solver.Images.{Bits, to_field, pack, unpack}

-- The range of a signed field of 16 bits.
abbrev pub IsField : ℤ → Type 0
IsField (pos n) = n < 32_768
IsField (negsuc n) = n < 32_768

abbrev pub AllFields : MIdx → Type 0
AllFields [] = Unit {0}
AllFields (x ∷ w) = IsField x × AllFields w

to_field-IsField : (x : ℤ) → IsField x → to_field x ≡ x
unfolding to_field
to_field-IsField (pos n) h =
    let small : n % 65_536 ≡ n = mod-eq_of_lt (omega arith) in ground (arith, small, h)
to_field-IsField (negsuc n) h =
    let small : n % 65_536 ≡ n = mod-eq_of_lt (omega arith) in ground (arith, small, h)

-- In one to three dimensions a vector of components within 16 bits is given back by `Unpack` from
-- what `Pack` makes of it, whatever stood in the fields before.
pub unpack-pack :
    (u : Bits) (w : MIdx)
    → 0 < length w
    → length w ≤ 3
    → AllFields w
    → unpack (length w) (pack u w) ≡ w
unfolding unpack pack
unpack-pack u [] h k f = absurd (omega (arith, h))
unpack-pack u (x ∷ []) h k f = rw (to_field-IsField x f.0) refl
unpack-pack u (x ∷ y ∷ []) h k f = rw (to_field-IsField x f.0, to_field-IsField y f.1.0) refl
unpack-pack u (x ∷ y ∷ z ∷ []) h k f =
    rw (to_field-IsField x f.0, to_field-IsField y f.1.0, to_field-IsField z f.1.1.0) refl
unpack-pack u (x ∷ y ∷ z ∷ t ∷ w) h k f = absurd (omega (arith, k))

-- In four dimensions the third component is lost: `Unpack` gives the fourth in its place, and in
-- the fourth place what stood there before.
pub unpack-pack_four :
    (u : Bits) (x y z t : ℤ)
    → AllFields (x ∷ y ∷ z ∷ t ∷ [])
    → unpack 4 (pack u (x ∷ y ∷ z ∷ t ∷ [])) ≡ x ∷ y ∷ t ∷ u.w3 ∷ []
unfolding unpack pack
unpack-pack_four u x y z t f =
    rw (to_field-IsField x f.0, to_field-IsField y f.1.0, to_field-IsField t f.1.1.1.0) refl
