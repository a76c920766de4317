-- ===== src/Solver/Images.antt =====
-- `Pack` and `Unpack` of solver/trackerm.h: an image vector in four bit fields of 16 bits, which
-- share their place with one number.
pub mod RoundTrip
use aphros_test.Base.{ℕ, zero, suc, ◌+◌, ◌-◌, ◌%◌, Bool, List, [], ◌∷◌, ltb, if◌then◌else◌}
use aphros_test.Base.Int.{ℤ, pos, negsuc}
use aphros_test.Geom.Vect.{MIdx}

-- `Bit`
pub record Bits : Type 0 where
  pub w0 : ℤ
  pub w1 : ℤ
  pub w2 : ℤ
  pub w3 : ℤ

-- What an `int` becomes in a field of 16 bits.
unfoldable pub to_field : ℤ → ℤ
to_field (pos n) = let r = n % 65_536 in if ltb r 32_768 then pos r else negsuc (65_535 - r)
to_field (negsuc n) = let r = n % 65_536 in if ltb r 32_768 then negsuc r else pos (65_535 - r)

-- `Pack`, with the fields of the union before they are written. The fourth component is written to
-- the third field.
unfoldable pub pack : Bits → MIdx → Bits
unfolding to_field
pack u (x ∷ []) = record u { w0 = to_field x }
pack u (x ∷ y ∷ []) = record u { w0 = to_field x; w1 = to_field y }
pack u (x ∷ y ∷ z ∷ []) = record u { w0 = to_field x; w1 = to_field y; w2 = to_field z }
pack u (x ∷ y ∷ z ∷ t ∷ w) = record u { w0 = to_field x; w1 = to_field y; w2 = to_field t }
pack u [] = u

-- `Unpack` in a dimension from 1 to 4.
unfoldable pub unpack : ℕ → Bits → MIdx
unpack (suc zero) u = u.w0 ∷ []
unpack (suc (suc zero)) u = u.w0 ∷ u.w1 ∷ []
unpack (suc (suc (suc zero))) u = u.w0 ∷ u.w1 ∷ u.w2 ∷ []
unpack (suc (suc (suc (suc zero)))) u = u.w0 ∷ u.w1 ∷ u.w2 ∷ u.w3 ∷ []
unpack _ u = []
