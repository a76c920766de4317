-- ===== src/Geom/Block.antt =====
-- `GBlock` of geom/block.h: a block of multi-indices and its iterator, first component fastest.
pub mod Order
pub mod Empty
pub mod Clip
use aphros_test.Base.{
  ℕ, zero, suc, ◌+◌, Bool, true, false, ◌&&◌, List, [], ◌∷◌, if◌then◌else◌, Result, ok, err,
  out_of_fuel,
}
use aphros_test.Base.Int.{ℤ, pos, ◌+ℤ◌, ◌-ℤ◌, eqb_ℤ, ltb_ℤ}
use aphros_test.Geom.Index.{Index, get_end}
use aphros_test.Geom.Vect.{MIdx}

-- `operator++` of the iterator at `pos`: a component that reaches its end starts again at its
-- begin and carries, but the last one. A component is a `ptrdiff_t` in the source, of which an
-- overflow is undefined; it is an integer without a bound here, so this is `operator++` where no
-- component leaves 64 bits: a component that is not past its end does not, if its end is one.
unfoldable pub increment : MIdx → MIdx → MIdx → MIdx
increment (b ∷ b' ∷ bs) (e ∷ es) (p ∷ ps) =
    let carried = increment (b' ∷ bs) es ps in
    let q = p +ℤ pos 1 in if eqb_ℤ q e then b ∷ carried else q ∷ ps
increment _ _ (p ∷ ps) = (p +ℤ pos 1) ∷ ps
increment _ _ [] = []

-- `operator--`: a component at its begin goes to its last value and borrows.
unfoldable pub decrement : MIdx → MIdx → MIdx → MIdx
decrement (b ∷ bs) (e ∷ es) (p ∷ ps) =
    let borrowed = decrement bs es ps in
    if eqb_ℤ p b then (e -ℤ pos 1) ∷ borrowed else (p -ℤ pos 1) ∷ ps
decrement _ _ ps = ps

-- `end()`: the begin with the last component at its end.
unfoldable pub end_position : MIdx → MIdx → MIdx
end_position (b ∷ b' ∷ bs) (e ∷ es) = b ∷ end_position (b' ∷ bs) es
end_position _ (e ∷ es) = e ∷ []
end_position _ [] = []

-- `operator==` of two multi-indices.
unfoldable pub midx_eq : MIdx → MIdx → Bool
midx_eq (x ∷ a) (y ∷ b) = eqb_ℤ x y && midx_eq a b
midx_eq _ _ = true

-- `for (auto w : block)`: the multi-indices that the loop visits.
unfoldable pub visit : ℕ → MIdx → MIdx → MIdx → Result (List MIdx)
unfolding increment midx_eq end_position
visit zero b e p = err out_of_fuel
visit (suc fuel) b e p = elim (midx_eq p (end_position b e)) [
  | true ↦ ok []
  | false ↦ elim (visit fuel b e (increment b e p)) [ ok ws ↦ ok (p ∷ ws) | err x ↦ err x ]
]

unfoldable pub all_indices : ℕ → Index → Result (List MIdx)
unfolding visit get_end
all_indices fuel ix = visit fuel ix.begin (get_end ix) ix.begin

-- `std::max` and `std::min`.
abbrev pub max : ℤ → ℤ → ℤ
max a b = if ltb_ℤ a b then b else a

abbrev pub min : ℤ → ℤ → ℤ
min a b = if ltb_ℤ b a then b else a

-- `Clip`: the nearest component between the begin and the end.
unfoldable pub clip : MIdx → MIdx → MIdx → MIdx
clip (b ∷ bs) (e ∷ es) (x ∷ w) = max b (min (e -ℤ pos 1) x) ∷ clip bs es w
clip _ _ w = w

-- `GetNumLite` and `LiteInc`: steps along the first component that stay within its row.
unfoldable pub num_lite : MIdx → MIdx → ℤ
num_lite (e ∷ es) (p ∷ ps) = (e -ℤ p) -ℤ pos 1
num_lite _ _ = pos 0

unfoldable pub lite_inc : ℕ → MIdx → MIdx
lite_inc a (p ∷ ps) = (p +ℤ pos a) ∷ ps
lite_inc a [] = []
