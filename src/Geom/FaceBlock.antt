-- ===== src/Geom/FaceBlock.antt =====
-- `GBlock<IdxFace>` of geom/blockface.h: the faces of a block of cells, one direction after the
-- other. The sizes of the block are those of its cells.
use aphros_test.Base.{
  ℕ, zero, suc, ◌+◌, ◌/◌, Bool, true, false, ◌&&◌, List, [], ◌∷◌, ◌==◌, ltb, if◌then◌else◌, length,
  Result, ok, err, out_of_fuel,
}
use aphros_test.Base.Int.{ℤ, pos, ◌+ℤ◌, eqb_ℤ}
use aphros_test.Geom.Block.{midx_eq}
use aphros_test.Geom.Index.{Index}
use aphros_test.Geom.Vect.{MIdx, prod}

-- A face of the cell at a multi-index, in a direction.
pub record Face : Type 0 where
  pub cell : MIdx
  pub dir : ℕ

-- `start_[n] + ncells_[n] + wd[n]`: there is one face more in the direction of the face.
abbrev pub end_component : ℤ → ℕ → Bool → ℤ
end_component b s along = (b +ℤ pos s) +ℤ pos (if along then 1 else 0)

-- The loop of `operator++` from component `n` on, and whether it reaches the end of the last one.
unfoldable pub carry : ℕ → ℕ → MIdx → List ℕ → MIdx → MIdx × Bool
carry n dir (b ∷ b' ∷ bs) (s ∷ ss) (x ∷ w) =
    let rest = carry (n + 1) dir (b' ∷ bs) ss w in
    let y = x +ℤ pos 1 in
    if eqb_ℤ y (end_component b s (n == dir)) then (b ∷ rest.0, rest.1) else (y ∷ w, false)
carry n dir (b ∷ []) (s ∷ ss) (x ∷ w) =
    let y = x +ℤ pos 1 in (y ∷ w, eqb_ℤ y (end_component b s (n == dir)))
carry n dir _ _ w = (w, false)

-- `operator++`: behind the last face of a direction stands the first one of the next.
unfoldable pub increment : Index → Face → Face
unfolding carry
increment ix f =
    let next = carry 0 f.dir ix.begin ix.sizes f.cell in
    if next.1 && ltb (f.dir + 1) (length ix.sizes)
    then record { cell = ix.begin; dir = f.dir + 1 }
    else record { cell = next.0; dir = f.dir }

-- `begin()` and `end()`
abbrev pub first_face : Index → Face
first_face ix = record { cell = ix.begin; dir = 0 }

unfoldable pub last_cell : MIdx → List ℕ → MIdx
last_cell (b ∷ b' ∷ bs) (s ∷ ss) = b ∷ last_cell (b' ∷ bs) ss
last_cell (b ∷ []) (s ∷ ss) = ((b +ℤ pos s) +ℤ pos 1) ∷ []
last_cell bs _ = bs

unfoldable pub end_dir : List ℕ → ℕ
end_dir [] = 0
end_dir (s ∷ []) = 0
end_dir (s ∷ s' ∷ ss) = end_dir (s' ∷ ss) + 1

unfoldable pub end_face : Index → Face
unfolding last_cell end_dir
end_face ix = record { cell = last_cell ix.begin ix.sizes; dir = end_dir ix.sizes }

unfoldable pub face_eq : Face → Face → Bool
unfolding midx_eq
face_eq f g = midx_eq f.cell g.cell && (f.dir == g.dir)

-- `size()`: `count_` has a component for each direction, the cells and one layer more.
unfoldable pub sum_layers : ℕ → List ℕ → ℕ
sum_layers cells [] = 0
sum_layers cells (s ∷ ss) = cells + cells / s + sum_layers cells ss

unfoldable pub size : Index → ℕ
unfolding sum_layers prod
size ix = sum_layers (prod ix.sizes) ix.sizes

-- `for (auto p : block)`
unfoldable pub visit : ℕ → Index → Face → Result (List Face)
unfolding increment face_eq end_face
visit zero ix f = err out_of_fuel
visit (suc fuel) ix f = elim (face_eq f (end_face ix)) [
  | true ↦ ok []
  | false ↦ elim (visit fuel ix (increment ix f)) [ ok fs ↦ ok (f ∷ fs) | err e ↦ err e ]
]
