-- ===== src/Tests/Grids.antt =====
-- Runs of the indices.
use aphros_test.Base.{
  ℕ, ◌≡◌, ◌<◌, refl, true, List, [], ◌∷◌, arith, Result, ok, err, ◌≤◌, out_of_fuel,
}
use aphros_test.Base.Int.{ℤ, pos, negsuc}
use aphros_test.Geom.Block.Empty.{all_indices_endless}
use aphros_test.Geom.Block.Order.{all_indices-ok, midx_range}
use aphros_test.Geom.Block.{all_indices}
use aphros_test.Geom.Index.Bijection.{IsIndex, midx-idx, idx-midx}
use aphros_test.Geom.Index.{Index, get_idx, get_midx, size, is_inside}
use aphros_test.Geom.Vect.{MIdx, prod}

abbrev grid : Index
grid = record { begin = negsuc 0 ∷ pos 2 ∷ []; sizes = 3 ∷ 2 ∷ [] }

abbrev cell : MIdx
cell = pos 1 ∷ pos 3 ∷ []

grid-IsIndex : IsIndex grid
unfolding prod
grid-IsIndex = record { same_dim = tt; fits = omega arith }

index_of_cell : get_idx grid cell ≡ 5
unfolding get_idx aphros_test.Base.Int.◌-ℤ◌
index_of_cell = refl

midx-idx_example : (get_idx grid cell < size grid) × (get_midx grid (get_idx grid cell) ≡ cell)
unfolding is_inside aphros_test.Base.Int.◌+ℤ◌ prod
midx-idx_example = midx-idx grid cell grid-IsIndex (omega arith) tt refl

idx-midx_example : (is_inside grid (get_midx grid 4) ≡ true) × (get_idx grid (get_midx grid 4) ≡ 4)
unfolding size
idx-midx_example = idx-midx grid 4 grid-IsIndex (omega arith)

all_indices-ok_example : all_indices 7 grid ≡ ok (midx_range grid 0 6)
unfolding prod
all_indices-ok_example =
    all_indices-ok (negsuc 0 ∷ pos 2 ∷ []) 3 (2 ∷ []) 7 tt (omega arith, (omega arith, tt))
      (omega arith)

all_indices_endless_example :
    all_indices 9 (record { begin = pos 0 ∷ pos 0 ∷ []; sizes = 0 ∷ 1 ∷ [] }) ≡ err out_of_fuel
unfolding aphros_test.Base.Int.◌+ℤ◌
all_indices_endless_example = all_indices_endless (pos 0) (pos 0) 0 9 (omega arith)
