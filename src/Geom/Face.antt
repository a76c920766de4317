-- ===== src/Geom/Face.antt =====
-- `GIndex<IdxFace>` of geom/blockface.h: the flat index of a face, given by the multi-index of a
-- cell and a direction. A direction is its number.
pub mod Bijection
use aphros_test.Base.{
  ℕ, zero, suc, ◌+◌, ◌-◌, ◌*◌, ◌%◌, Bool, List, Option, none, some, ltb, if◌then◌else◌, length,
}
use aphros_test.Geom.Index.{Index, word, get_idx, get_midx, size}
use aphros_test.Geom.Vect.{MIdx}

-- `indexc_`; the dimension is the number of its sizes, `ncells_` its size.
abbrev pub dimension : Index → ℕ
dimension ix = length ix.sizes

-- `size()`
unfoldable pub faces_size : Index → ℕ
unfolding size
faces_size ix = (size ix * dimension ix) % word

-- `GetIdx(w, d)`
unfoldable pub get_face : Index → MIdx → ℕ → ℕ
unfolding get_idx size
get_face ix w d = ((d * size ix) % word + get_idx ix w) % word

-- The loop over the directions from `d` on, `left` of them: the first one whose faces end
-- behind `r`.
unfoldable pub find_dir : ℕ → ℕ → ℕ → ℕ → Option ℕ
find_dir zero d n r = none
find_dir (suc left) d n r =
    let rest = find_dir left (d + 1) n r in if ltb r ((n * (d + 1)) % word) then some d else rest

-- `GetDir`; `none` is the value of `return {}`.
unfoldable pub get_dir : Index → ℕ → Option ℕ
unfolding find_dir size
get_dir ix r = find_dir (dimension ix) 0 (size ix) r

-- `GetMIdxDir`
unfoldable pub get_midx_dir : Index → ℕ → Option (MIdx × ℕ)
unfolding get_dir get_midx
get_midx_dir ix r = elim (get_dir ix r) [
  | none ↦ none
  | some d ↦ some (get_midx ix (r - size ix * d), d)
]
