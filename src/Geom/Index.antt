-- ===== src/Geom/Index.antt =====
-- `GIndex` of geom/block.h: the flat index of a multi-index. `size_t` has 64 bits, and the sizes
-- are not negative.
pub mod Flat
pub mod Bijection
use aphros_test.Base.{ℕ, zero, suc, ◌+◌, ◌-◌, ◌*◌, ◌/◌, ◌%◌, ◌^◌, Bool, ◌&&◌, List, [], ◌∷◌}
use aphros_test.Base.Int.{ℤ, pos, negsuc}
use aphros_test.Geom.Vect.{MIdx, add, sub, less, less_equal, of_sizes, prod}

-- The begin and the sizes; the end is their sum.
pub record Index : Type 0 where
  pub begin : MIdx
  pub sizes : List ℕ

abbrev pub word : ℕ
word = 2 ^ 64

-- The conversion of `ptrdiff_t` to `size_t`.
unfoldable pub to_size : ℤ → ℕ
to_size (pos n) = n % word
to_size (negsuc n) = word - 1 - n % word

-- The loop of `GetIdx`, from the last component to the first: `r *= size_[d]; r += w[d];`
unfoldable pub flatten : List ℕ → MIdx → ℕ
unfolding to_size
flatten (s ∷ ss) (x ∷ w) = (flatten ss w * s + to_size x) % word
flatten _ _ = 0

unfoldable pub get_idx : Index → MIdx → ℕ
unfolding flatten sub
get_idx ix w = flatten ix.sizes (sub w ix.begin)

-- The loop of `GetMIdx`: `w[d] = a % size_[d]; a /= size_[d];`
unfoldable pub offsets : List ℕ → ℕ → List ℕ
offsets [] a = []
offsets (s ∷ ss) a = a % s ∷ offsets ss (a / s)

unfoldable pub get_midx : Index → ℕ → MIdx
unfolding offsets add
get_midx ix i = add ix.begin (of_sizes (offsets ix.sizes i))

-- `size()`: `prod()` multiplies in `ptrdiff_t`, and the result is converted to `size_t`. From 2^63
-- on the multiplication overflows, which is undefined; it is left to wrap around here.
unfoldable pub size : Index → ℕ
unfolding prod
size ix = prod ix.sizes % word

unfoldable pub get_end : Index → MIdx
unfolding add
get_end ix = add ix.begin (of_sizes ix.sizes)

unfoldable pub is_inside : Index → MIdx → Bool
unfolding less less_equal get_end
is_inside ix w = less_equal ix.begin w && less w (get_end ix)
