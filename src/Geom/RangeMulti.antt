-- ===== src/Geom/RangeMulti.antt =====
-- `RangeMulti` of geom/rangemulti.h: the flat indices of a subblock within a block. The flat index
-- and the products of the constructor are taken modulo 2^64. Positions and the stored products are
-- `int` there: where an `int` does not hold one that `operator++` reads, or a product of two, C++
-- does not say what happens, and the outcome here is `undefined`.
pub mod Position
use aphros_test.Base.{
  ℕ, zero, suc, ◌+◌, ◌-◌, ◌*◌, ◌^◌, ◌%◌, Bool, ◌&&◌, List, [], ◌∷◌, ltb, leb, if◌then◌else◌, Result,
  ok, err, ◌>>=◌, undefined,
}

-- The position and the flat index of an iterator.
pub record Iterator : Type 0 where
  pub pos : List ℕ
  pub flat : ℕ

-- The loop of the constructor: `flat_ += prod * pos[i]; prod *= lead[i];`
unfoldable pub add_flat : ℕ → List ℕ → List ℕ → ℕ → ℕ
add_flat prod (l ∷ lead) (x ∷ pos) flat =
    add_flat ((prod * l) % 2 ^ 64) lead pos ((flat + prod * x) % 2 ^ 64)
add_flat prod _ _ flat = flat

unfoldable pub new_iterator : List ℕ → ℕ → List ℕ → Iterator
unfolding add_flat
new_iterator pos flat_begin lead = record { pos = pos; flat = add_flat 1 lead pos flat_begin }

-- What an `int` holds.
abbrev pub is_int : ℕ → Bool
is_int n = ltb n (2 ^ 31)

-- What follows the carry into the next component.
unfoldable pub carried : Result Iterator → Result Iterator
carried r = r >>= λ it. ok (record { pos = 0 ∷ it.pos; flat = it.flat })

-- The loop of `operator++` from a component on: `a` is the step there and `prod` the product of the
-- leading sizes before it, from which the constructor has stored `prodone_` and `prod_`.
unfoldable pub carry : ℕ → ℕ → List ℕ → List ℕ → List ℕ → ℕ → Result Iterator
unfolding carried
carry a prod (s ∷ s' ∷ size) (l ∷ lead) (x ∷ pos) flat =
    let y = x + a in
    let next = (prod * l) % 2 ^ 64 in
    let rest = carry 1 next (s' ∷ size) lead pos ((flat + next + (2 ^ 64 - prod * y)) % 2 ^ 64) in
    let ints = is_int prod && (is_int next && is_int (prod * y)) in
    if is_int y
    then (if leb s y
        then (if ints then carried rest else err undefined)
        else ok (record { pos = y ∷ pos; flat = flat }))
    else err undefined
carry a prod (s ∷ []) lead (x ∷ pos) flat =
    if is_int (x + a) then ok (record { pos = (x + a) ∷ pos; flat = flat }) else err undefined
carry a prod _ _ pos flat = ok (record { pos = pos; flat = flat })

-- `operator++`
unfoldable pub increment : ℕ → List ℕ → List ℕ → Iterator → Result Iterator
unfolding carry
increment step size lead it = carry step 1 size lead it.pos ((it.flat + step) % 2 ^ 64)

-- `begin()` and `end()`
unfoldable pub first_position : List ℕ → List ℕ
first_position [] = []
first_position (s ∷ size) = 0 ∷ first_position size

unfoldable pub last_position : List ℕ → List ℕ
last_position [] = []
last_position (s ∷ []) = s ∷ []
last_position (s ∷ s' ∷ size) = 0 ∷ last_position (s' ∷ size)
