-- ===== src/Geom/Index/Bijection.antt =====
-- `GetIdx` and `GetMIdx` are inverse to one another between the multi-indices inside and the
-- indices below the size.
use native.Mathlib.Nat.{mod-eq_of_lt}
use aphros_test.Base.{
  ◌^◌, ℕ, ◌≤◌, ◌<◌, ◌≡◌, refl, ap, ◌∙◌, ◌⊎◌, inl, inr, true, List, [], ◌∷◌, arith,
}
use aphros_test.Base.Int.{
  ℤ, pos, negsuc, ◌+ℤ◌, ◌-ℤ◌, ◌≤ℤ◌, ◌<ℤ◌, pos_part, neg_part, ltb_ℤ, leb_ℤ, +ℤ_parts, -ℤ_parts,
  eq_of_parts,
}
use aphros_test.Geom.Index.Flat.{
  flat, flat-lt-prod, offsets-flat, flat-offsets, offsets-Within, flatten-flat,
}
use aphros_test.Geom.Index.{Index, word, get_idx, offsets, get_midx, size, is_inside}
use aphros_test.Geom.Vect.{
  MIdx, add, less, less_equal, of_sizes, prod, shift, Within, SameDim, sub-shift,
}

one_sided : (z : ℤ) → (pos_part z ≡ 0) ⊎ (neg_part z ≡ 0)
one_sided (pos n) = inr refl
one_sided (negsuc n) = inl refl

-- A component between the begin and the end is the begin moved by an offset below the size.
offset_of :
    (b x : ℤ) (s : ℕ)
    → leb_ℤ b x ≡ true
    → ltb_ℤ x (b +ℤ pos s) ≡ true
    → (o : ℕ) × (o < s) × (x ≡ b +ℤ pos o)
offset_of b x s h k =
    let le : b ≤ℤ x = ground arith in
    let lt : x <ℤ (b +ℤ pos s) = ground arith in
    (
      pos_part (x -ℤ b),
      omega (arith, one_sided (x -ℤ b), -ℤ_parts x b, +ℤ_parts b (pos s)),
      omega (
        arith,
        one_sided (x -ℤ b),
        -ℤ_parts x b,
        +ℤ_parts b (pos (pos_part (x -ℤ b))),
        eq_of_parts x (b +ℤ pos (pos_part (x -ℤ b))),
      ),
    )

inside_component :
    (b : ℤ) (o s : ℕ)
    → o < s
    → (leb_ℤ b (b +ℤ pos o) ≡ true) × (ltb_ℤ (b +ℤ pos o) (b +ℤ pos s) ≡ true)
inside_component b o s h =
    let le : b ≤ℤ (b +ℤ pos o) = omega (arith, +ℤ_parts b (pos o)) in
    let lt : (b +ℤ pos o) <ℤ (b +ℤ pos s) = omega (arith, +ℤ_parts b (pos o), +ℤ_parts b (pos s)) in
    (ground arith, ground arith)

inside_offsets :
    (b w : MIdx) (ss : List ℕ)
    → SameDim b ss
    → SameDim w ss
    → less_equal b w ≡ true
    → less w (add b (of_sizes ss)) ≡ true
    → (os : List ℕ) × Within ss os × (w ≡ shift b os)
unfolding less_equal less add
inside_offsets [] [] [] d e h k = ([], tt, refl)
inside_offsets [] [] (s ∷ ss) d e h k = absurd d
inside_offsets [] (y ∷ w) [] d e h k = absurd e
inside_offsets [] (y ∷ w) (s ∷ ss) d e h k = absurd d
inside_offsets (x ∷ b) w [] d e h k = absurd d
inside_offsets (x ∷ b) [] (s ∷ ss) d e h k = absurd e
inside_offsets (x ∷ b) (y ∷ w) (s ∷ ss) d e h k =
    let (o, lt, p) = offset_of x y s (ground arith) (ground arith) in
    let (os, within, q) = inside_offsets b w ss d e (ground arith) (ground arith) in
    (o ∷ os, (lt, within), rw (← p, ← q))

offsets_inside :
    (b : MIdx) (ss os : List ℕ)
    → SameDim b ss
    → Within ss os
    → (less_equal b (shift b os) ≡ true) × (less (shift b os) (add b (of_sizes ss)) ≡ true)
unfolding less_equal less add
offsets_inside [] [] [] d h = (refl, refl)
offsets_inside [] [] (o ∷ os) d h = absurd h
offsets_inside [] (s ∷ ss) os d h = absurd d
offsets_inside (x ∷ b) [] os d h = absurd d
offsets_inside (x ∷ b) (s ∷ ss) [] d h = absurd h
offsets_inside (x ∷ b) (s ∷ ss) (o ∷ os) d h =
    ground (arith, inside_component x o s h.0, offsets_inside b ss os d h.1)

-- The index has as many sizes as components of its begin, and the product of the sizes fits into
-- a `size_t`.
pub record IsIndex (ix : Index) : Type 0 where
  pub same_dim : SameDim ix.begin ix.sizes
  pub fits : prod ix.sizes ≤ word

get_idx-shift :
    (ix : Index) (os : List ℕ)
    → IsIndex ix
    → Within ix.sizes os
    → get_idx ix (shift ix.begin os) ≡ flat ix.sizes os
unfolding get_idx
get_idx-shift ix os v h =
    rw (sub-shift ix.begin ix.sizes os v.same_dim h) (flatten-flat ix.sizes os h v.fits)

midx-shift :
    (ix : Index) (os : List ℕ)
    → IsIndex ix
    → Within ix.sizes os
    → (get_idx ix (shift ix.begin os) < prod ix.sizes)
      × (get_midx ix (get_idx ix (shift ix.begin os)) ≡ shift ix.begin os)
unfolding get_midx
midx-shift ix os v h =
    rw (get_idx-shift ix os v h)
      (flat-lt-prod ix.sizes os h, ap (shift ix.begin) (offsets-flat ix.sizes os h))

pub is_inside_parts :
    (ix : Index) (w : MIdx)
    → is_inside ix w ≡ true
    → (less_equal ix.begin w ≡ true) × (less w (add ix.begin (of_sizes ix.sizes)) ≡ true)
unfolding is_inside
is_inside_parts ix w h = ground arith

pub midx-idx_prod :
    (ix : Index) (w : MIdx)
    → IsIndex ix
    → SameDim w ix.sizes
    → is_inside ix w ≡ true
    → (get_idx ix w < prod ix.sizes) × (get_midx ix (get_idx ix w) ≡ w)
midx-idx_prod ix w v d h =
    let (le, lt) = is_inside_parts ix w h in
    let (os, within, p) = inside_offsets ix.begin w ix.sizes v.same_dim d le lt in
    rw p (midx-shift ix os v within)

-- Below 2^64 the size does not wrap around.
pub size-prod : (ix : Index) → prod ix.sizes < word → size ix ≡ prod ix.sizes
unfolding size
size-prod ix h = mod-eq_of_lt h

-- A multi-index inside has an index below the size, and is given back from it, if the product of the
-- sizes is below 2^63.
pub midx-idx :
    (ix : Index) (w : MIdx)
    → IsIndex ix
    → prod ix.sizes < 2 ^ 63
    → SameDim w ix.sizes
    → is_inside ix w ≡ true
    → (get_idx ix w < size ix) × (get_midx ix (get_idx ix w) ≡ w)
midx-idx ix w v small d h =
    let (below, back) = midx-idx_prod ix w v d h in
    (rw (size-prod ix (omega (arith, small))) below, back)

is_inside-shift :
    (ix : Index) (os : List ℕ)
    → IsIndex ix
    → Within ix.sizes os
    → is_inside ix (shift ix.begin os) ≡ true
unfolding is_inside
is_inside-shift ix os v h = ground (arith, offsets_inside ix.begin ix.sizes os v.same_dim h)

-- An index below the product of the sizes has a multi-index inside, and is given back from it, if
-- the product is at most 2^64.
pub idx-midx :
    (ix : Index) (i : ℕ)
    → IsIndex ix
    → i < prod ix.sizes
    → (is_inside ix (get_midx ix i) ≡ true) × (get_idx ix (get_midx ix i) ≡ i)
unfolding get_midx
idx-midx ix i v h =
    let within = offsets-Within ix.sizes i h in
    (
      is_inside-shift ix (offsets ix.sizes i) v within,
      get_idx-shift ix (offsets ix.sizes i) v within ∙ flat-offsets ix.sizes i h,
    )
