-- ===== src/Geom/Index/Flat.antt =====
-- Offsets within the sizes and flat indices below their product, in the words of `size_t`.
use native.Mathlib.Nat.{mod-eq_of_lt, mod-lt}
use aphros_test.Base.{ℕ, ◌+◌, ◌*◌, ◌/◌, ◌%◌, ◌≤◌, ◌<◌, ◌≡◌, refl, List, [], ◌∷◌, arith}
use aphros_test.Geom.Index.{word, to_size, flatten, offsets}
use aphros_test.Geom.Vect.{of_sizes, prod, Within}

-- The index with no bound on the numbers.
pub flat : List ℕ → List ℕ → ℕ
flat (s ∷ ss) (o ∷ os) = flat ss os * s + o
flat _ _ = 0

pub flat-lt-prod : (ss os : List ℕ) → Within ss os → flat ss os < prod ss
unfolding flat prod
flat-lt-prod [] [] h = omega arith
flat-lt-prod [] (o ∷ os) h = absurd h
flat-lt-prod (s ∷ ss) [] h = absurd h
flat-lt-prod (s ∷ ss) (o ∷ os) h = grind (arith, flat-lt-prod ss os h.1, h.0)

pub offsets-flat : (ss os : List ℕ) → Within ss os → offsets ss (flat ss os) ≡ os
unfolding flat offsets
offsets-flat [] [] h = refl
offsets-flat [] (o ∷ os) h = absurd h
offsets-flat (s ∷ ss) [] h = absurd h
offsets-flat (s ∷ ss) (o ∷ os) h =
    let low : (flat ss os * s + o) % s ≡ o = grind (arith, h.0) in
    let high : (flat ss os * s + o) / s ≡ flat ss os = grind (arith, h.0) in
    rw (low, high, offsets-flat ss os h.1)

div-lt : (i s p : ℕ) → i < s * p → i / s < p
div-lt i s p h = grind arith

pos_of_lt : (i s p : ℕ) → i < s * p → 0 < s
pos_of_lt i s p h = grind arith

pub flat-offsets : (ss : List ℕ) (i : ℕ) → i < prod ss → flat ss (offsets ss i) ≡ i
unfolding flat offsets prod
flat-offsets [] i h = omega arith
flat-offsets (s ∷ ss) i h = rw (flat-offsets ss (i / s) (div-lt i s (prod ss) h)) (omega arith)

pub offsets-Within : (ss : List ℕ) (i : ℕ) → i < prod ss → Within ss (offsets ss i)
unfolding offsets prod
offsets-Within [] i h = tt
offsets-Within (s ∷ ss) i h =
    (mod-lt i (pos_of_lt i s (prod ss) h), offsets-Within ss (i / s) (div-lt i s (prod ss) h))

-- A row index below `p` and an offset below `s` stay below the product.
row_bound : (f p o s : ℕ) → f < p → o < s → (f * s + o < s * p) × (p ≤ s * p) × (o < s * p)
row_bound f p o s h k = (grind arith, grind arith, grind arith)

-- Where the product of the sizes fits into a word, nothing wraps around.
pub flatten-flat :
    (ss os : List ℕ) → Within ss os → prod ss ≤ word → flatten ss (of_sizes os) ≡ flat ss os
unfolding flatten flat prod to_size
flatten-flat [] [] h f = refl
flatten-flat [] (o ∷ os) h f = absurd h
flatten-flat (s ∷ ss) [] h f = absurd h
flatten-flat (s ∷ ss) (o ∷ os) h f =
    let bound = row_bound (flat ss os) (prod ss) o s (flat-lt-prod ss os h.1) h.0 in
    let below = flatten-flat ss os h.1 (omega (arith, bound.1)) in
    let small : o % word ≡ o = mod-eq_of_lt (omega (arith, bound.2)) in
    rw (below, small) (mod-eq_of_lt (omega (arith, bound.0)))
