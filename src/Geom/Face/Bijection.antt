-- ===== src/Geom/Face/Bijection.antt =====
-- Faces and their indices below the size correspond to one another.
use native.Mathlib.Nat.{mod-eq_of_lt}
use aphros_test.Base.{
  zero, suc, ℕ, zero, suc, ◌+◌, ◌-◌, ◌*◌, ◌/◌, ◌%◌, ◌<◌, ◌≤◌, ◌≡◌, ap, ◌∙◌, true, Option, none,
  some, ltb, ◌==◌, inl, inr, Bool-cases, arith,
}
use aphros_test.Geom.Face.{dimension, faces_size, get_face, find_dir, get_dir, get_midx_dir}
use aphros_test.Geom.Index.Bijection.{IsIndex, midx-idx_prod, idx-midx, size-prod}
use aphros_test.Geom.Index.{Index, word, get_idx, get_midx, size, is_inside}
use aphros_test.Geom.Vect.{MIdx, SameDim, prod}

mul_mono : (n a b : ℕ) → a ≤ b → n * a ≤ n * b
mul_mono n a b h = grind arith

test_dir :
    (d e n r : ℕ)
    → n * e ≤ r
    → r < n * (e + 1)
    → n * (d + 1) < word
    → d ≤ e
    → ltb r ((n * (d + 1)) % word) ≡ (d == e)
test_dir d e n r lo hi fit le =
    let bound : (n * (d + 1)) % word ≡ n * (d + 1) = mod-eq_of_lt fit in
    rw bound (elim (Bool-cases (d == e)) [
      | inl q ↦
          let same : d ≡ e = ground (arith, q) in
          let below = ap (λ (x : ℕ). n * (x + 1)) same in ground (arith, q, below, hi)
      | inr q ↦
          let above : d + 1 ≤ e = ground (arith, q, le) in
          ground (arith, q, mul_mono n (d + 1) e above, lo)
    ])

-- The loop stops at the direction `e` whose range holds the index.
find_dir_found :
    (left d e n r : ℕ)
    → d ≤ e
    → e < d + left
    → n * e ≤ r
    → r < n * (e + 1)
    → n * (d + left) < word
    → find_dir left d n r ≡ some e
unfolding find_dir
find_dir_found zero d e n r le h lo hi fit = absurd (omega (arith, h, le))
find_dir_found (suc left) d e n r le h lo hi fit =
    let mono = mul_mono n (d + 1) (d + suc left) (omega arith) in
    let test = test_dir d e n r lo hi (omega (arith, mono, fit)) le in
    let assoc : d + 1 + left ≡ d + suc left = omega arith in
    let fit' : n * (d + 1 + left) < word = rw assoc fit in
    elim (Bool-cases (d == e)) [
      | inl q ↦ ground (arith, q, test)
      | inr q ↦
          let above : d + 1 ≤ e = ground (arith, q, le) in
          ground (arith, q, test, find_dir_found left (d + 1) e n r above (omega arith) lo hi fit')
    ]

zero_dim : (n p : ℕ) → n * (0 + p) ≡ n * p
zero_dim n p = ap (λ (x : ℕ). n * x) (omega arith)

get_midx_dir-found :
    (ix : Index) (r d : ℕ)
    → find_dir (dimension ix) 0 (size ix) r ≡ some d
    → get_midx_dir ix r ≡ some (get_midx ix (r - size ix * d), d)
unfolding get_midx_dir get_dir
get_midx_dir-found ix r d h =
    ap (λ (x : Option ℕ). elim x [ none ↦ none | some e ↦ some (get_midx ix (r - size ix * e), e) ])
      h

get_face_sum :
    (ix : Index) (w : MIdx) (d : ℕ)
    → d < dimension ix
    → size ix * dimension ix < word
    → get_idx ix w < size ix
    → (get_face ix w d ≡ size ix * d + get_idx ix w)
      × (size ix * d + get_idx ix w < size ix * (d + 1))
      × (size ix * (d + 1) ≤ size ix * dimension ix)
unfolding get_face
get_face_sum ix w d h fit below =
    let mono = mul_mono (size ix) (d + 1) (dimension ix) (omega (arith, h)) in
    let step : size ix * (d + 1) ≡ size ix * d + size ix = omega arith in
    let turn : d * size ix ≡ size ix * d = omega arith in
    let inner : (d * size ix) % word ≡ size ix * d = rw turn (mod-eq_of_lt (omega arith)) in
    let outer : (size ix * d + get_idx ix w) % word ≡ size ix * d + get_idx ix w =
      mod-eq_of_lt (omega arith) in
    (rw (inner, outer), omega arith, mono)

-- A face of a multi-index inside, in a direction below the dimension, has an index below the size
-- of the faces, and is given back from it, if that size is below 2^64.
pub midx_dir-face :
    (ix : Index) (w : MIdx) (d : ℕ)
    → IsIndex ix
    → prod ix.sizes * dimension ix < word
    → SameDim w ix.sizes
    → is_inside ix w ≡ true
    → d < dimension ix
    → (get_face ix w d < faces_size ix) × (get_midx_dir ix (get_face ix w d) ≡ some (w, d))
unfolding faces_size
midx_dir-face ix w d v fits same inside h =
    let one = mul_mono (prod ix.sizes) 1 (dimension ix) (omega (arith, h)) in
    let whole : size ix ≡ prod ix.sizes = size-prod ix (omega (arith, one, fits)) in
    let fit : size ix * dimension ix < word = rw whole fits in
    let (below', back) = midx-idx_prod ix w v same inside in
    let below : get_idx ix w < size ix = rw whole below' in
    let (face, hi, mono) = get_face_sum ix w d h fit below in
    let total : (size ix * dimension ix) % word ≡ size ix * dimension ix = mod-eq_of_lt fit in
    let lo : size ix * d ≤ size ix * d + get_idx ix w = omega arith in
    let found =
      find_dir_found (dimension ix) 0 d (size ix) (size ix * d + get_idx ix w) (omega arith)
        (omega (arith, h)) lo hi (omega (arith, fit, zero_dim (size ix) (dimension ix))) in
    let rest : size ix * d + get_idx ix w - size ix * d ≡ get_idx ix w = omega arith in
    let taken = get_midx_dir-found ix (size ix * d + get_idx ix w) d found in
    let again : get_midx ix (size ix * d + get_idx ix w - size ix * d) ≡ w =
      ap (get_midx ix) rest ∙ back in
    rw (face, total) (omega (arith, hi, mono), taken ∙ ap (λ (x : MIdx). some (x, d)) again)

positive_dim : (n p r : ℕ) → r < (n * p) % word → 0 < p
positive_dim n zero r h = absurd (omega (arith, h))
positive_dim n (suc p) r h = omega arith

split_face : (n p r : ℕ) → r < n * p → (n * (r / n) ≤ r) × (r < n * (r / n + 1)) × (r / n < p)
split_face n p r h = (grind arith, grind arith, grind arith)

-- An index below the size of the faces has a multi-index inside with a direction below the
-- dimension, and is given back from them, if the size is below 2^64.
pub face-midx_dir :
    (ix : Index) (r : ℕ)
    → IsIndex ix
    → prod ix.sizes * dimension ix < word
    → r < faces_size ix
    → (w : MIdx) × (d : ℕ) × (get_midx_dir ix r ≡ some (w, d))
      × (d < dimension ix)
      × (is_inside ix w ≡ true)
      × (get_face ix w d ≡ r)
unfolding faces_size
face-midx_dir ix r v fits h =
    let one =
      mul_mono (prod ix.sizes) 1 (dimension ix) (positive_dim (size ix) (dimension ix) r h) in
    let whole : size ix ≡ prod ix.sizes = size-prod ix (omega (arith, one, fits)) in
    let fit : size ix * dimension ix < word = rw whole fits in
    let total : (size ix * dimension ix) % word ≡ size ix * dimension ix = mod-eq_of_lt fit in
    let below : r < size ix * dimension ix = ground (arith, h, total) in
    let (lo, hi, dir) = split_face (size ix) (dimension ix) r below in
    let d = r / size ix in
    let step : size ix * (d + 1) ≡ size ix * d + size ix = omega arith in
    let (inside, back) = idx-midx ix (r - size ix * d) v (omega (arith, whole)) in
    let found =
      find_dir_found (dimension ix) 0 d (size ix) r (omega arith) (omega (arith, dir)) lo hi
        (omega (arith, fit, zero_dim (size ix) (dimension ix))) in
    let w = get_midx ix (r - size ix * d) in
    let idx_below : get_idx ix w < size ix = rw back (omega arith) in
    let (face, hi', mono) = get_face_sum ix w d dir fit idx_below in
    (w, d, get_midx_dir-found ix r d found, dir, inside, face ∙ rw back (omega arith))
