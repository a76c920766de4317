-- ===== src/Geom/Block/Clip.antt =====
-- `Clip` gives a multi-index inside, and leaves one inside as it is.
use aphros_test.Base.{ℕ, ◌<◌, ◌≡◌, refl, true, List, [], ◌∷◌, arith}
use aphros_test.Base.Int.{ℤ, pos, ◌+ℤ◌, ◌-ℤ◌, ltb_ℤ, leb_ℤ, +ℤ_parts, -ℤ_parts, eq_of_parts}
use aphros_test.Geom.Block.Order.{AllPositive}
use aphros_test.Geom.Block.{max, min, clip}
use aphros_test.Geom.Index.Bijection.{is_inside_parts}
use aphros_test.Geom.Index.{Index, get_end, is_inside}
use aphros_test.Geom.Vect.{MIdx, add, less, less_equal, of_sizes, SameDim}

clip_component :
    (b x e : ℤ)
    → ltb_ℤ b e ≡ true
    → (leb_ℤ b (max b (min (e -ℤ pos 1) x)) ≡ true) × (ltb_ℤ (max b (min (e -ℤ pos 1) x)) e ≡ true)
clip_component b x e h =
    (ground (arith, h, -ℤ_parts e (pos 1)), ground (arith, h, -ℤ_parts e (pos 1)))

clip_same : (b x e : ℤ) → leb_ℤ b x ≡ true → ltb_ℤ x e ≡ true → max b (min (e -ℤ pos 1) x) ≡ x
clip_same b x e h k = eq_of_parts _ _ (ground (arith, h, k, -ℤ_parts e (pos 1)))

begin_lt_end : (b : ℤ) (s : ℕ) → 0 < s → ltb_ℤ b (b +ℤ pos s) ≡ true
begin_lt_end b s h = ground (arith, h, +ℤ_parts b (pos s))

clip_between :
    (b : MIdx) (ss : List ℕ) (w : MIdx)
    → SameDim b ss
    → SameDim w ss
    → AllPositive ss
    → (less_equal b (clip b (add b (of_sizes ss)) w) ≡ true)
      × (less (clip b (add b (of_sizes ss)) w) (add b (of_sizes ss)) ≡ true)
unfolding clip less_equal less add
clip_between [] [] [] d e h = (refl, refl)
clip_between [] [] (x ∷ w) d e h = absurd e
clip_between [] (s ∷ ss) w d e h = absurd d
clip_between (x ∷ b) [] w d e h = absurd d
clip_between (x ∷ b) (s ∷ ss) [] d e h = absurd e
clip_between (x ∷ b) (s ∷ ss) (y ∷ w) d e h =
    let (low, high) = clip_component x y (x +ℤ pos s) (begin_lt_end x s h.0) in
    let (lows, highs) = clip_between b ss w d e h.1 in (rw (low, lows) refl, rw (high, highs) refl)

-- In a block whose sizes are all positive every multi-index is clipped to one inside.
pub is_inside-clip :
    (ix : Index) (w : MIdx)
    → SameDim ix.begin ix.sizes
    → SameDim w ix.sizes
    → AllPositive ix.sizes
    → is_inside ix (clip ix.begin (get_end ix) w) ≡ true
unfolding is_inside get_end
is_inside-clip ix w d e h =
    let (low, high) = clip_between ix.begin ix.sizes w d e h in rw (low, high) refl

clip_inside : (b e w : MIdx) → less_equal b w ≡ true → less w e ≡ true → clip b e w ≡ w
unfolding clip less_equal less
clip_inside [] e w h k = refl
clip_inside (x ∷ b) [] w h k = refl
clip_inside (x ∷ b) (y ∷ e) [] h k = refl
clip_inside (x ∷ b) (y ∷ e) (z ∷ w) h k =
    rw
      (
        clip_same x z y (ground (arith, h)) (ground (arith, k)),
        clip_inside b e w (ground (arith, h)) (ground (arith, k)),
      )
      refl

-- A multi-index inside is clipped to itself.
pub clip-is_inside :
    (ix : Index) (w : MIdx) → is_inside ix w ≡ true → clip ix.begin (get_end ix) w ≡ w
unfolding get_end
clip-is_inside ix w h =
    let (low, high) = is_inside_parts ix w h in
    clip_inside ix.begin (add ix.begin (of_sizes ix.sizes)) w low high
