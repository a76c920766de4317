-- ===== src/Distr/Halos/Grown.antt =====
-- Blocks that hold another block and layers round it.
use aphros_test.Base.{ℕ, zero, suc, ◌+◌, ◌*◌, ◌≡◌, refl, true, List, [], ◌∷◌, length, arith}
use aphros_test.Base.Int.{ℤ, pos, ◌+ℤ◌, ◌≤ℤ◌, ◌<ℤ◌, +ℤ_parts, leb_ℤ, ltb_ℤ, pos_part, neg_part}
use aphros_test.Distr.Halos.{negated, repeat}
use aphros_test.Geom.Vect.{MIdx, add, of_sizes, less, less_equal, SameDim}

-- A block that is larger than another by a number of layers on each side.
abbrev pub Grown : ℕ → MIdx → List ℕ → MIdx → List ℕ → Type 0
Grown h [] [] [] [] = Unit {0}
Grown h (x ∷ b) (s ∷ ss) (y ∷ c) (t ∷ ts) =
    ((y +ℤ pos h) ≤ℤ x) × ((x +ℤ pos (s + h)) ≤ℤ (y +ℤ pos t)) × Grown h b ss c ts
Grown h _ _ _ _ = ⊥

pub negated_parts : (h : ℕ) → (pos_part (negated h) ≡ 0) × (neg_part (negated h) ≡ h)
negated_parts zero = (refl, refl)
negated_parts (suc h) = (refl, refl)

grown_component :
    (x y w d : ℤ) (s t h : ℕ)
    → (y +ℤ pos h) ≤ℤ x
    → (x +ℤ pos (s + h)) ≤ℤ (y +ℤ pos t)
    → leb_ℤ x w ≡ true
    → ltb_ℤ w (x +ℤ pos s) ≡ true
    → leb_ℤ (negated h) d ≡ true
    → ltb_ℤ d (negated h +ℤ pos (2 * h + 1)) ≡ true
    → (leb_ℤ y (w +ℤ d) ≡ true) × (ltb_ℤ (w +ℤ d) (y +ℤ pos t) ≡ true)
grown_component x y w d s t h low high p q u v =
    let a : x ≤ℤ w = ground (arith, p) in
    let b : w <ℤ (x +ℤ pos s) = ground (arith, q) in
    let e : negated h ≤ℤ d = ground (arith, u) in
    let f : d <ℤ (negated h +ℤ pos (2 * h + 1)) = ground (arith, v) in
    let lower : y ≤ℤ (w +ℤ d) =
      omega (arith, low, a, e, negated_parts h, +ℤ_parts w d, +ℤ_parts y (pos h)) in
    let upper : (w +ℤ d) <ℤ (y +ℤ pos t) = omega (
      arith,
      high,
      b,
      f,
      negated_parts h,
      +ℤ_parts w d,
      +ℤ_parts y (pos t),
      +ℤ_parts x (pos s),
      +ℤ_parts x (pos (s + h)),
      +ℤ_parts (negated h) (pos (2 * h + 1)),
    ) in
    (ground (arith, lower), ground (arith, upper))

abbrev pub Between : MIdx → List ℕ → MIdx → Type 0
Between b ss w = (less_equal b w ≡ true) × (less w (add b (of_sizes ss)) ≡ true)

pub Grown-Between :
    (n h : ℕ) (b : MIdx) (ss : List ℕ) (c : MIdx) (ts : List ℕ) (w d : MIdx)
    → n ≡ length ss
    → Grown h b ss c ts
    → SameDim w ss
    → SameDim d (repeat n (2 * h + 1))
    → Between b ss w
    → Between (repeat n (negated h)) (repeat n (2 * h + 1)) d
    → SameDim (add w d) ts × Between c ts (add w d)
unfolding less less_equal add
Grown-Between n h [] [] [] [] [] d e g sw sd p q = (tt, (refl, refl))
Grown-Between zero h (x ∷ b) (s ∷ ss) (y ∷ c) (t ∷ ts) w d e g sw sd p q = absurd (omega (arith, e))
Grown-Between (suc n) h (x ∷ b) (s ∷ ss) (y ∷ c) (t ∷ ts) (v ∷ w) (u ∷ d) e g sw sd p q =
    let (dims, (low, high)) =
      Grown-Between n h b ss c ts w d (omega (arith, e)) g.2 sw sd
        (ground (arith, p.0), ground (arith, p.1)) (ground (arith, q.0), ground (arith, q.1)) in
    let (lower, upper) =
      grown_component x y v u s t h g.0 g.1 (ground (arith, p.0)) (ground (arith, p.1))
        (ground (arith, q.0)) (ground (arith, q.1)) in
    (dims, (ground (arith, low, lower), ground (arith, high, upper)))
Grown-Between _ h _ _ _ _ _ _ e g sw sd p q = ground arith

contained_component :
    (x y w : ℤ) (s t h : ℕ)
    → (y +ℤ pos h) ≤ℤ x
    → (x +ℤ pos (s + h)) ≤ℤ (y +ℤ pos t)
    → leb_ℤ x w ≡ true
    → ltb_ℤ w (x +ℤ pos s) ≡ true
    → (leb_ℤ y w ≡ true) × (ltb_ℤ w (y +ℤ pos t) ≡ true)
contained_component x y w s t h low high p q =
    let a : x ≤ℤ w = ground (arith, p) in
    let b : w <ℤ (x +ℤ pos s) = ground (arith, q) in
    let lower : y ≤ℤ w = omega (arith, low, a, +ℤ_parts y (pos h)) in
    let upper : w <ℤ (y +ℤ pos t) =
      omega (arith, high, b, +ℤ_parts y (pos t), +ℤ_parts x (pos s), +ℤ_parts x (pos (s + h))) in
    (ground (arith, lower), ground (arith, upper))

-- The larger block holds the smaller one.
pub contained :
    (h : ℕ) (b : MIdx) (ss : List ℕ) (c : MIdx) (ts : List ℕ) (w : MIdx)
    → Grown h b ss c ts
    → SameDim w ts
    → Between b ss w
    → Between c ts w
unfolding less less_equal add
contained h [] [] [] [] [] g d p = (refl, refl)
contained h (x ∷ b) (s ∷ ss) (y ∷ c) (t ∷ ts) (v ∷ w) g d p =
    let (low, high) = contained h b ss c ts w g.2 d (ground (arith, p.0), ground (arith, p.1)) in
    let (lower, upper) =
      contained_component x y v s t h g.0 g.1 (ground (arith, p.0)) (ground (arith, p.1)) in
    (ground (arith, low, lower), ground (arith, high, upper))
contained h _ _ _ _ _ g d p = ground arith
