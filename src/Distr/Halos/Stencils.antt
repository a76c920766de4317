-- ===== src/Distr/Halos/Stencils.antt =====
-- Which cells `GetRecvCells` takes, in words of their components.
use aphros_test.Base.{
  ℕ, zero, suc, ◌+◌, ◌*◌, ◌≡◌, ◌≢◌, ◌⊎◌, ◌↔◌, refl, Bool, true, false, ◌&&◌, ◌||◌, inl, inr, List,
  [], ◌∷◌, ◌==◌, arith,
}
use aphros_test.Base.Int.{ℤ, pos, negsuc, ◌+ℤ◌, ◌≤ℤ◌, ◌<ℤ◌, +ℤ_parts, eqb_ℤ, leb_ℤ, ltb_ℤ}
use aphros_test.Distr.Halos.Grown.{Between, negated_parts}
use aphros_test.Distr.Halos.{is_valid, nnz, negated, repeat}
use aphros_test.Geom.Vect.{MIdx, add, less, less_equal, SameDim}

-- Each component is periodic or within the mesh.
abbrev pub IsInRange : MIdx → List ℕ → List Bool → Type 0
IsInRange (x ∷ w) (g ∷ gs) (p ∷ ps) =
    ((p ≡ true) ⊎ ((pos 0 ≤ℤ x) × (x <ℤ pos g))) × IsInRange w gs ps
IsInRange _ _ _ = Unit {0}

range_component :
    (x : ℤ) (g : ℕ) (p rest : Bool)
    → ((p || (leb_ℤ (pos 0) x && ltb_ℤ x (pos g))) && rest) ≡ true
    → ((p ≡ true) ⊎ ((pos 0 ≤ℤ x) × (x <ℤ pos g))) × (rest ≡ true)
range_component x g true rest h = (inl refl, h)
range_component x g false true h = (inr (ground (arith, h), ground (arith, h)), refl)
range_component x g false false h = absurd (ground (arith, h))

component_range :
    (x : ℤ) (g : ℕ) (p rest : Bool)
    → (p ≡ true) ⊎ ((pos 0 ≤ℤ x) × (x <ℤ pos g))
    → rest ≡ true
    → ((p || (leb_ℤ (pos 0) x && ltb_ℤ x (pos g))) && rest) ≡ true
component_range x g true rest h k = k
component_range x g false rest (inl h) k = absurd (cc)
component_range x g false rest (inr h) k = ground (arith, h.0, h.1, k)

pub is_valid-IsInRange :
    (w : MIdx) (gs : List ℕ) (ps : List Bool) → (is_valid w gs ps ≡ true) ↔ IsInRange w gs ps
unfolding is_valid
is_valid-IsInRange [] gs ps = (λ h. tt, λ h. refl)
is_valid-IsInRange (x ∷ w) [] ps = (λ h. tt, λ h. refl)
is_valid-IsInRange (x ∷ w) (g ∷ gs) [] = (λ h. tt, λ h. refl)
is_valid-IsInRange (x ∷ w) (g ∷ gs) (p ∷ ps) =
    let rest = is_valid-IsInRange w gs ps in
    (
      λ h. let (here, more) = range_component x g p (is_valid w gs ps) h in (here, rest.0 more),
      λ h. component_range x g p (is_valid w gs ps) h.0 (rest.1 h.1),
    )

abbrev AllZero : MIdx → Type 0
AllZero [] = Unit {0}
AllZero (x ∷ d) = (x ≡ pos 0) × AllZero d

-- An offset in exactly one direction.
abbrev pub OneAxis : MIdx → Type 0
OneAxis [] = ⊥
OneAxis (x ∷ d) = ((x ≢ pos 0) × AllZero d) ⊎ ((x ≡ pos 0) × OneAxis d)

data IsZeroOr (x : ℤ) : Type 0 where
  is_zero : eqb_ℤ x (pos 0) ≡ true → x ≡ pos 0 → IsZeroOr x
  is_other : eqb_ℤ x (pos 0) ≡ false → x ≢ pos 0 → IsZeroOr x

zero_or : (x : ℤ) → IsZeroOr x
zero_or (pos zero) = is_zero refl refl
zero_or (pos (suc n)) = is_other (ground arith) (λ h. ground (arith, h))
zero_or (negsuc n) = is_other (ground arith) (λ h. ground (arith, h))

nnz_zero : (x : ℤ) (d : MIdx) → eqb_ℤ x (pos 0) ≡ true → nnz (x ∷ d) ≡ nnz d
unfolding nnz
nnz_zero x d h = rw h (omega arith)

nnz_other : (x : ℤ) (d : MIdx) → eqb_ℤ x (pos 0) ≡ false → nnz (x ∷ d) ≡ suc (nnz d)
unfolding nnz
nnz_other x d h = rw h (omega arith)

nnz-AllZero : (d : MIdx) → (nnz d ≡ 0) ↔ AllZero d
unfolding nnz
nnz-AllZero [] = (λ h. tt, λ h. refl)
nnz-AllZero (x ∷ d) = elim (zero_or x) [
  | is_zero e z ↦ (
    λ h. (z, (nnz-AllZero d).0 (omega (arith, nnz_zero x d e, h))),
    λ h. omega (arith, nnz_zero x d e, (nnz-AllZero d).1 h.1),
  )
  | is_other e z ↦ (λ h. absurd (omega (arith, nnz_other x d e, h)), λ h. absurd (z h.0))
]

nnz-OneAxis : (d : MIdx) → (nnz d ≡ 1) ↔ OneAxis d
unfolding nnz
nnz-OneAxis [] = (λ h. absurd (omega (arith, h)), λ h. absurd h)
nnz-OneAxis (x ∷ d) = elim (zero_or x) [
  | is_zero e z ↦ (
    λ h. inr (z, (nnz-OneAxis d).0 (omega (arith, nnz_zero x d e, h))),
    λ h. elim h [
      | inl k ↦ absurd (k.0 z)
      | inr k ↦ omega (arith, nnz_zero x d e, (nnz-OneAxis d).1 k.1)
    ],
  )
  | is_other e z ↦ (
    λ h. inl (z, (nnz-AllZero d).0 (omega (arith, nnz_other x d e, h))),
    λ h. elim h [
      | inl k ↦ omega (arith, nnz_other x d e, (nnz-AllZero d).1 k.1)
      | inr k ↦ absurd (z k.0)
    ],
  )
]

abbrev pub InStencil : Bool → MIdx → Type 0
InStencil full d = (full ≡ true) ⊎ OneAxis d

pub nnz-InStencil : (full : Bool) (d : MIdx) → ((full || (nnz d == 1)) ≡ true) ↔ InStencil full d
nnz-InStencil true d = (λ h. inl refl, λ h. refl)
nnz-InStencil false d = (
  λ h. inr ((nnz-OneAxis d).0 (ground (arith, h))),
  λ h. elim h [ inl k ↦ absurd (cc) | inr k ↦ ground (arith, (nnz-OneAxis d).1 k) ],
)

-- As many components as dimensions, each between -h and h.
abbrev pub InLayers : ℕ → ℕ → MIdx → Type 0
InLayers zero h [] = Unit {0}
InLayers (suc n) h (x ∷ d) = (pos 0 ≤ℤ (x +ℤ pos h)) × (x ≤ℤ pos h) × InLayers n h d
InLayers _ h _ = ⊥

layer_parts :
    (x : ℤ) (h : ℕ)
    → leb_ℤ (negated h) x ≡ true
    → ltb_ℤ x (negated h +ℤ pos (2 * h + 1)) ≡ true
    → (pos 0 ≤ℤ (x +ℤ pos h)) × (x ≤ℤ pos h)
layer_parts x h p q =
    let low : negated h ≤ℤ x = ground (arith, p) in
    let high : x <ℤ (negated h +ℤ pos (2 * h + 1)) = ground (arith, q) in
    (
      omega (arith, low, negated_parts h, +ℤ_parts x (pos h)),
      omega (arith, high, negated_parts h, +ℤ_parts (negated h) (pos (2 * h + 1))),
    )

parts_layer :
    (x : ℤ) (h : ℕ)
    → pos 0 ≤ℤ (x +ℤ pos h)
    → x ≤ℤ pos h
    → (leb_ℤ (negated h) x ≡ true) × (ltb_ℤ x (negated h +ℤ pos (2 * h + 1)) ≡ true)
parts_layer x h p q =
    let low : negated h ≤ℤ x = omega (arith, p, negated_parts h, +ℤ_parts x (pos h)) in
    let high : x <ℤ (negated h +ℤ pos (2 * h + 1)) =
      omega (arith, q, negated_parts h, +ℤ_parts (negated h) (pos (2 * h + 1))) in
    (ground (arith, low), ground (arith, high))

-- The block of the offsets holds those within the layers.
pub Between-InLayers :
    (n h : ℕ) (d : MIdx)
    → SameDim d (repeat n (2 * h + 1))
    → Between (repeat n (negated h)) (repeat n (2 * h + 1)) d
    → InLayers n h d
unfolding less less_equal add
Between-InLayers zero h [] s b = tt
Between-InLayers zero h (x ∷ d) s b = absurd s
Between-InLayers (suc n) h [] s b = absurd s
Between-InLayers (suc n) h (x ∷ d) s b =
    let (low, high) = layer_parts x h (ground (arith, b.0)) (ground (arith, b.1)) in
    (low, high, Between-InLayers n h d s (ground (arith, b.0), ground (arith, b.1)))

pub InLayers-Between :
    (n h : ℕ) (d : MIdx)
    → InLayers n h d
    → SameDim d (repeat n (2 * h + 1)) × Between (repeat n (negated h)) (repeat n (2 * h + 1)) d
unfolding less less_equal add
InLayers-Between zero h [] l = (tt, (refl, refl))
InLayers-Between zero h (x ∷ d) l = absurd l
InLayers-Between (suc n) h [] l = absurd l
InLayers-Between (suc n) h (x ∷ d) l =
    let (low, high) = parts_layer x h l.0 l.1 in
    let (same, (lows, highs)) = InLayers-Between n h d l.2 in
    (same, (ground (arith, low, lows), ground (arith, high, highs)))
