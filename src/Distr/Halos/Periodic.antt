-- ===== src/Distr/Halos/Periodic.antt =====
-- The cell of the mesh that stands for a cell round it, for `GetPeriodic`.
use native.Mathlib.Nat.{mod-lt}
use aphros_test.Base.{ℕ, ◌+◌, ◌*◌, ◌/◌, ◌%◌, ◌<◌, ◌≡◌, true, List, [], ◌∷◌, arith}
use aphros_test.Base.Int.{ℤ, pos, negsuc, ◌+ℤ◌, ◌≤ℤ◌, +ℤ_parts, eq_of_parts, leb_ℤ, ltb_ℤ}
use aphros_test.Distr.Halos.{rem, get_periodic}
use aphros_test.Geom.Block.Order.{AllPositive}
use aphros_test.Geom.Vect.{MIdx}

-- A cell of the mesh.
abbrev pub InMesh : List ℕ → MIdx → Type 0
InMesh [] [] = Unit {0}
InMesh (g ∷ gs) (x ∷ w) = (leb_ℤ (pos 0) x ≡ true) × (ltb_ℤ x (pos g) ≡ true) × InMesh gs w
InMesh _ _ = ⊥

-- A cell that is at most sixteen meshes away in front.
abbrev pub Above : List ℕ → MIdx → Type 0
Above [] [] = Unit {0}
Above (g ∷ gs) (x ∷ w) = (pos 0 ≤ℤ (x +ℤ pos (g * 16))) × Above gs w
Above _ _ = ⊥

-- Components that are a whole number of meshes apart.
abbrev pub Congruent : List ℕ → MIdx → MIdx → Type 0
Congruent [] [] [] = Unit {0}
Congruent (g ∷ gs) (x ∷ w) (y ∷ u) =
    ((a : ℕ) × (b : ℕ) × (x +ℤ pos (g * a) ≡ y +ℤ pos (g * b))) × Congruent gs w u
Congruent _ _ _ = ⊥

-- The periodic image of a cell: the cell of the mesh that is a whole number of meshes apart in each
-- direction.
abbrev pub IsPeriodicImage : List ℕ → MIdx → MIdx → Type 0
IsPeriodicImage gs w u = InMesh gs u × Congruent gs w u

rem_component :
    (y : ℤ) (g : ℕ)
    → 0 < g
    → pos 0 ≤ℤ y
    → (leb_ℤ (pos 0) (rem y g) ≡ true) × (ltb_ℤ (rem y g) (pos g) ≡ true)
rem_component (pos a) g h k = (ground arith, ground (arith, mod-lt a h))
rem_component (negsuc a) g h k = absurd (omega (arith, k))

rem_apart : (y : ℤ) (g : ℕ) → pos 0 ≤ℤ y → (b : ℕ) × (y ≡ rem y g +ℤ pos (g * b))
rem_apart (pos a) g k =
    let whole : a ≡ a % g + g * (a / g) = omega arith in
    (
      a / g,
      eq_of_parts (pos a) (pos (a % g) +ℤ pos (g * (a / g)))
          (omega (arith, whole, +ℤ_parts (pos (a % g)) (pos (g * (a / g))))),
    )
rem_apart (negsuc a) g k = absurd (omega (arith, k))

pub get_periodic-IsPeriodicImage :
    (gs : List ℕ) (w : MIdx)
    → AllPositive gs
    → Above gs w
    → IsPeriodicImage gs w (get_periodic w gs)
unfolding get_periodic
get_periodic-IsPeriodicImage [] [] p h = (tt, tt)
get_periodic-IsPeriodicImage [] (x ∷ w) p h = absurd h
get_periodic-IsPeriodicImage (g ∷ gs) [] p h = absurd h
get_periodic-IsPeriodicImage (g ∷ gs) (x ∷ w) p h =
    let (low, high) = rem_component (x +ℤ pos (g * 16)) g p.0 h.0 in
    let (b, apart) = rem_apart (x +ℤ pos (g * 16)) g h.0 in
    let (inside, congruent) = get_periodic-IsPeriodicImage gs w p.1 h.1 in
    ((low, high, inside), ((16, b, apart), congruent))
