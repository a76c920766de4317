-- ===== src/Geom/Vect.antt =====
-- geom/vect.h on integers: `generic::MIdx<dim>` as the list of its `dim` components.
use aphros_test.Base.{ℕ, ◌*◌, ◌<◌, ◌≡◌, refl, Bool, true, ◌&&◌, List, [], ◌∷◌}
use aphros_test.Base.Int.{ℤ, pos, ◌+ℤ◌, ◌-ℤ◌, ltb_ℤ, leb_ℤ, -ℤ_cancel}

abbrev pub MIdx : Type 0
MIdx = List ℤ

-- `operator+`
unfoldable pub add : MIdx → MIdx → MIdx
add (x ∷ a) (y ∷ b) = (x +ℤ y) ∷ add a b
add _ _ = []

-- `operator-`
unfoldable pub sub : MIdx → MIdx → MIdx
sub (x ∷ a) (y ∷ b) = (x -ℤ y) ∷ sub a b
sub _ _ = []

-- `operator<`: every component is less.
unfoldable pub less : MIdx → MIdx → Bool
less (x ∷ a) (y ∷ b) = ltb_ℤ x y && less a b
less _ _ = true

-- `operator<=`
unfoldable pub less_equal : MIdx → MIdx → Bool
less_equal (x ∷ a) (y ∷ b) = leb_ℤ x y && less_equal a b
less_equal _ _ = true

-- Components that are not negative, such as sizes and offsets.
abbrev pub of_sizes : List ℕ → MIdx
of_sizes [] = []
of_sizes (s ∷ ss) = pos s ∷ of_sizes ss

-- `prod()` of sizes.
unfoldable pub prod : List ℕ → ℕ
prod [] = 1
prod (s ∷ ss) = s * prod ss

-- `b` moved by offsets.
abbrev pub shift : MIdx → List ℕ → MIdx
shift b o = add b (of_sizes o)

-- As many offsets as sizes, each below its size.
abbrev pub Within : List ℕ → List ℕ → Type 0
Within [] [] = Unit {0}
Within (s ∷ ss) (o ∷ os) = (o < s) × Within ss os
Within _ _ = ⊥

abbrev pub SameDim : MIdx → List ℕ → Type 0
SameDim [] [] = Unit {0}
SameDim (x ∷ b) (s ∷ ss) = SameDim b ss
SameDim _ _ = ⊥

pub sub-shift :
    (b : MIdx) (ss os : List ℕ) → SameDim b ss → Within ss os → sub (shift b os) b ≡ of_sizes os
unfolding sub add
sub-shift [] [] [] d h = refl
sub-shift [] [] (o ∷ os) d h = absurd h
sub-shift [] (s ∷ ss) os d h = absurd d
sub-shift (x ∷ b) [] os d h = absurd d
sub-shift (x ∷ b) (s ∷ ss) [] d h = absurd h
sub-shift (x ∷ b) (s ∷ ss) (o ∷ os) d h = rw (-ℤ_cancel x o, sub-shift b ss os d h.1)
