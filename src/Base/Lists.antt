-- ===== src/Base/Lists.antt =====
-- Lists measured and indexed by native numbers, under the library's names.
use Prim.Native.Nat.{ℕ, zero, suc, ◌+◌}
use mathlib.Core.Path.{◌≡◌}
use mathlib.Core.Bool.{Bool, true}
use mathlib.Core.List.{List, [], ◌∷◌, ◌++◌}
use mathlib.Core.Option.{Option, none, some}
use native.Mathlib.Omega.{arith}

module _ {ℓ} {A : Type ℓ} where
  abbrev pub length : List A → ℕ
  length [] = 0
  length (x ∷ xs) = suc (length xs)

  abbrev pub get_elem? : List A → ℕ → Option A
  get_elem? [] i = none
  get_elem? (x ∷ xs) zero = some x
  get_elem? (x ∷ xs) (suc i) = get_elem? xs i

  abbrev pub set : List A → ℕ → A → List A
  set [] i v = []
  set (x ∷ xs) zero v = v ∷ xs
  set (x ∷ xs) (suc i) v = x ∷ set xs i v

  pub length-append : (xs ys : List A) → length (xs ++ ys) ≡ length xs + length ys
  length-append [] ys = omega arith
  length-append (x ∷ xs) ys = omega (arith, length-append xs ys)

-- Every byte of a string satisfies a test.
abbrev pub AllBytes : (ℕ → Bool) → List ℕ → Type 0
AllBytes p [] = Unit
AllBytes p (x ∷ xs) = (p x ≡ true) × AllBytes p xs

pub AllBytes-append :
    (p : ℕ → Bool) (xs ys : List ℕ) → AllBytes p xs → AllBytes p ys → AllBytes p (xs ++ ys)
AllBytes-append p [] ys h k = k
AllBytes-append p (x ∷ xs) ys h k = (h.0, AllBytes-append p xs ys h.1 k)

pub AllBytes-weaken :
    (p q : ℕ → Bool) (xs : List ℕ)
    → ((x : ℕ) → p x ≡ true → q x ≡ true)
    → AllBytes p xs
    → AllBytes q xs
AllBytes-weaken p q [] w h = tt
AllBytes-weaken p q (x ∷ xs) w h = (w x h.0, AllBytes-weaken p q xs w h.1)
