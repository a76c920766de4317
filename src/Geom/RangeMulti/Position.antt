-- ===== src/Geom/RangeMulti/Position.antt =====
-- The flat index of an iterator is that of its position within the whole block.
use aphros_test.Base.{
  ℕ, ◌+◌, ◌-◌, ◌*◌, ◌^◌, ◌%◌, ◌<◌, ◌≡◌, refl, ap, ◌∙◌, true, inl, inr, Bool-cases, length, List, [],
  ◌∷◌, leb, arith, Result, ok,
}
use aphros_test.Geom.RangeMulti.{Iterator, is_int, carried, carry, increment}

-- The sum of the components, each times the product of the leading sizes before it.
unfoldable pub flat_of : ℕ → List ℕ → List ℕ → ℕ
flat_of prod (l ∷ lead) (x ∷ pos) = prod * x + flat_of (prod * l) lead pos
flat_of prod _ _ = 0

-- As many sizes and leading sizes as components.
abbrev pub SameLength : List ℕ → List ℕ → List ℕ → Type 0
SameLength [] [] [] = Unit {0}
SameLength (s ∷ size) (l ∷ lead) (x ∷ pos) = SameLength size lead pos
SameLength _ _ _ = ⊥

-- With the step `a` in the first component and 1 in the others, `int` holds the components, the
-- products of the leading sizes before a component, and these times the component.
abbrev pub FitsInt : ℕ → ℕ → List ℕ → List ℕ → Type 0
FitsInt a p (l ∷ lead) (x ∷ pos) =
    (p < 2 ^ 31) × (x + a < 2 ^ 31) × (p * (x + a) < 2 ^ 31) × FitsInt 1 (p * l) lead pos
FitsInt a p _ _ = Unit {0}

-- The flat index after a carry.
carried_flat :
    (flat b p x a l v : ℕ)
    → flat ≡ (b + (p * x + v) + p * a) % 2 ^ 64
    → p * (x + a) < 2 ^ 31
    → (flat + p * l + (2 ^ 64 - p * (x + a))) % 2 ^ 64 ≡ (b + v + p * l * 1) % 2 ^ 64
carried_flat flat b p x a l v e h =
    let split : p * (x + a) ≡ p * x + p * a = omega arith in
    let one : p * l * 1 ≡ p * l = omega arith in rw (split, one) (omega (arith, e, split, h))

stayed : (b p x a v : ℕ) → b + (p * x + v) + p * a ≡ b + (p * (x + a) + v)
stayed b p x a v = let split : p * (x + a) ≡ p * x + p * a = omega arith in rw split (omega arith)

reset : (b p v : ℕ) → b + v ≡ b + (p * 0 + v)
reset b p v = omega arith

-- An iterator at the flat index of its position.
abbrev pub StandsAt : ℕ → ℕ → List ℕ → Result Iterator → Type 0
StandsAt b p lead r =
    (it : Iterator) × ((r ≡ ok it) × (it.flat ≡ (b + flat_of p lead it.pos) % 2 ^ 64))

module _ (b p l : ℕ) (lead : List ℕ) where
  carried-StandsAt :
      (r : Result Iterator) → StandsAt b (p * l) lead r → StandsAt b p (l ∷ lead) (carried r)
  unfolding carried flat_of
  carried-StandsAt r (it, (e, q)) = (
    record { pos = 0 ∷ it.pos; flat = it.flat },
    (rw e refl, q ∙ ap (λ (n : ℕ). n % 2 ^ 64) (reset b p (flat_of (p * l) lead it.pos))),
  )

carry-StandsAt :
    (b a p : ℕ) (size lead pos : List ℕ) (flat : ℕ)
    → SameLength size lead pos
    → 0 < length pos
    → FitsInt a p lead pos
    → flat ≡ (b + flat_of p lead pos + p * a) % 2 ^ 64
    → StandsAt b p lead (carry a p size lead pos flat)
unfolding carry flat_of
carry-StandsAt b a p [] [] [] flat d h f e = absurd (omega (arith, h))
carry-StandsAt b a p [] [] (x ∷ pos) flat d h f e = absurd d
carry-StandsAt b a p [] (l ∷ lead) pos flat d h f e = absurd d
carry-StandsAt b a p (s ∷ size) [] pos flat d h f e = absurd d
carry-StandsAt b a p (s ∷ size) (l ∷ lead) [] flat d h f e = absurd d
carry-StandsAt b a p (s ∷ []) (l ∷ lead) (x ∷ pos) flat d h f e =
    let int : is_int (x + a) ≡ true = ground (arith, f.1) in
    (
      record { pos = (x + a) ∷ pos; flat = flat },
      (rw int refl, e ∙ ap (λ (n : ℕ). n % 2 ^ 64) (stayed b p x a (flat_of (p * l) lead pos))),
    )
carry-StandsAt b a p (s ∷ s' ∷ size) (l ∷ []) (x ∷ pos) flat d h f e = absurd d
carry-StandsAt b a p (s ∷ s' ∷ size) (l ∷ l' ∷ lead) (x ∷ []) flat d h f e = absurd d
carry-StandsAt b a p (s ∷ s' ∷ size) (l ∷ l' ∷ lead) (x ∷ x' ∷ pos) flat d h f e =
    let int : is_int (x + a) ≡ true = ground (arith, f.1) in
    let next : (p * l) % 2 ^ 64 ≡ p * l = omega (arith, f.3.0) in
    let one : is_int p ≡ true = ground (arith, f.0) in
    let two : is_int (p * l) ≡ true = ground (arith, f.3.0) in
    let three : is_int (p * (x + a)) ≡ true = ground (arith, f.2) in
    let v = flat_of (p * l) (l' ∷ lead) (x' ∷ pos) in
    let below = carried_flat flat b p x a l v e f.2 in
    let rest =
      carry-StandsAt b 1 (p * l) (s' ∷ size) (l' ∷ lead) (x' ∷ pos)
        ((flat + p * l + (2 ^ 64 - p * (x + a))) % 2 ^ 64) d (omega arith) f.3 below in
    elim (Bool-cases (leb s (x + a))) [
      | inl q ↦ rw (int, q, next, one, two, three) (carried-StandsAt b p l (l' ∷ lead) _ rest)
      | inr q ↦ (
        record { pos = (x + a) ∷ x' ∷ pos; flat = flat },
        (rw (int, q) refl, e ∙ ap (λ (n : ℕ). n % 2 ^ 64) (stayed b p x a v)),
      )
    ]

-- An increment by any step succeeds and keeps an iterator at the flat index of its position, modulo
-- 2^64, in every number of dimensions but zero, if `int` holds the components after a step, the
-- products of the leading sizes before each component, and these times the component.
pub increment-StandsAt :
    (flat_begin step : ℕ) (size lead : List ℕ) (it : Iterator)
    → SameLength size lead it.pos
    → 0 < length it.pos
    → FitsInt step 1 lead it.pos
    → it.flat ≡ (flat_begin + flat_of 1 lead it.pos) % 2 ^ 64
    → StandsAt flat_begin 1 lead (increment step size lead it)
unfolding increment
increment-StandsAt flat_begin step size lead it d h f e =
    carry-StandsAt flat_begin step 1 size lead it.pos ((it.flat + step) % 2 ^ 64) d h f
      (omega (arith, e))
