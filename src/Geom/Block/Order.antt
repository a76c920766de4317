-- ===== src/Geom/Block/Order.antt =====
-- A loop over a block visits the multi-indices in the order of their flat indices.
use native.Mathlib.Nat.{mod-eq_of_lt}
use aphros_test.Base.{
  ℕ, zero, suc, ◌+◌, ◌*◌, ◌/◌, ◌%◌, ◌<◌, ◌≡◌, ◌≢◌, refl, sym, ap, ◌∙◌, Bool, true, false, List, [],
  ◌∷◌, arith, ◌==◌, Bool-cases, inl, inr, if◌then◌else◌, Result, ok, err,
}
use aphros_test.Base.Int.{ℤ, pos, ◌+ℤ◌, eqb_ℤ, +ℤ_parts, eq_of_parts}
use aphros_test.Geom.Block.{increment, end_position, midx_eq, visit, all_indices}
use aphros_test.Geom.Index.{Index, offsets, get_midx, get_end}
use aphros_test.Geom.Vect.{MIdx, add, prod, shift, SameDim}

-- Offsets of a position that may have run past the last row: the last component is not reduced.
open_offsets : List ℕ → ℕ → List ℕ
open_offsets [] a = []
open_offsets (s ∷ []) a = a ∷ []
open_offsets (s ∷ s' ∷ ss) a = a % s ∷ open_offsets (s' ∷ ss) (a / s)

abbrev pub AllPositive : List ℕ → Type 0
AllPositive [] = Unit {0}
AllPositive (s ∷ ss) = (0 < s) × AllPositive ss

-- Adding one to a quotient and remainder.
carry : (a s : ℕ) → 0 < s → a % s + 1 ≡ s → ((a + 1) % s ≡ 0) × ((a + 1) / s ≡ a / s + 1)
carry a s h e = (grind arith, grind arith)

no_carry : (a s : ℕ) → 0 < s → a % s + 1 ≢ s → ((a + 1) % s ≡ a % s + 1) × ((a + 1) / s ≡ a / s)
no_carry a s h e = (grind arith, grind arith)

pub +ℤ_one : (b : ℤ) (o : ℕ) → (b +ℤ pos o) +ℤ pos 1 ≡ b +ℤ pos (o + 1)
+ℤ_one b o =
    eq_of_parts _ _
      (omega (arith, +ℤ_parts (b +ℤ pos o) (pos 1), +ℤ_parts b (pos o), +ℤ_parts b (pos (o + 1))))

pub eqb_offsets : (b : ℤ) (o s : ℕ) → eqb_ℤ (b +ℤ pos o) (b +ℤ pos s) ≡ (o == s)
eqb_offsets b o s = ground (arith, +ℤ_parts b (pos o), +ℤ_parts b (pos s))

pub +ℤ_zero : (b : ℤ) → b +ℤ pos 0 ≡ b
+ℤ_zero b = eq_of_parts _ _ (omega (arith, +ℤ_parts b (pos 0)))

carry_component :
    (x : ℤ) (r s : ℕ) (u v : MIdx)
    → (if eqb_ℤ ((x +ℤ pos r) +ℤ pos 1) (x +ℤ pos s) then x ∷ u else ((x +ℤ pos r) +ℤ pos 1) ∷ v)
      ≡ (if r + 1 == s then (x +ℤ pos 0) ∷ u else (x +ℤ pos (r + 1)) ∷ v)
carry_component x r s u v = rw (+ℤ_one x r, eqb_offsets x (r + 1) s, +ℤ_zero x)

mul_one : (s : ℕ) → s * 1 ≡ s
mul_one s = omega arith

whole_rows : (s p : ℕ) → 0 < s → ((s * p) % s ≡ 0) × ((s * p) / s ≡ p)
whole_rows s p h = (grind arith, grind arith)

row_of : (a s p : ℕ) → a < s * p → a / s < p
row_of a s p h = grind arith

increment-open_offsets :
    (b : MIdx) (ss : List ℕ) (a : ℕ)
    → SameDim b ss
    → AllPositive ss
    → increment b (shift b ss) (shift b (open_offsets ss a)) ≡ shift b (open_offsets ss (a + 1))
unfolding increment open_offsets add
increment-open_offsets [] [] a d h = refl
increment-open_offsets [] (s ∷ ss) a d h = absurd d
increment-open_offsets (x ∷ b) [] a d h = absurd d
increment-open_offsets (x ∷ []) (s ∷ []) a d h = rw (+ℤ_one x a)
increment-open_offsets (x ∷ []) (s ∷ s' ∷ ss) a d h = absurd d
increment-open_offsets (x ∷ y ∷ b) (s ∷ []) a d h = absurd d
increment-open_offsets (x ∷ y ∷ b) (s ∷ s' ∷ ss) a d h =
    carry_component x (a % s) s
      (increment (y ∷ b) (shift (y ∷ b) (s' ∷ ss)) (shift (y ∷ b) (open_offsets (s' ∷ ss) (a / s))))
      (shift (y ∷ b) (open_offsets (s' ∷ ss) (a / s)))
    ∙ elim (Bool-cases (a % s + 1 == s)) [
      | inl e ↦
          let (low, high) = carry a s h.0 (ground arith) in
          rw (e, low, high, increment-open_offsets (y ∷ b) (s' ∷ ss) (a / s) d h.1)
      | inr e ↦ let (low, high) = no_carry a s h.0 (ground arith) in rw (e, low, high)
    ]

open_offsets_zero :
    (b : MIdx) (ss : List ℕ) → SameDim b ss → AllPositive ss → shift b (open_offsets ss 0) ≡ b
unfolding open_offsets add
open_offsets_zero [] [] d h = refl
open_offsets_zero [] (s ∷ ss) d h = absurd d
open_offsets_zero (x ∷ b) [] d h = absurd d
open_offsets_zero (x ∷ []) (s ∷ []) d h = rw (+ℤ_zero x)
open_offsets_zero (x ∷ []) (s ∷ s' ∷ ss) d h = absurd d
open_offsets_zero (x ∷ y ∷ b) (s ∷ []) d h = absurd d
open_offsets_zero (x ∷ y ∷ b) (s ∷ s' ∷ ss) d h =
    let low : 0 % s ≡ 0 = grind arith in
    let high : 0 / s ≡ 0 = grind arith in
    rw (low, high, +ℤ_zero x, open_offsets_zero (y ∷ b) (s' ∷ ss) d h.1)

open_offsets_end :
    (b : MIdx) (ss : List ℕ)
    → SameDim b ss
    → AllPositive ss
    → shift b (open_offsets ss (prod ss)) ≡ end_position b (shift b ss)
unfolding open_offsets add end_position prod
open_offsets_end [] [] d h = refl
open_offsets_end [] (s ∷ ss) d h = absurd d
open_offsets_end (x ∷ b) [] d h = absurd d
open_offsets_end (x ∷ []) (s ∷ []) d h = rw (mul_one s)
open_offsets_end (x ∷ []) (s ∷ s' ∷ ss) d h = absurd d
open_offsets_end (x ∷ y ∷ b) (s ∷ []) d h = absurd d
open_offsets_end (x ∷ y ∷ b) (s ∷ s' ∷ ss) d h =
    let (low, high) = whole_rows s (s' * prod ss) h.0 in
    rw (low, high, +ℤ_zero x, open_offsets_end (y ∷ b) (s' ∷ ss) d h.1)

open_offsets_below : (ss : List ℕ) (a : ℕ) → a < prod ss → open_offsets ss a ≡ offsets ss a
unfolding open_offsets offsets prod
open_offsets_below [] a h = refl
open_offsets_below (s ∷ []) a h =
    let small : a % s ≡ a = mod-eq_of_lt (omega (arith, mul_one s)) in rw small
open_offsets_below (s ∷ s' ∷ ss) a h =
    rw (open_offsets_below (s' ∷ ss) (a / s) (row_of a s (s' * prod ss) h))

not_last : (x : ℤ) (a s : ℕ) → a < s → eqb_ℤ (x +ℤ pos a) (x +ℤ pos s) ≡ false
not_last x a s h = ground (arith, eqb_offsets x a s)

not_at_end :
    (b : MIdx) (s : ℕ) (ss : List ℕ) (a : ℕ)
    → SameDim b (s ∷ ss)
    → a < prod (s ∷ ss)
    → midx_eq (shift b (open_offsets (s ∷ ss) a)) (end_position b (shift b (s ∷ ss))) ≡ false
unfolding open_offsets add end_position prod midx_eq
not_at_end [] s ss a d h = absurd d
not_at_end (x ∷ []) s [] a d h = rw (not_last x a s (omega (arith, mul_one s)))
not_at_end (x ∷ []) s (s' ∷ ss) a d h = absurd d
not_at_end (x ∷ y ∷ b) s [] a d h = absurd d
not_at_end (x ∷ y ∷ b) s (s' ∷ ss) a d h =
    let rest = not_at_end (y ∷ b) s' ss (a / s) d (row_of a s (s' * prod ss) h) in
    rw rest (ground arith)

midx_eq_refl : (w : MIdx) → midx_eq w w ≡ true
unfolding midx_eq
midx_eq_refl [] = refl
midx_eq_refl (x ∷ w) = ground (arith, midx_eq_refl w)

-- The multi-indices of the flat indices from `i` on, `n` of them.
abbrev pub midx_range : Index → ℕ → ℕ → List MIdx
midx_range ix i zero = []
midx_range ix i (suc n) = get_midx ix i ∷ midx_range ix (i + 1) n

pub visit_end :
    (fuel : ℕ) (b e p : MIdx) → midx_eq p (end_position b e) ≡ true → visit (suc fuel) b e p ≡ ok []
unfolding visit
visit_end fuel b e p h =
    ap
      (λ (t : Bool). elim t [
        | true ↦ ok []
        | false ↦ elim (visit fuel b e (increment b e p)) [ ok ws ↦ ok (p ∷ ws) | err x ↦ err x ]
      ])
      h

pub visit_more :
    (fuel : ℕ) (b e p : MIdx) (ws : List MIdx)
    → midx_eq p (end_position b e) ≡ false
    → visit fuel b e (increment b e p) ≡ ok ws
    → visit (suc fuel) b e p ≡ ok (p ∷ ws)
unfolding visit
visit_more fuel b e p ws h k =
    ap
      (λ (t : Bool). elim t [
        | true ↦ ok []
        | false ↦ elim (visit fuel b e (increment b e p)) [ ok ws ↦ ok (p ∷ ws) | err x ↦ err x ]
      ])
      h
    ∙ ap (λ (t : Result (List MIdx)). elim t [ ok ws ↦ ok (p ∷ ws) | err x ↦ err x ]) k

step_from :
    (b : MIdx) (s : ℕ) (ss : List ℕ) (i : ℕ)
    → SameDim b (s ∷ ss)
    → AllPositive (s ∷ ss)
    → i < prod (s ∷ ss)
    → (fuel : ℕ) (ws : List MIdx)
    → visit fuel b (shift b (s ∷ ss)) (shift b (open_offsets (s ∷ ss) (i + 1))) ≡ ok ws
    → visit (suc fuel) b (shift b (s ∷ ss)) (shift b (open_offsets (s ∷ ss) i))
      ≡ ok (shift b (offsets (s ∷ ss) i) ∷ ws)
step_from b s ss i d h lt fuel ws e =
    let next = ap (visit fuel b (shift b (s ∷ ss))) (increment-open_offsets b (s ∷ ss) i d h) in
    visit_more fuel b (shift b (s ∷ ss)) (shift b (open_offsets (s ∷ ss) i)) ws
      (not_at_end b s ss i d lt) (next ∙ e)
    ∙ ap (λ (o : List ℕ). ok (shift b o ∷ ws)) (open_offsets_below (s ∷ ss) i lt)

visit_from :
    (b : MIdx) (s : ℕ) (ss : List ℕ) (n i fuel : ℕ)
    → SameDim b (s ∷ ss)
    → AllPositive (s ∷ ss)
    → i + n ≡ prod (s ∷ ss)
    → n < fuel
    → visit fuel b (shift b (s ∷ ss)) (shift b (open_offsets (s ∷ ss) i))
      ≡ ok (midx_range (record { begin = b; sizes = s ∷ ss }) i n)
unfolding get_midx
visit_from b s ss n i zero d h e f = absurd (omega (arith, f))
visit_from b s ss zero i (suc fuel) d h e f =
    let last : i ≡ prod (s ∷ ss) = omega arith in
    let here =
      ap (λ (k : ℕ). shift b (open_offsets (s ∷ ss) k)) last ∙ open_offsets_end b (s ∷ ss) d h in
    ap (visit (suc fuel) b (shift b (s ∷ ss))) here
    ∙ visit_end fuel b (shift b (s ∷ ss)) (end_position b (shift b (s ∷ ss)))
        (midx_eq_refl (end_position b (shift b (s ∷ ss))))
visit_from b s ss (suc n) i (suc fuel) d h e f =
    step_from b s ss i d h (omega arith) fuel _
      (visit_from b s ss n (i + 1) fuel d h (omega arith) (omega arith))

-- A loop over a block of at least one dimension whose sizes are all positive ends, and visits the
-- multi-indices of the flat indices 0, 1, … below the size, in this order.
pub all_indices-ok :
    (b : MIdx) (s : ℕ) (ss : List ℕ) (fuel : ℕ)
    → SameDim b (s ∷ ss)
    → AllPositive (s ∷ ss)
    → prod (s ∷ ss) < fuel
    → all_indices fuel (record { begin = b; sizes = s ∷ ss })
      ≡ ok (midx_range (record { begin = b; sizes = s ∷ ss }) 0 (prod (s ∷ ss)))
unfolding all_indices get_end
all_indices-ok b s ss fuel d h f =
    ap (visit fuel b (shift b (s ∷ ss))) (sym (open_offsets_zero b (s ∷ ss) d h))
    ∙ visit_from b s ss (prod (s ∷ ss)) 0 fuel d h (omega arith) f
