-- ===== src/Geom/Block/Empty.antt =====
-- A loop over a block whose first size is zero and second size is not.
use aphros_test.Base.{
  ℕ, zero, suc, ◌+◌, ◌^◌, ◌≡◌, ◌==◌, refl, ap, ◌∙◌, Bool, true, false, List, [], ◌∷◌, arith, Result,
  ok, err, out_of_fuel,
}
use aphros_test.Base.Int.{ℤ, pos, ◌+ℤ◌, ◌<ℤ◌}
use aphros_test.Geom.Block.Order.{eqb_offsets, +ℤ_one, +ℤ_zero}
use aphros_test.Geom.Block.{increment, end_position, midx_eq, visit, all_indices}
use aphros_test.Geom.Index.{get_end}
use aphros_test.Geom.Vect.{MIdx, add}

visit_lost :
    (fuel : ℕ) (b e p : MIdx)
    → midx_eq p (end_position b e) ≡ false
    → visit fuel b e (increment b e p) ≡ err out_of_fuel
    → visit (suc fuel) b e p ≡ err out_of_fuel
unfolding visit
visit_lost fuel b e p h k =
    ap
      (λ (t : Bool). elim t [
        | true ↦ ok []
        | false ↦ elim (visit fuel b e (increment b e p)) [ ok ws ↦ ok (p ∷ ws) | err x ↦ err x ]
      ])
      h
    ∙ ap (λ (t : Result (List MIdx)). elim t [ ok ws ↦ ok (p ∷ ws) | err x ↦ err x ]) k

visit_zero : (b e p : MIdx) → visit 0 b e p ≡ err out_of_fuel
unfolding visit
visit_zero b e p = refl

-- The block of the sizes 0 and `n + 1`, and a position `k` behind the begin of the first row.
abbrev pub empty_end : ℤ → ℤ → ℕ → MIdx
empty_end x y n = (x +ℤ pos 0) ∷ (y +ℤ pos (n + 1)) ∷ []

abbrev pub past : ℤ → ℤ → ℕ → MIdx
past x y k = (x +ℤ pos k) ∷ (y +ℤ pos 0) ∷ []

past-not_end :
    (x y : ℤ) (n k : ℕ) → midx_eq (past x y k) (end_position (x ∷ y ∷ []) (empty_end x y n)) ≡ false
unfolding midx_eq end_position
past-not_end x y n k = ground (arith, eqb_offsets y 0 (n + 1))

increment-past :
    (x y : ℤ) (n k : ℕ) → increment (x ∷ y ∷ []) (empty_end x y n) (past x y k) ≡ past x y (k + 1)
unfolding increment
increment-past x y n k =
    let gone : (k + 1 == 0) ≡ false = ground arith in rw (+ℤ_one x k, eqb_offsets x (k + 1) 0, gone)

visit-past :
    (x y : ℤ) (n k fuel : ℕ)
    → visit fuel (x ∷ y ∷ []) (empty_end x y n) (past x y k) ≡ err out_of_fuel
visit-past x y n k zero = visit_zero (x ∷ y ∷ []) (empty_end x y n) (past x y k)
visit-past x y n k (suc fuel) =
    visit_lost fuel (x ∷ y ∷ []) (empty_end x y n) (past x y k) (past-not_end x y n k) (
      ap (visit fuel (x ∷ y ∷ []) (empty_end x y n)) (increment-past x y n k)
      ∙ visit-past x y n (k + 1) fuel)

-- A loop over a block of two dimensions of which the first size is zero and the second is not
-- visits position after position along the first dimension, although the block has no multi-index:
-- it has not ended after any number of steps that keeps this component below 2^63. There it
-- overflows.
pub all_indices_endless :
    (x y : ℤ) (n fuel : ℕ)
    → (x +ℤ pos fuel) <ℤ pos (2 ^ 63)
    → all_indices fuel (record { begin = x ∷ y ∷ []; sizes = 0 ∷ (n + 1) ∷ [] }) ≡ err out_of_fuel
unfolding all_indices get_end add
all_indices_endless x y n fuel bound =
    let here : x ∷ y ∷ [] ≡ past x y 0 = rw (+ℤ_zero x, +ℤ_zero y) in
    ap (visit fuel (x ∷ y ∷ []) (empty_end x y n)) here ∙ visit-past x y n 0 fuel
