-- ===== src/Distr/Halos/Receive.antt =====
-- The cells that a block receives are those round its inner cells.
use aphros_test.Base.{
  ℕ, ◌≡◌, refl, sym, subst, ◌⊎◌, Bool, true, false, Bool-cases, inl, inr, List, [], ◌∷◌, ◌==◌, ltb,
  if◌then◌else◌, arith,
}
use aphros_test.Distr.Halos.{Block, Stencil, insert_cell, is_received, over_offsets, over_cells}
use aphros_test.Geom.Index.{get_idx}
use aphros_test.Geom.Vect.{MIdx, add}

abbrev pub Mem : {A : Type 0} → A → List A → Type 0
Mem a [] = ⊥
Mem a (b ∷ l) = (a ≡ b) ⊎ Mem a l

insert_here : (c : ℕ) (l : List ℕ) → Mem c (insert_cell c l)
unfolding insert_cell
insert_here c [] = inl refl
insert_here c (d ∷ l) = elim (Bool-cases (c == d)) [
  | inl p ↦ rw p (inl (ground (arith, p)))
  | inr p ↦ elim (Bool-cases (ltb c d)) [
    | inl q ↦ rw (p, q) (inl refl)
    | inr q ↦ rw (p, q) (inr (insert_here c l))
  ]
]

insert_keep : (c d : ℕ) (l : List ℕ) → Mem c l → Mem c (insert_cell d l)
unfolding insert_cell
insert_keep c d [] h = absurd h
insert_keep c d (e ∷ l) h = elim (Bool-cases (d == e)) [
  | inl p ↦ rw p h
  | inr p ↦ elim (Bool-cases (ltb d e)) [
    | inl q ↦ rw (p, q) (inr h)
    | inr q ↦ rw (p, q) (elim h [ inl x ↦ inl x | inr x ↦ inr (insert_keep c d l x) ])
  ]
]

insert_from : (c d : ℕ) (l : List ℕ) → Mem c (insert_cell d l) → (c ≡ d) ⊎ Mem c l
unfolding insert_cell
insert_from c d [] h = h
insert_from c d (e ∷ l) h = go (insert_from c d l) (d == e) (ltb d e) h
  where
    go :
        (Mem c (insert_cell d l) → (c ≡ d) ⊎ Mem c l)
        → (x y : Bool) → Mem c (if x then e ∷ l else if y then d ∷ e ∷ l else e ∷ insert_cell d l)
        → (c ≡ d) ⊎ Mem c (e ∷ l)
    go f true y k = inr k
    go f false true k = k
    go f false false (inl k) = inr (inl k)
    go f false false (inr k) = elim (f k) [ inl x ↦ inl x | inr x ↦ inr (inr x) ]

module _ (s : Stencil) (b : Block) where
  abbrev pub index_of : MIdx → MIdx → ℕ
  index_of wc dw = get_idx b.indexc (add wc dw)

  insert_received : MIdx → MIdx → List ℕ → List ℕ
  insert_received wc dw seen =
      if is_received s b wc dw then insert_cell (get_idx b.indexc (add wc dw)) seen else seen

  received_keep :
      (c : ℕ) (wc dw : MIdx) (seen : List ℕ) → Mem c seen → Mem c (insert_received wc dw seen)
  unfolding insert_received
  received_keep c wc dw seen h = elim (Bool-cases (is_received s b wc dw)) [
    | inl p ↦ rw p (insert_keep c (get_idx b.indexc (add wc dw)) seen h)
    | inr p ↦ rw p h
  ]

  offsets_keep :
      (c : ℕ) (wc : MIdx) (dws : List MIdx) (seen : List ℕ)
      → Mem c seen
      → Mem c (over_offsets s b wc dws seen)
  unfolding over_offsets insert_received
  offsets_keep c wc [] seen h = h
  offsets_keep c wc (dw ∷ dws) seen h =
      offsets_keep c wc dws (insert_received wc dw seen) (received_keep c wc dw seen h)

  offsets_in :
      (wc dw : MIdx) (dws : List MIdx) (seen : List ℕ)
      → Mem dw dws
      → is_received s b wc dw ≡ true
      → Mem (index_of wc dw) (over_offsets s b wc dws seen)
  unfolding over_offsets insert_received
  offsets_in wc dw [] seen m h = absurd m
  offsets_in wc dw (dv ∷ dws) seen (inr m) h = offsets_in wc dw dws (insert_received wc dv seen) m h
  offsets_in wc dw (dv ∷ dws) seen (inl m) h =
      offsets_keep (index_of wc dw) wc dws (insert_received wc dv seen) (
        subst (λ (d : MIdx). Mem (index_of wc dw) (insert_received wc d seen)) m
          (subst
            (λ (x : Bool).
              Mem (index_of wc dw) (if x then insert_cell (index_of wc dw) seen else seen))
            (sym h) (insert_here (index_of wc dw) seen)))

  cells_keep :
      (c : ℕ) (wcs dws : List MIdx) (seen : List ℕ)
      → Mem c seen
      → Mem c (over_cells s b wcs dws seen)
  unfolding over_cells
  cells_keep c [] dws seen h = h
  cells_keep c (wc ∷ wcs) dws seen h =
      cells_keep c wcs dws (over_offsets s b wc dws seen) (offsets_keep c wc dws seen h)

  pub cells_in :
      (wc dw : MIdx) (wcs dws : List MIdx) (seen : List ℕ)
      → Mem wc wcs
      → Mem dw dws
      → is_received s b wc dw ≡ true
      → Mem (index_of wc dw) (over_cells s b wcs dws seen)
  unfolding over_cells
  cells_in wc dw [] dws seen m n h = absurd m
  cells_in wc dw (wd ∷ wcs) dws seen (inr m) n h =
      cells_in wc dw wcs dws (over_offsets s b wd dws seen) m n h
  cells_in wc dw (wd ∷ wcs) dws seen (inl m) n h =
      cells_keep (index_of wc dw) wcs dws (over_offsets s b wd dws seen) (
        subst (λ (x : MIdx). Mem (index_of wc dw) (over_offsets s b x dws seen)) m
          (offsets_in wc dw dws seen n h))

  -- A received cell comes from an inner cell and an offset.
  abbrev FromOffset : MIdx → List MIdx → ℕ → Type 0
  FromOffset wc dws c =
      (dw : MIdx) × Mem dw dws × (is_received s b wc dw ≡ true) × (c ≡ get_idx b.indexc (add wc dw))

  abbrev pub FromCell : List MIdx → List MIdx → ℕ → Type 0
  FromCell wcs dws c =
      (wc : MIdx) × (dw : MIdx) × Mem wc wcs
      × Mem dw dws
      × (is_received s b wc dw ≡ true)
      × (c ≡ get_idx b.indexc (add wc dw))

  received_from :
      (c : ℕ) (wc dw : MIdx) (seen : List ℕ)
      → Mem c (insert_received wc dw seen)
      → Mem c seen ⊎ ((is_received s b wc dw ≡ true) × (c ≡ get_idx b.indexc (add wc dw)))
  unfolding insert_received
  received_from c wc dw seen = go (is_received s b wc dw)
    where
      go :
          (x : Bool)
          → Mem c (if x then insert_cell (get_idx b.indexc (add wc dw)) seen else seen)
          → Mem c seen ⊎ ((x ≡ true) × (c ≡ get_idx b.indexc (add wc dw)))
      go true h = elim (insert_from c (get_idx b.indexc (add wc dw)) seen h) [
        | inl p ↦ inr (refl, p)
        | inr p ↦ inl p
      ]
      go false h = inl h

  offsets_from :
      (c : ℕ) (wc : MIdx) (dws : List MIdx) (seen : List ℕ)
      → Mem c (over_offsets s b wc dws seen)
      → Mem c seen ⊎ FromOffset wc dws c
  unfolding over_offsets insert_received
  offsets_from c wc [] seen h = inl h
  offsets_from c wc (dw ∷ dws) seen h =
      elim (offsets_from c wc dws (insert_received wc dw seen) h) [
        | inl m ↦ elim (received_from c wc dw seen m) [
          | inl k ↦ inl k
          | inr (p, q) ↦ inr (dw, inl refl, p, q)
        ]
        | inr (dv, m, p, q) ↦ inr (dv, inr m, p, q)
      ]

  pub cells_from :
      (c : ℕ) (wcs dws : List MIdx) (seen : List ℕ)
      → Mem c (over_cells s b wcs dws seen)
      → Mem c seen ⊎ FromCell wcs dws c
  unfolding over_cells
  cells_from c [] dws seen h = inl h
  cells_from c (wc ∷ wcs) dws seen h =
      elim (cells_from c wcs dws (over_offsets s b wc dws seen) h) [
        | inl m ↦ elim (offsets_from c wc dws seen m) [
          | inl k ↦ inl k
          | inr (dw, n, p, q) ↦ inr (wc, dw, inl refl, n, p, q)
        ]
        | inr (wd, dw, m, n, p, q) ↦ inr (wd, dw, inr m, n, p, q)
      ]
