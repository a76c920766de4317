-- ===== src/Distr/Halos/Region.antt =====
-- The received cells as a region: the valid cells within the stencil that are not inner cells.
use aphros_test.Distr.Halos.Stencils.{
  IsInRange, InLayers, InStencil, is_valid-IsInRange, nnz-InStencil, Between-InLayers,
  InLayers-Between,
}
use aphros_test.Base.{
  ◌^◌, ℕ, zero, suc, ◌+◌, ◌*◌, ◌≤◌, ◌<◌, ◌≡◌, ◌↔◌, refl, sym, ap, subst, ◌∙◌, true, false,
  Bool-cases, inl, inr, List, [], ◌∷◌, length, ◌==◌, arith, Result, ok, ◌>>=◌,
}
use aphros_test.Distr.Halos.Grown.{Grown, Grown-Between, Between}
use aphros_test.Distr.Halos.Receive.{Mem, cells_in, cells_from}
use aphros_test.Distr.Halos.{
  Block, Stencil, is_valid, repeat, offsets_block, indices, is_received, over_cells, block_cells,
}
use aphros_test.Geom.Block.Order.{AllPositive, all_indices-ok, midx_range}
use aphros_test.Geom.Index.Bijection.{IsIndex, midx-idx, midx-idx_prod, idx-midx, is_inside_parts}
use aphros_test.Geom.Index.{Index, get_idx, get_midx, offsets, size, is_inside}
use aphros_test.Geom.Vect.{MIdx, add, of_sizes, prod, SameDim}

range_in : (ix : Index) (i n j : ℕ) → i ≤ j → j < i + n → Mem (get_midx ix j) (midx_range ix i n)
range_in ix i zero j h k = absurd (omega (arith, h, k))
range_in ix i (suc n) j h k = elim (Bool-cases (j == i)) [
  | inl p ↦ inl (ap (get_midx ix) (ground (arith, p)))
  | inr p ↦ inr (range_in ix (i + 1) n j (ground (arith, p, h)) (omega (arith, k)))
]

range_from :
    (ix : Index) (i n : ℕ) (w : MIdx)
    → Mem w (midx_range ix i n)
    → (j : ℕ) × (j < i + n) × (w ≡ get_midx ix j)
range_from ix i zero w h = absurd h
range_from ix i (suc n) w (inl h) = (i, omega arith, h)
range_from ix i (suc n) w (inr h) =
    let (j, k, p) = range_from ix (i + 1) n w h in (j, omega (arith, k), p)

indices-ok :
    (b : MIdx) (ss : List ℕ)
    → SameDim b ss
    → AllPositive ss
    → 0 < length ss
    → indices (record { begin = b; sizes = ss })
      ≡ ok (midx_range (record { begin = b; sizes = ss }) 0 (prod ss))
indices-ok b [] d p h = absurd (omega (arith, h))
indices-ok b (s ∷ ss) d p h = all_indices-ok b s ss (suc (prod (s ∷ ss))) d p (omega arith)

pub SameDim-get_midx :
    (b : MIdx) (ss : List ℕ) (i : ℕ) → SameDim b ss → SameDim (add b (of_sizes (offsets ss i))) ss
unfolding add offsets
SameDim-get_midx [] [] i d = tt
SameDim-get_midx [] (s ∷ ss) i d = absurd d
SameDim-get_midx (x ∷ b) [] i d = absurd d
SameDim-get_midx (x ∷ b) (s ∷ ss) i d = SameDim-get_midx b ss _ d

-- The multi-indices that a loop visits are those inside.
inside_of :
    (ix : Index) (w : MIdx)
    → IsIndex ix
    → Mem w (midx_range ix 0 (prod ix.sizes))
    → SameDim w ix.sizes × (is_inside ix w ≡ true)
unfolding get_midx
inside_of ix w v h =
    let (j, k, p) = range_from ix 0 (prod ix.sizes) w h in
    (
      subst (λ (x : MIdx). SameDim x ix.sizes) (sym p)
          (SameDim-get_midx ix.begin ix.sizes j v.same_dim),
      ap (is_inside ix) p ∙ (idx-midx ix j v (omega (arith, k))).0,
    )

visited :
    (ix : Index) (w : MIdx)
    → IsIndex ix
    → SameDim w ix.sizes
    → is_inside ix w ≡ true
    → Mem w (midx_range ix 0 (prod ix.sizes))
visited ix w v d h =
    let (k, p) = midx-idx_prod ix w v d h in
    subst (λ (x : MIdx). Mem x (midx_range ix 0 (prod ix.sizes))) p
      (range_in ix 0 (prod ix.sizes) (get_idx ix w) (omega arith) (omega (arith, k)))

-- A block whose indexer is valid for the cells of the stencil.
pub record IsRegion (s : Stencil) (b : Block) : Type 0 where
  pub inner : IsIndex b.incells
  pub outer : IsIndex b.indexc
  pub small : prod b.indexc.sizes < 2 ^ 63
  pub stencil : IsIndex (offsets_block s.dim s.halos)
  pub positive : AllPositive b.incells.sizes
  pub same_dim : s.dim ≡ length b.incells.sizes
  pub some_dim : 0 < s.dim
  pub grown : Grown s.halos b.incells.begin b.incells.sizes b.indexc.begin b.indexc.sizes

-- A cell that an offset of the stencil reaches from an inner cell: one within the layers, in one
-- direction only where the stencil is not full.
abbrev pub IsNear : Stencil → Block → MIdx → Type 0
IsNear s b w =
    (wc : MIdx) × (dw : MIdx) × SameDim wc b.incells.sizes
    × (is_inside b.incells wc ≡ true)
    × InLayers s.dim s.halos dw
    × (w ≡ add wc dw)
    × InStencil s.full dw

-- A cell of the mesh, or of its periodic continuation, that is near and no inner cell.
abbrev pub IsHalo : Stencil → Block → MIdx → Type 0
IsHalo s b w =
    IsInRange w s.globalsize s.is_periodic × (is_inside b.incells w ≡ false) × IsNear s b w

AllPositive-repeat : (n s : ℕ) → 0 < s → AllPositive (repeat n s)
AllPositive-repeat zero s h = tt
AllPositive-repeat (suc n) s h = (h, AllPositive-repeat n s h)

length-repeat : (n s : ℕ) → length (repeat n s) ≡ n
length-repeat zero s = refl
length-repeat (suc n) s = omega (arith, length-repeat n s)

is_inside_of : (ix : Index) (w : MIdx) → Between ix.begin ix.sizes w → is_inside ix w ≡ true
unfolding is_inside
is_inside_of ix w h = ground (arith, h.0, h.1)

module _ (s : Stencil) (b : Block) (v : IsRegion s b) where
  inner_range : List MIdx
  inner_range = midx_range b.incells 0 (prod b.incells.sizes)

  offset_range : List MIdx
  offset_range =
      midx_range (offsets_block s.dim s.halos) 0 (prod (offsets_block s.dim s.halos).sizes)

  received : List ℕ
  received = over_cells s b inner_range offset_range []

  block_cells-received : block_cells s b ≡ ok received
  unfolding block_cells received inner_range offset_range
  block_cells-received =
      ap
        (λ (r : Result (List MIdx)). r >>= λ wcs.
          indices (offsets_block s.dim s.halos) >>= λ dws. ok (over_cells s b wcs dws []))
        (indices-ok b.incells.begin b.incells.sizes v.inner.same_dim v.positive
          (omega (arith, v.same_dim, v.some_dim)))
      ∙ ap (λ (r : Result (List MIdx)). r >>= λ dws. ok (over_cells s b inner_range dws []))
          (indices-ok (offsets_block s.dim s.halos).begin (offsets_block s.dim s.halos).sizes
            v.stencil.same_dim (AllPositive-repeat s.dim (2 * s.halos + 1) (omega arith))
            (omega (arith, length-repeat s.dim (2 * s.halos + 1), v.some_dim)))

  -- The indexer holds what the stencil reaches.
  reached :
      (wc dw : MIdx)
      → SameDim wc b.incells.sizes
      → is_inside b.incells wc ≡ true
      → SameDim dw (offsets_block s.dim s.halos).sizes
      → is_inside (offsets_block s.dim s.halos) dw ≡ true
      → SameDim (add wc dw) b.indexc.sizes × (is_inside b.indexc (add wc dw) ≡ true)
  unfolding is_inside
  reached wc dw d h e k =
      let (dims, (low, high)) =
        Grown-Between s.dim s.halos b.incells.begin b.incells.sizes b.indexc.begin b.indexc.sizes wc
          dw v.same_dim v.grown d e (is_inside_parts b.incells wc h)
          (is_inside_parts (offsets_block s.dim s.halos) dw k) in
      (dims, ground (arith, low, high))

  -- What a received cell comes from.
  source :
      (c : ℕ)
      → Mem c received
      → (w : MIdx) × SameDim w b.indexc.sizes
        × (is_inside b.indexc w ≡ true)
        × (c ≡ get_idx b.indexc w)
        × IsHalo s b w
  unfolding received is_received inner_range offset_range
  source c m = elim (cells_from s b c inner_range offset_range [] m) [
    | inl x ↦ absurd x
    | inr (wc, dw, m, n, p, q) ↦
        let (d, h) = inside_of b.incells wc v.inner m in
        let (e, k) = inside_of (offsets_block s.dim s.halos) dw v.stencil n in
        let (dims, inside) = reached wc dw d h e k in
        (
          add wc dw,
          dims,
          inside,
          q,
          (
            (is_valid-IsInRange (add wc dw) s.globalsize s.is_periodic).0 (ground (arith, p)),
            ground (arith, p),
            (
              wc,
              dw,
              d,
              h,
              Between-InLayers s.dim s.halos dw e
                  (is_inside_parts (offsets_block s.dim s.halos) dw k),
              refl,
              (nnz-InStencil s.full dw).0 (ground (arith, p)),
            ),
          ),
        )
  ]

  taken : (w : MIdx) → IsHalo s b w → Mem (get_idx b.indexc w) received
  unfolding received is_received inner_range offset_range
  taken w (valid, outside, (wc, dw, d, h, l, p, q)) =
      let (e, between) = InLayers-Between s.dim s.halos dw l in
      let k = is_inside_of (offsets_block s.dim s.halos) dw between in
      let axis = (nnz-InStencil s.full dw).1 q in
      let valid' : is_valid (add wc dw) s.globalsize s.is_periodic ≡ true =
        ap (λ (x : MIdx). is_valid x s.globalsize s.is_periodic) (sym p)
        ∙ (is_valid-IsInRange w s.globalsize s.is_periodic).1 valid in
      let outside' : is_inside b.incells (add wc dw) ≡ false =
        ap (is_inside b.incells) (sym p) ∙ outside in
      subst (λ (x : MIdx). Mem (get_idx b.indexc x) received) (sym p)
        (cells_in s b wc dw inner_range offset_range [] (visited b.incells wc v.inner d h)
          (visited (offsets_block s.dim s.halos) dw v.stencil e k)
          (ground (arith, axis, valid', outside')))

  same_cell :
      (w u : MIdx)
      → SameDim w b.indexc.sizes
      → is_inside b.indexc w ≡ true
      → SameDim u b.indexc.sizes
      → is_inside b.indexc u ≡ true
      → get_idx b.indexc w ≡ get_idx b.indexc u
      → u ≡ w
  same_cell w u d h e k p =
      sym (midx-idx_prod b.indexc u v.outer e k).1
      ∙ ap (get_midx b.indexc) (sym p)
      ∙ (midx-idx_prod b.indexc w v.outer d h).1

  -- A block receives exactly the cells that are within the mesh in each direction that is not
  -- periodic, no inner cells, and reached from an inner cell by an offset of at most as many cells as
  -- there are layers in each direction, in one direction only where the stencil is not full; and their
  -- indices are below the size of the block's indexer. The indexer holds the block and the layers
  -- round it, the inner cells are not empty, the indexer has less than 2^63 cells, and the products of
  -- the other sizes are at most 2^64.
  pub block_cells-IsHalo :
      (cells : List ℕ) × (block_cells s b ≡ ok cells)
      × ((c : ℕ) → Mem c cells → c < size b.indexc)
      × ((w : MIdx)
          → SameDim w b.indexc.sizes
          → is_inside b.indexc w ≡ true
          → Mem (get_idx b.indexc w) cells ↔ IsHalo s b w)
  block_cells-IsHalo = (
    received,
    block_cells-received,
    λ c m.
        let (w, d, h, p, halo) = source c m in
        omega (arith, p, (midx-idx b.indexc w v.outer v.small d h).0),
    λ w d h. (
      λ m.
          let (u, e, k, p, halo) = source (get_idx b.indexc w) m in
          subst (IsHalo s b) (same_cell w u d h e k p) halo,
      taken w,
    ),
  )
