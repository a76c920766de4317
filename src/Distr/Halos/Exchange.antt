-- ===== src/Distr/Halos/Exchange.antt =====
-- The received and the sent cells of a mesh that is divided into blocks.
use aphros_test.Base.{
  ℕ, suc, ◌+◌, ◌*◌, ◌≤◌, ◌<◌, ◌≡◌, refl, sym, ap, subst, ◌∙◌, true, inl, inr, List, [], ◌∷◌, ◌++◌,
  map, some, length, get_elem?, arith, Result, ok, ◌>>=◌,
}
use aphros_test.Base.Int.{ℤ, pos, ◌+ℤ◌, ◌≤ℤ◌, +ℤ_parts, leb_ℤ}
use aphros_test.Distr.Halos.Grown.{Grown, Between, contained, negated_parts}
use aphros_test.Distr.Halos.Periodic.{InMesh, Above}
use aphros_test.Distr.Halos.Stencils.{InLayers-Between}
use aphros_test.Distr.Halos.Receive.{Mem}
use aphros_test.Distr.Halos.Region.{IsRegion, IsHalo, block_cells-IsHalo, SameDim-get_midx}
use aphros_test.Distr.Halos.Send.{
  IsOwned, IsReceivable, AllReceivable, AllBlocks, Matches, get_send_cells-Matches,
}
use aphros_test.Distr.Halos.{
  Block, LocalCell, Stencil, negated, repeat, get_recv_cells, get_send_cells,
}
use aphros_test.Geom.Block.Order.{AllPositive}
use aphros_test.Geom.Index.Bijection.{idx-midx, is_inside_parts, size-prod}
use aphros_test.Geom.Index.{get_idx, get_midx, size, is_inside}
use aphros_test.Geom.Vect.{MIdx, add, less, less_equal, SameDim}

Between-InMesh :
    (gs : List ℕ) (w : MIdx)
    → SameDim w gs
    → Between (repeat (length gs) (pos 0)) gs w
    → InMesh gs w
unfolding less less_equal add
Between-InMesh [] [] d h = tt
Between-InMesh [] (x ∷ w) d h = absurd d
Between-InMesh (g ∷ gs) [] d h = absurd d
Between-InMesh (g ∷ gs) (x ∷ w) d h = (
  ground (arith, h.0),
  ground (arith, h.1, +ℤ_parts (pos 0) (pos g)),
  Between-InMesh gs w d (ground (arith, h.0), ground (arith, h.1)),
)

above_component :
    (x d : ℤ) (g h : ℕ)
    → 0 < g
    → h ≤ 16
    → leb_ℤ (pos 0) x ≡ true
    → leb_ℤ (negated h) d ≡ true
    → pos 0 ≤ℤ ((x +ℤ d) +ℤ pos (g * 16))
above_component x d g h p k a b =
    let low : pos 0 ≤ℤ x = ground (arith, a) in
    let off : negated h ≤ℤ d = ground (arith, b) in
    omega (arith, low, off, p, k, negated_parts h, +ℤ_parts x d, +ℤ_parts (x +ℤ d) (pos (g * 16)))

near-Above :
    (gs : List ℕ) (n h : ℕ) (w d : MIdx)
    → n ≡ length gs
    → h ≤ 16
    → AllPositive gs
    → InMesh gs w
    → SameDim d (repeat n (2 * h + 1))
    → less_equal (repeat n (negated h)) d ≡ true
    → Above gs (add w d)
unfolding less_equal add
near-Above [] n h [] d e k p m s q = tt
near-Above (g ∷ gs) (suc n) h (x ∷ w) (y ∷ d) e k p m s q = (
  above_component x y g h p.0 k m.0 (ground (arith, q)),
  near-Above gs n h w d (omega (arith, e)) k p.1 m.2 s (ground (arith, q)),
)
near-Above _ n h _ _ e k p m s q = ground arith

Grown-length :
    (h : ℕ) (b : MIdx) (ss : List ℕ) (c : MIdx) (ts : List ℕ)
    → Grown h b ss c ts
    → length ts ≡ length ss
Grown-length h [] [] [] [] g = refl
Grown-length h (x ∷ b) (s ∷ ss) (y ∷ c) (t ∷ ts) g = omega (arith, Grown-length h b ss c ts g.2)
Grown-length h _ _ _ _ g = ground arith

SameDim-same : (w : MIdx) (ss ts : List ℕ) → length ss ≡ length ts → SameDim w ss → SameDim w ts
SameDim-same [] [] [] e d = tt
SameDim-same (x ∷ w) (s ∷ ss) (t ∷ ts) e d = SameDim-same w ss ts (omega (arith, e)) d
SameDim-same _ [] (t ∷ ts) e d = absurd (omega (arith, e))
SameDim-same _ (s ∷ ss) [] e d = absurd (omega (arith, e))
SameDim-same [] (s ∷ ss) (t ∷ ts) e d = absurd d
SameDim-same (x ∷ w) [] [] e d = absurd d

-- Blocks of the mesh, each with an indexer for its stencil.
abbrev pub AllRegions : Stencil → List Block → Type 0
AllRegions s [] = Unit {0}
AllRegions s (b ∷ blocks) =
    (IsRegion s b
      × Grown 0 b.incells.begin b.incells.sizes (repeat (length s.globalsize) (pos 0)) s.globalsize)
    × AllRegions s blocks

-- A mesh whose cells are inner cells of one block each.
pub record IsDivided (s : Stencil) (blocks : List Block) : Type 0 where
  pub same_dim : s.dim ≡ length s.globalsize
  pub positive : AllPositive s.globalsize
  pub near : s.halos ≤ 16
  pub regions : AllRegions s blocks
  pub owned : (w : MIdx) → InMesh s.globalsize w → IsOwned blocks w

AllReceivable-append :
    (blocks : List Block) (gs : List ℕ) (ib : ℕ) (cells : List ℕ) (rest : List LocalCell)
    → ((c : ℕ) → Mem c cells → IsReceivable blocks gs (record { block = ib; cell = c }))
    → AllReceivable blocks gs rest
    → AllReceivable blocks gs (map (λ c. record { block = ib; cell = c }) cells ++ rest)
AllReceivable-append blocks gs ib [] rest f h = h
AllReceivable-append blocks gs ib (c ∷ cells) rest f h =
    (f c (inl refl), AllReceivable-append blocks gs ib cells rest (λ d m. f d (inr m)) h)

module _ (s : Stencil) (blocks : List Block) (v : IsDivided s blocks) where
  -- A received cell is at most sixteen meshes away in front.
  halo-Above :
      (b : Block) (w : MIdx)
      → Grown 0 b.incells.begin b.incells.sizes (repeat (length s.globalsize) (pos 0)) s.globalsize
      → IsHalo s b w
      → Above s.globalsize w
  halo-Above b w g (valid, outside, (wc, dw, d, h, l, p, q)) =
      let mesh : MIdx = repeat (length s.globalsize) (pos 0) in
      let dims =
        SameDim-same wc b.incells.sizes s.globalsize
          (sym (Grown-length 0 b.incells.begin b.incells.sizes mesh s.globalsize g)) d in
      let inner = Between-InMesh s.globalsize wc dims (
        contained 0 b.incells.begin b.incells.sizes mesh s.globalsize wc g dims
          (is_inside_parts b.incells wc h)) in
      let (e, between) = InLayers-Between s.dim s.halos dw l in
      subst (Above s.globalsize) (sym p)
        (near-Above s.globalsize s.dim s.halos wc dw v.same_dim v.near v.positive inner e between.0)

  cell-IsReceivable :
      (ib : ℕ) (b : Block) (c : ℕ)
      → get_elem? blocks ib ≡ some b
      → Grown 0 b.incells.begin b.incells.sizes (repeat (length s.globalsize) (pos 0)) s.globalsize
      → IsHalo s b (get_midx b.indexc c)
      → IsReceivable blocks s.globalsize (record { block = ib; cell = c })
  cell-IsReceivable ib b c e g halo =
      (b, e, halo-Above b (get_midx b.indexc c) g halo, λ u image. v.owned u image.0)

  received_from :
      (ib : ℕ) (bs : List Block)
      → AllRegions s bs
      → ((k : ℕ) (b : Block) → get_elem? bs k ≡ some b → get_elem? blocks (ib + k) ≡ some b)
      → (recv : List LocalCell) × (get_recv_cells s ib bs ≡ ok recv)
        × AllReceivable blocks s.globalsize recv
  unfolding get_recv_cells get_midx
  received_from ib [] r f = ([], refl, tt)
  received_from ib (b ∷ bs) r f =
      let (rest, p, all) =
        received_from (ib + 1) bs r.1
          (λ k c e. ap (get_elem? blocks) (omega arith) ∙ f (suc k) c e) in
      let (cells, q, below, halo) = block_cells-IsHalo s b r.0.0 in
      let here : get_elem? blocks ib ≡ some b = ap (get_elem? blocks) (omega arith) ∙ f 0 b refl in
      (
        map (λ c. record { block = ib; cell = c }) cells ++ rest,
        ap
              (λ (x : Result (List ℕ)). x >>= λ y. get_recv_cells s (ib + 1) bs >>= λ z.
                ok (map (λ c. record { block = ib; cell = c }) y ++ z))
              q
            ∙ ap
                (λ (x : Result (List LocalCell)).
                  x >>= λ z. ok (map (λ c. record { block = ib; cell = c }) cells ++ z))
                p,
        AllReceivable-append blocks s.globalsize ib cells rest
            (λ c m.
              cell-IsReceivable ib b c here r.0.1
                (halo_of b c r.0.0 cells (below c m) (λ w d h. (halo w d h).0) m))
            all,
      )
    where
      halo_of :
          (b : Block) (c : ℕ)
          → IsRegion s b
          → (cells : List ℕ) → c < size b.indexc
          → ((w : MIdx)
              → SameDim w b.indexc.sizes
              → is_inside b.indexc w ≡ true
              → Mem (get_idx b.indexc w) cells
              → IsHalo s b w)
          → Mem c cells
          → IsHalo s b (get_midx b.indexc c)
      halo_of b c region cells n f m =
          let (inside, back) =
            idx-midx b.indexc c region.outer
              (omega (arith, n, size-prod b.indexc (omega (arith, region.small)))) in
          f (get_midx b.indexc c)
            (SameDim-get_midx b.indexc.begin b.indexc.sizes c region.outer.same_dim) inside
            (subst (λ (x : ℕ). Mem x cells) (sym back) m)

  regions-AllBlocks : (bs : List Block) → AllRegions s bs → AllBlocks (length s.globalsize) bs
  regions-AllBlocks [] r = tt
  regions-AllBlocks (b ∷ bs) ((region, g), r) = (
    record {
      layers = s.halos;
      index = region.outer;
      small = region.small;
      same_dim =
          Grown-length s.halos b.incells.begin b.incells.sizes b.indexc.begin b.indexc.sizes
            region.grown
          ∙ sym region.same_dim
          ∙ v.same_dim;
      grown = region.grown;
    },
    regions-AllBlocks bs r,
  )

  -- In a mesh that is divided into blocks, `GetRecvCells` and then `GetSendCells` succeed, and the sent
  -- cells match the received ones in number and order: each is an inner cell of its block, at the
  -- periodic image of the received cell, which is the cell of the mesh a whole number of meshes apart in
  -- each direction. The sizes of the mesh are positive, each cell of the mesh is an inner cell of exactly
  -- one block, and the indexers hold the blocks and the layers round them, of which there are at most
  -- sixteen, and have less than 2^63 cells.
  pub get_recv_cells-Matches :
      (recv : List LocalCell) × (send : List LocalCell) × (get_recv_cells s 0 blocks ≡ ok recv)
      × (get_send_cells blocks s.globalsize recv ≡ ok send)
      × Matches blocks s.globalsize recv send
  get_recv_cells-Matches =
      let (recv, p, all) =
        received_from 0 blocks v.regions (λ k b e. ap (get_elem? blocks) (omega arith) ∙ e) in
      let (send, q, m) =
        get_send_cells-Matches blocks s.globalsize (regions-AllBlocks blocks v.regions) v.positive
          recv all in
      (recv, send, p, q, m)
